-- ===== src/Tests/Concurrent.antt =====
-- Concurrent requests at a concrete start.
use dbsc_python.Base.{refl, [], false}
use dbsc_python.Base.Text.{codes}
use dbsc_python.Exceptions.{ok}
use dbsc_python.Response.{DbscResponse}
use dbsc_python.Response.{empty_response}
use dbsc_python.Effect.{Program, pure}
use dbsc_python.Store.{absent}
use dbsc_python.System.{System, set, arrive, here, next}
use dbsc_python.System.Sessions.{IsClosed, Ages}
use dbsc_python.Server.Gate.{revoke}
use dbsc_python.Server.Requests.{revoking, requests-Ages}
use dbsc_python.Tests.Fixtures.{config, ctx, verifier}

-- An idle server in front of an empty store.
abbrev idle : System
idle = record {
  view = record { pending = λ s. absent; binding = λ s. absent };
  threads = λ i. pure empty_response;
  events = [];
}

-- A logout arrives and runs up to its deletion.
abbrev logout : Program DbscResponse
logout = revoke config ctx false

abbrev logging_out : System
logging_out = record idle { threads = set idle.threads 0 logout }

requests-Ages_example :
    IsClosed (codes "s1") logging_out
    × Ages (idle.view.binding (codes "s1")) (logging_out.view.binding (codes "s1"))
requests-Ages_example =
    requests-Ages (codes "s1") config verifier (record { no_offer = refl; calls = λ i. tt })
      (next here (arrive 0 (ok empty_response) logout refl (revoking ctx false) refl))
