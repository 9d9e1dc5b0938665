-- ===== src/Tests/Demonstrating.antt =====
-- The demo's protected page at a concrete request.
use dbsc_python.Base.{◌≡◌, refl, [], ◌∷◌, some, true}
use dbsc_python.Base.Int.{pos}
use dbsc_python.Base.Text.{codes, text_eq}
use dbsc_python.Request.{RequestContext, lower, lookup}
use dbsc_python.Response.{deletion}
use dbsc_python.Exceptions.{ok}
use dbsc_python.Effect.{clock, store, get_binding}
use dbsc_python.Effect.Ensures.{Ensures, OnOk}
use dbsc_python.Demo.{Response, account, set_cookie_at, set_header}
use dbsc_python.Demo.Gated.{Access, account-Access}
use dbsc_python.Demo.Endpoints.{session_response_jwt, refresh_endpoint}
use dbsc_python.Demo.Endpoints.Logout.{Explained, refresh_endpoint-Explained}
use dbsc_python.Tests.Fixtures.{program, config, ctx, verifier, bound, verifier-RaisesJwtInvalid}

abbrev blank : Response
blank = record { status = 200; headers = []; body = [] }

-- A request that carries a proof.
abbrev proving : RequestContext
proving = record ctx { headers = (codes "sec-session-response", codes "\"n0\"") ∷ [] }

account-Access_example :
    Access config ctx blank []
      ((clock, pos 1003) ∷ (store (get_binding ctx.session_id), ok (some bound)) ∷ [])
unfolding program account
account-Access_example = account-Access config ctx blank [] refl (ok (some bound)) (pos 1003) refl

response_runs :
    (set_cookie_at (pos 7) (deletion (codes "c") (codes "/"))
      ≡ codes
          "c=; Path=/; Expires=Thu, 01 Jan 1970 00:00:01 GMT; Max-Age=0; Secure; HttpOnly; SameSite=Lax")
    × ((set_header
          (codes "A")
          (codes "2")
          (record blank { headers = (codes "a", codes "1") ∷ [] })).headers
        ≡ (codes "A", codes "2") ∷ [])
unfolding program set_cookie_at set_header deletion text_eq lower
response_runs = (refl, refl)

refresh_endpoint-Explained_example :
    Ensures
      (OnOk (λ o h'. o.logged_out ≡ true → Explained proving h'))
      (refresh_endpoint config verifier proving blank)
      []
refresh_endpoint-Explained_example =
    refresh_endpoint-Explained config verifier verifier-RaisesJwtInvalid proving blank []

proof_read : session_response_jwt proving ≡ codes "n0"
unfolding session_response_jwt program lookup lower
proof_read = refl
