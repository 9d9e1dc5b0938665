-- ===== src/Tests/Registering.antt =====
-- `register` at concrete requests.
use dbsc_python.Base.{refl, [], ◌∷◌, true, some}
use dbsc_python.Base.Int.{pos}
use dbsc_python.Base.Text.{Text, codes}
use dbsc_python.Exceptions.{ok}
use dbsc_python.Response.{DbscResponse}
use dbsc_python.Effect.Ensures.{History}
use dbsc_python.Jwt.{RegistrationResult}
use dbsc_python.Effect.Ensures.{Ensures, OnRaise}
use dbsc_python.Effect.Inert.{AllInert}
use dbsc_python.Effect.Points.{AtCalls, StopsAt}
use dbsc_python.Server.Registration.{check_offer, register}
use dbsc_python.Server.Registration.Response.{IsRegistered, register-IsRegistered}
use dbsc_python.Server.Registration.Failures.{
  IsCommit, registration, register-AllInert, IsEscape, register_surrogate,
}
use dbsc_python.Effect.Under.{Under}
use dbsc_python.Server.Registration.{verify_registration}
use dbsc_python.Server.Progress.{IsAnswered, Commits, IsSignedFor, register-IsAnswered}
use dbsc_python.Tests.Fixtures.{program, config, ctx, verifier, offer}

-- What the verifier of these tests says of the token "n0".
abbrev answered : RegistrationResult
answered = record {
  public_key_pem = codes "pem";
  algorithm = codes "ES256";
  challenge = codes "n0";
}

register-IsRegistered_example :
    (response : DbscResponse) × (h : History) × IsRegistered config verifier
      (codes "n0")
      ctx
      response
      []
      h
unfolding program
register-IsRegistered_example = (
  _,
  _,
  register-IsRegistered config verifier (codes "n0") ctx [] (ok (some offer)) (pos 1010) (pos 1010)
      (18 ∷ []) (52 ∷ []) (86 ∷ []) (ok true) tt (pos 1011),
)

register-AllInert_example :
    Ensures (OnRaise (λ e. AllInert)) (register config verifier (codes "n0") ctx) []
    × AtCalls
        (StopsAt
          (IsCommit config verifier (codes "n0") ctx)
          (registration config verifier (codes "n0") ctx))
        (register config verifier (codes "n0") ctx)
        []
unfolding program
register-AllInert_example = register-AllInert config verifier (codes "n0") ctx [] tt

-- A token with a lone surrogate.
abbrev surrogate : Text
surrogate = 55296 ∷ []

abbrev surrogate_result : RegistrationResult
surrogate_result = record {
  public_key_pem = codes "pem";
  algorithm = codes "ES256";
  challenge = surrogate;
}

register_surrogate_example :
    Ensures
      (IsEscape config verifier surrogate ctx offer [])
      (check_offer config verifier surrogate ctx (some offer))
      []
unfolding program
register_surrogate_example =
    register_surrogate config verifier surrogate ctx offer surrogate_result [] refl refl refl

signed : IsSignedFor config verifier (codes "n0") ctx offer answered
unfolding program verify_registration
signed = record { safe = refl; user = refl; signed = refl; challenge = refl }

register-IsAnswered_example :
    Under
      (Commits config verifier (codes "n0") ctx offer answered)
      (λ r h. IsAnswered r)
      (register config verifier (codes "n0") ctx)
      []
register-IsAnswered_example =
    register-IsAnswered config verifier (codes "n0") ctx offer answered signed []
