-- ===== src/Demo/Endpoints.antt =====
-- examples/demo_server.py: the two endpoints that the browser posts to.
pub mod Logout
use dbsc_python.Base.{Bool, true, false, Option, none, some, [], ◌∷◌, ◌==◌, if◌then◌else◌}
use dbsc_python.Base.Text.{Text, codes, is_empty}
use dbsc_python.Exceptions.{Exception, raise, is_retryable, is_dbsc_error}
use dbsc_python.Jwt.{JwtVerifier}
use dbsc_python.Config.{Config}
use dbsc_python.Request.{RequestContext, header}
use dbsc_python.Response.{DbscResponse}
use dbsc_python.Effect.{Program, pure, lift, try, ◌>>=◌}
use dbsc_python.Server.Registration.{register}
use dbsc_python.Server.Challenge.{issue_refresh_challenge}
use dbsc_python.Server.Refresh.{refresh}
use dbsc_python.Server.Gate.{revoke}
use dbsc_python.Demo.{Response, set_header, apply, Outcome}

-- a or b, of two headers
abbrev or_else : Option Text → Option Text → Text
or_else (some (c ∷ s)) b = c ∷ s
or_else a (some s) = s
or_else a none = []

-- s.strip('"'): the quotes before the first other character, and those after the last
abbrev left_stripped : Text → Text
left_stripped [] = []
left_stripped (c ∷ s) = let rest = left_stripped s in if c == 34 then rest else c ∷ s

abbrev right_stripped : Text → Text
right_stripped [] = []
right_stripped (c ∷ s) = elim (right_stripped s) [
  | [] ↦ if c == 34 then [] else c ∷ []
  | d ∷ t ↦ c ∷ d ∷ t
]

-- `_session_response_jwt`
unfoldable pub session_response_jwt : RequestContext → Text
unfolding header codes
session_response_jwt ctx = right_stripped (
    left_stripped (
      or_else (header ctx (codes "Sec-Session-Response"))
        (header ctx (codes "Secure-Session-Response"))))

-- `_json_error` with status 401
unfoldable pub json_error : Response → Response
unfolding set_header codes
json_error r =
    record (set_header (codes "Content-Type") (codes "application/json")
      (record r { status = 401 })) { body = codes "{\"ok\": false}" }

module _ (config : Config) (verifier : JwtVerifier) (ctx : RequestContext)
    (response : Response) where
  abbrev pub kept : Response → Program Outcome
  kept r = pure (record { response = r; logged_out = false })

  abbrev pub applied : DbscResponse → Program Outcome
  applied dbsc = apply dbsc response >>= kept

  unfoldable pub registration_refused : Exception → Program Outcome
  unfolding json_error is_dbsc_error
  registration_refused e =
      if is_dbsc_error e.kind then kept (json_error response) else lift (raise e)

  -- `_register`
  unfoldable pub register_endpoint : Program Outcome
  unfolding session_response_jwt register apply registration_refused
  register_endpoint =
      if is_empty (session_response_jwt ctx)
      then kept (record response { status = 400 })
      else try (register config verifier (session_response_jwt ctx) ctx >>= applied)
          registration_refused

  -- A terminal failure of the proof: the session is revoked, and the user logged out.
  unfoldable pub refresh_terminated : Program Outcome
  unfolding revoke apply json_error
  refresh_terminated = revoke config ctx true >>= λ revoked.
      apply revoked response >>= λ r. pure (record { response = json_error r; logged_out = true })

  unfoldable pub refresh_refused : Exception → Program Outcome
  unfolding is_retryable is_dbsc_error issue_refresh_challenge apply refresh_terminated
  refresh_refused e =
      if is_retryable e.kind
      then issue_refresh_challenge ctx >>= applied
      else if is_dbsc_error e.kind
      then refresh_terminated
      else lift (raise e)

  -- `_refresh`
  unfoldable pub refresh_endpoint : Program Outcome
  unfolding session_response_jwt issue_refresh_challenge refresh apply refresh_refused
  refresh_endpoint =
      if is_empty (session_response_jwt ctx)
      then issue_refresh_challenge ctx >>= applied
      else try (refresh config verifier (session_response_jwt ctx) ctx >>= applied) refresh_refused
