-- ===== src/Demo.antt =====
-- examples/demo_server.py: the response of the demo, and its protected page with the enforcement
-- gate. The session map of the demo is the user id of the request's context; its one change, the
-- logout, is a field of the outcome.
pub mod Gated
pub mod Endpoints
use dbsc_python.Base.{
  ℕ, Bool, true, false, not, Option, none, some, List, [], ◌∷◌, ◌++◌, if◌then◌else◌,
}
use dbsc_python.Base.Int.{ℤ, pos, ◌-ℤ◌, ltb_ℤ}
use dbsc_python.Base.Text.{Text, codes, is_empty, text_eq}
use dbsc_python.Exceptions.{Exception, ExceptionClass, raise, corrupt_state_error}
use dbsc_python.Json.Dumps.{integer}
use dbsc_python.Config.{Config}
use dbsc_python.Request.{RequestContext, lower}
use dbsc_python.Response.{Cookie, DbscResponse}
use dbsc_python.Binding.{Binding}
use dbsc_python.Effect.{Program, pure, lift, try, ◌>>=◌}
use dbsc_python.Server.Messages.{now}
use dbsc_python.Server.Challenge.{advertise_refresh_challenge}
use dbsc_python.Server.Gate.{
  get_binding, revoke, bound_cookie_matches, is_within_registration_grace, is_document_request,
}

pub record Response : Type 0 where
  pub status : ℕ
  pub headers : List (Text × Text)
  pub body : Text

abbrev without : Text → List (Text × Text) → List (Text × Text)
without name [] = []
without name ((n, v) ∷ rest) =
    if text_eq (lower n) (lower name) then without name rest else (n, v) ∷ without name rest

unfoldable pub set_header : Text → Text → Response → Response
set_header name value r = record r { headers = without name r.headers ++ (name, value) ∷ [] }

unfoldable pub set_headers : List (Text × Text) → Response → Response
unfolding set_header
set_headers [] r = r
set_headers ((name, value) ∷ rest) r = set_headers rest (set_header name value r)

abbrev joined : List Text → Text
joined [] = []
joined (part ∷ parts) = codes "; " ++ part ++ joined parts

-- max(n, 0)
abbrev or_zero : ℤ → ℤ
or_zero n = if ltb_ℤ n (pos 0) then pos 0 else n

abbrev flags : Cookie → List Text
flags c =
    (if c.secure then codes "Secure" ∷ [] else [])
    ++ (if c.http_only then codes "HttpOnly" ∷ [] else [])
    ++ (codes "SameSite=" ++ c.same_site) ∷ []

-- `set_cookie_header`, at a reading of the clock
unfoldable pub set_cookie_at : ℤ → Cookie → Text
unfolding integer codes
set_cookie_at time c =
    c.name
    ++ codes "="
    ++ (if c.delete then [] else c.value)
    ++ joined (
        (codes "Path=" ++ c.path)
          ∷ (if c.delete
              then codes "Expires=Thu, 01 Jan 1970 00:00:01 GMT" ∷ codes "Max-Age=0" ∷ []
              else (codes "Max-Age=" ++ integer (or_zero (c.expires_at -ℤ time))) ∷ [])
        ++ flags c)

-- The clock is read for a cookie that is not deleted.
unfoldable pub set_cookie_header : Cookie → Program Text
unfolding set_cookie_at
set_cookie_header c =
    if c.delete then pure (set_cookie_at (pos 0) c) else now >>= λ time. pure (set_cookie_at time c)

unfoldable pub with_cookies : List Cookie → Response → Program Response
unfolding set_cookie_header codes
with_cookies [] r = pure r
with_cookies (c ∷ cs) r = set_cookie_header c >>= λ value.
    with_cookies cs (record r { headers = r.headers ++ (codes "Set-Cookie", value) ∷ [] })

abbrev or_kept : {A : Type 0} → Option A → A → A
or_kept none old = old
or_kept (some new) old = new

abbrev with_content_type : Option Text → Response → Response
with_content_type none r = r
with_content_type (some t) r = set_header (codes "Content-Type") t r

-- `Response.apply`
unfoldable pub apply : DbscResponse → Response → Program Response
unfolding set_headers set_header with_cookies codes
apply dbsc response = do
  applied ← with_cookies dbsc.cookies (set_headers dbsc.headers response)
  pure (record (with_content_type dbsc.content_type applied) {
    status = or_kept dbsc.status applied.status;
    body = or_kept dbsc.body applied.body;
  })

unfoldable pub redirect : Text → Response → Response
unfolding codes
redirect location r = record r {
  status = 302;
  headers = r.headers ++ (codes "Location", location) ∷ [];
}

-- What a handler leaves: the response, and whether it has logged the user out of the demo.
pub record Outcome : Type 0 where
  pub response : Response
  pub logged_out : Bool

-- The binding read, or one that is present and unreadable.
pub data Found : Type 0 where
  readable : Option Binding → Found
  unreadable : Found

unfoldable pub unreadable_if_corrupt : Exception → ExceptionClass → Program Found
unreadable_if_corrupt e corrupt_state_error = pure unreadable
unreadable_if_corrupt e _ = lift (raise e)

unfoldable pub found_binding : RequestContext → Program Found
unfolding get_binding unreadable_if_corrupt
found_binding ctx =
    try (do found ← get_binding ctx; pure (readable found)) λ e. unreadable_if_corrupt e e.kind

module _ (config : Config) (ctx : RequestContext) (response : Response) where
  -- `_terminate`
  unfoldable pub terminate : Program Outcome
  unfolding revoke apply redirect codes
  terminate = do
    revoked ← revoke config ctx true
    applied ← apply revoked response
    pure (record { response = redirect (codes "?route=login") applied; logged_out = true })

  abbrev page : Text → Response → Program Outcome
  page body r = pure (record { response = record r { body = body }; logged_out = false })

  abbrev bound_page : Text
  bound_page = codes "Account page (DBSC-bound: device-bound cookie verified)."

  abbrev unbound_page : Text
  unbound_page = codes "Account page (cookie auth: browser did not register DBSC)."

  unfoldable pub must_check : Binding → Program Bool
  unfolding is_document_request is_within_registration_grace
  must_check binding =
      if is_document_request ctx
      then pure true
      else is_within_registration_grace config binding >>= λ within. pure (not within)

  unfoldable pub passes : Binding → Program Bool
  unfolding must_check bound_cookie_matches
  passes binding = must_check binding >>= λ checked.
      if checked then bound_cookie_matches config binding ctx else pure true

  unfoldable pub bound_account : Binding → Program Outcome
  unfolding advertise_refresh_challenge is_document_request apply codes
  bound_account binding =
      if is_document_request ctx
      then (advertise_refresh_challenge config binding ctx >>= λ advertised.
          apply advertised response >>= page bound_page)
      else page bound_page response

  unfoldable pub account_of : Found → Program Outcome
  unfolding terminate passes bound_account codes
  account_of unreadable = terminate
  account_of (readable none) = page unbound_page response
  account_of (readable (some binding)) =
      passes binding >>= λ passed. if passed then bound_account binding else terminate

  -- `_account`
  unfoldable pub account : Program Outcome
  unfolding found_binding account_of redirect codes
  account =
      if is_empty ctx.user_id
      then pure (record { response = redirect (codes "?route=login") response; logged_out = false })
      else found_binding ctx >>= account_of
