-- ===== src/Server/Messages.antt =====
-- The parts that the methods of `DbscServer` share: the clock, nonces, audit reports, challenge
-- headers, cookies and the user check.
pub mod Reading
use dbsc_python.Base.{ℕ, ◌/◌, ◌%◌, Bool, ◌||◌, none, some, List, [], ◌∷◌, ◌++◌}
use dbsc_python.Base.Int.{ℤ, ◌+ℤ◌}
use dbsc_python.Base.Text.{Text, codes, is_empty, text_eq}
use dbsc_python.Exceptions.{ExceptionClass, error}
use dbsc_python.Json.Dumps.{hex_digit}
use dbsc_python.Config.{Config}
use dbsc_python.Request.{RequestContext}
use dbsc_python.Response.{Cookie, DbscResponse, cookie}
use dbsc_python.Audit.{AuditEvent}
use dbsc_python.Effect.{Program, call, clock, token_bytes, audit, pure, lift, ◌>>◌}

abbrev pub header_registration : Text
header_registration = codes "Secure-Session-Registration"

abbrev pub header_challenge : Text
header_challenge = codes "Secure-Session-Challenge"

abbrev pub header_session_id : Text
header_session_id = codes "Sec-Secure-Session-Id"

-- `_NO_STORE`
abbrev pub no_store : List (Text × Text)
no_store = (codes "Cache-Control", codes "no-store") ∷ []

unfoldable pub hex : List ℕ → Text
unfolding hex_digit
hex [] = []
hex (b ∷ bs) = hex_digit (b / 16 % 16) ∷ hex_digit (b % 16) ∷ hex bs

-- `_nonce`; every caller asks for 32 bytes.
abbrev pub nonce : Program Text
nonce = call (token_bytes 32) (λ bytes. pure (hex bytes))

abbrev pub now : Program ℤ
now = call clock pure

abbrev pub log : AuditEvent → Text → RequestContext → Program (Unit {0})
log event message ctx = call (audit event message ctx.user_id) pure

-- `await self._fail(...)`, and the `raise` that follows it.
abbrev pub fail :
    {A : Type 0} → AuditEvent → Text → RequestContext → ExceptionClass → Text → Program A
fail event message ctx kind raised = log event message ctx >> lift (error kind raised)

unfoldable pub same_user : Text → Text → Bool
same_user recorded current = is_empty recorded || is_empty current || text_eq recorded current

-- A text in double quotes, as in `f'"{challenge}"'`.
abbrev pub quoted : Text → Text
quoted s = 34 ∷ s ++ 34 ∷ []

-- `_challenge_headers`
unfoldable pub challenge_headers : Text → Text → List (Text × Text)
challenge_headers [] challenge = (header_challenge, quoted challenge) ∷ []
challenge_headers (c ∷ identifier) challenge =
    (header_challenge, quoted challenge ++ codes "; id=" ++ quoted (c ∷ identifier))
    ∷ (header_session_id, c ∷ identifier)
    ∷ []

-- `_challenge_403`
unfoldable pub challenge_403 : Text → Text → DbscResponse
unfolding challenge_headers
challenge_403 session_identifier challenge = record {
  headers = challenge_headers session_identifier challenge ++ no_store;
  cookies = [];
  status = some 403;
  body = none;
  content_type = some (codes "application/json");
}

-- The bare 403 of an unbound session.
unfoldable pub bare_403 : DbscResponse
bare_403 = record {
  headers = no_store;
  cookies = [];
  status = some 403;
  body = none;
  content_type = some (codes "application/json");
}

-- The cookie of `_bound_cookie`, given the reading of the clock.
unfoldable pub bound_cookie_at : Config → Text → ℤ → Cookie
bound_cookie_at config value time =
    record (cookie config.cookie_name value (time +ℤ config.cookie_max_age_seconds)) {
      same_site = config.cookie_same_site;
    }
