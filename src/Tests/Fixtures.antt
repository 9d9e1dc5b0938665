-- ===== src/Tests/Fixtures.antt =====
-- A configuration, a request, a binding and an offer, for the tests.
use dbsc_python.Base.{◌≡◌, [], ◌∷◌, false, none, arith}
use dbsc_python.Base.Int.{pos, ◌+ℤ◌, ◌-ℤ◌}
use dbsc_python.Base.Text.{Text, codes, text_eq}
use dbsc_python.Exceptions.{ok}
use dbsc_python.Encoding.{constant_time_equals}
use dbsc_python.Json.{end}
use dbsc_python.Validate.{require, is_sf_string_safe, is_cookie_value}
use dbsc_python.Jwt.{JwtVerifier, ParsedJwt, RaisesJwtInvalid}
use dbsc_python.Config.{Config}
use dbsc_python.Request.{RequestContext, header, cookie}
use dbsc_python.Binding.{Binding, post_init, with_rotated_cookie_and_challenge}
use dbsc_python.Server.Messages.{same_user, hex}
use dbsc_python.Server.Refresh.{refresh, session_matches}
use dbsc_python.Base.{◌≢◌}
use dbsc_python.Base.Text.{text_eq_iff}
use dbsc_python.Encoding.{encode?}
use dbsc_python.Pending.{PendingRegistration}
use dbsc_python.Binding.{with_challenge, mark_challenge_advertised}
use dbsc_python.Server.Registration.{register}
use dbsc_python.Server.Challenge.{issue_refresh_challenge, advertise_refresh_challenge}
use dbsc_python.Server.Gate.{bound_cookie_matches, revoke}

unfoldable pub program : Unit {0}
unfolding codes text_eq ◌+ℤ◌ ◌-ℤ◌ constant_time_equals require is_sf_string_safe is_cookie_value
    header post_init same_user hex refresh session_matches with_rotated_cookie_and_challenge
    register issue_refresh_challenge advertise_refresh_challenge with_challenge
    mark_challenge_advertised bound_cookie_matches revoke encode? cookie
program = tt

abbrev pub config : Config
config = record {
  cookie_name = codes "__Host-dbsc";
  cookie_max_age_seconds = pos 300;
  register_path = codes "/dbsc/register";
  refresh_path = codes "/dbsc/refresh";
  challenge_ttl_seconds = pos 900;
  registration_grace_seconds = pos 5;
  cookie_same_site = codes "Lax";
  allowed_refresh_initiators = [];
  scope_specification = [];
}

abbrev pub ctx : RequestContext
ctx = record {
  session_id = codes "s1";
  user_id = codes "u1";
  origin_host_url = codes "https://example.com";
  headers = [];
  cookies = (codes "__Host-dbsc", codes "c0") ∷ [];
  allowed_refresh_initiators = none;
  scope_specification = none;
}

-- A verifier for which a token is its own `jti`.
abbrev pub parsed : Text → ParsedJwt
parsed jwt = record { header = end; payload = end; signing_input = jwt; signature = [] }

abbrev pub verifier : JwtVerifier
verifier = record {
  parse = λ jwt. ok (parsed jwt);
  verify_registration_jwt = λ p. ok (record {
    public_key_pem = codes "pem";
    algorithm = codes "ES256";
    challenge = p.signing_input;
  });
  verify_refresh_jwt = λ p pem. ok p.signing_input;
}

pub verifier-RaisesJwtInvalid : RaisesJwtInvalid verifier
verifier-RaisesJwtInvalid = record {
  parse = λ jwt e h. absurd (cc);
  registration = λ jwt p e parses h. absurd (cc);
  refresh = λ jwt p pem e parses h. absurd (cc);
}

abbrev pub bound : Binding
bound = record {
  user_id = codes "u1";
  session_identifier = codes "id";
  cookie_value = codes "c0";
  public_key_pem = codes "pem";
  algorithm = codes "ES256";
  challenge = codes "n0";
  challenge_time = pos 1000;
  created_at = pos 1000;
  cookie_issued_at = pos 1000;
  previous_cookie_value = [];
  previous_cookie_expires_at = pos 0;
  has_refreshed = false;
  previous_challenge = [];
  previous_challenge_time = pos 0;
  challenge_advertised = false;
}

abbrev pub offer : PendingRegistration
offer = record { user_id = codes "u1"; reg_challenge = codes "n0"; reg_challenge_time = pos 1000 }

pub text_ne : (s t : Text) → text_eq s t ≡ false → s ≢ t
text_ne s t h = λ e. ground (arith, text_eq_iff s t)
