-- ===== src/Tests/Settings.antt =====
-- Configurations, requests and their constructors.
use dbsc_python.Base.{◌≡◌, refl, [], ◌∷◌, true, false, ◌++◌}
use dbsc_python.Base.Text.{Text, codes}
use dbsc_python.Exceptions.{ok}
use dbsc_python.Config.{Config}
use dbsc_python.Request.{RequestContext, header, cookie}
use dbsc_python.Response.{DbscResponse}
use dbsc_python.Effect.Ensures.{Ensures}
use dbsc_python.Config
use dbsc_python.Request
use dbsc_python.Config.{check_fields}
use dbsc_python.Config.Accepted.{IsAccepted, post_init-IsAccepted}
use dbsc_python.Validate.Patterns.{
  is_cookie_name, is_path, path_char, alphanumeric, is_same_site, origin, is_origin,
  is_host_pattern,
}
use dbsc_python.Validate.Hosts.{host_patterns}
use dbsc_python.Request.Headers.{last_named, post_init-header}
use dbsc_python.Regex.{Matches}
use dbsc_python.Server.Registration.{build_registration_header_response}
use dbsc_python.Server.Registration.Offer.{IsOffered, build_registration_header_response-IsOffered}
use dbsc_python.Server.Instructions.{instructions_json}
use dbsc_python.Json.Dumps.{dumps}
use dbsc_python.Tests.Fixtures.{program, config, ctx}

-- The configuration of these tests with one refresh initiator, as the caller wrote it.
abbrev given_config : Config
given_config = record config {
  allowed_refresh_initiators = codes " *.example.com:8443 " ∷ codes " " ∷ [];
}

abbrev built_config : Config
built_config = record config { allowed_refresh_initiators = codes "*.example.com:8443" ∷ [] }

-- `repr` is needed only for a message.
abbrev bare_repr : Text → Text
bare_repr s = s

post_init-IsAccepted_example : IsAccepted built_config
unfolding program Config.post_init check_fields is_cookie_name is_path path_char alphanumeric
    is_same_site host_patterns
post_init-IsAccepted_example = post_init-IsAccepted bare_repr given_config built_config refl

abbrev given_request : RequestContext
given_request = record ctx {
  headers = (codes "Host", codes "a") ∷ (codes "X-Id", codes "1") ∷ (codes "x-id", codes "2") ∷ [];
}

abbrev built_request : RequestContext
built_request = record ctx { headers = (codes "host", codes "a") ∷ (codes "x-id", codes "2") ∷ [] }

post_init-header_example :
    Matches origin (codes "https://example.com")
    × (header built_request (codes "X-ID") ≡ last_named (codes "X-ID") given_request.headers)
unfolding program Request.post_init
post_init-header_example =
    post_init-header bare_repr given_request built_request (codes "X-ID") refl

built-IsAccepted : IsAccepted built_config
unfolding program Config.post_init check_fields is_cookie_name is_path path_char alphanumeric
    is_same_site host_patterns
built-IsAccepted = post_init-IsAccepted bare_repr given_config built_config refl

build_registration_header_response-IsOffered_example :
    Ensures
      (λ r h.
        (response : DbscResponse) × (r ≡ ok response) × IsOffered built_config ctx [] response h)
      (build_registration_header_response built_config ctx)
      []
unfolding program
build_registration_header_response-IsOffered_example =
    build_registration_header_response-IsOffered built_config ctx built-IsAccepted []

pattern_runs :
    (is_origin (codes "https://a.b:443") ≡ true)
    × (is_origin (codes "http://a.b") ≡ false)
    × (is_origin (codes "http://[::1]:80") ≡ true)
    × (is_origin (codes "https://a-.b") ≡ false)
    × (is_host_pattern (codes "*.a.b") ≡ true)
    × (is_host_pattern (codes "a..b") ≡ false)
    × (is_path (codes "/dbsc/x") ≡ true)
    × (is_path (codes "//x") ≡ false)
unfolding program is_path path_char alphanumeric is_origin is_host_pattern
pattern_runs = (refl, refl, refl, refl, refl, refl, refl, refl)

instructions_run :
    instructions_json built_config (codes "id") ctx
    ≡ codes "{\"session_identifier\":\"id\",\"refresh_url\":\"/dbsc/refresh\","
      ++ codes "\"scope\":{\"origin\":\"https://example.com\",\"include_site\":false},"
      ++ codes "\"credentials\":[{\"type\":\"cookie\",\"name\":\"__Host-dbsc\","
      ++ codes "\"attributes\":\"Path=/; Secure; HttpOnly; SameSite=Lax\"}],"
      ++ codes "\"allowed_refresh_initiators\":[\"*.example.com:8443\"]}"
unfolding program instructions_json dumps
instructions_run = refl
