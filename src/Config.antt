-- ===== src/Config.antt =====
-- src/dbsc/config.py: the static configuration.
pub mod Accepted
use dbsc_python.Base.{◌&&◌, List, ◌++◌}
use dbsc_python.Base.Int.{ℤ, pos, ltb_ℤ, leb_ℤ}
use dbsc_python.Base.Text.{Text, codes}
use dbsc_python.Exceptions.{Result, ok, ◌>>=◌, ◌>>◌}
use dbsc_python.Validate.{require}
use dbsc_python.Validate.Patterns.{is_cookie_name, is_path, is_same_site}
use dbsc_python.Validate.Hosts.{host_patterns}
use dbsc_python.Scope.{ScopeRule}

pub record Config : Type 0 where
  pub cookie_name : Text
  pub cookie_max_age_seconds : ℤ
  pub register_path : Text
  pub refresh_path : Text
  pub challenge_ttl_seconds : ℤ
  pub registration_grace_seconds : ℤ
  pub cookie_same_site : Text
  pub allowed_refresh_initiators : List Text
  pub scope_specification : List ScopeRule

abbrev path_message : Text
path_message = codes " must be an absolute path of URL path characters (no '//' prefix)."

abbrev pub max_cookie_max_age_seconds : ℤ
max_cookie_max_age_seconds = pos 3600

abbrev pub max_challenge_ttl_seconds : ℤ
max_challenge_ttl_seconds = pos 86400

abbrev pub max_registration_grace_seconds : ℤ
max_registration_grace_seconds = pos 60

-- The checks of `__post_init__` on single fields.
unfoldable pub check_fields : Config → Result (Unit {0})
unfolding require is_cookie_name is_path is_same_site
check_fields config = do
  require (is_cookie_name config.cookie_name)
      (codes "cookie_name must be a cookie-name token with the __Host- prefix.")
  require (is_path config.register_path) (codes "register_path" ++ path_message)
  require (is_path config.refresh_path) (codes "refresh_path" ++ path_message)
  require (is_same_site config.cookie_same_site)
      (codes "cookie_same_site must be one of ['Lax', 'None', 'Strict'].")
  require
      (leb_ℤ (pos 1) config.cookie_max_age_seconds
        && leb_ℤ config.cookie_max_age_seconds max_cookie_max_age_seconds)
      (codes "cookie_max_age_seconds must be 1-3600.")
  require (leb_ℤ config.challenge_ttl_seconds max_challenge_ttl_seconds)
      (codes "challenge_ttl_seconds must be at most 86400.")
  require (ltb_ℤ config.cookie_max_age_seconds config.challenge_ttl_seconds) (
      codes "challenge_ttl_seconds must exceed cookie_max_age_seconds, else the browser's cached "
      ++ codes "challenge expires before it can use it just before cookie expiry.")
  require
      (leb_ℤ (pos 0) config.registration_grace_seconds
        && leb_ℤ config.registration_grace_seconds max_registration_grace_seconds)
      (codes "registration_grace_seconds must be 0-60.")

-- `__post_init__`: the configuration with its hosts trimmed, or `ValueError`. `repr` prints a text
-- in a message.
unfoldable pub post_init : (Text → Text) → Config → Result Config
unfolding check_fields host_patterns
post_init repr config = do
  check_fields config
  hosts ← host_patterns repr config.allowed_refresh_initiators (codes "allowed_refresh_initiators")
  ok (record config { allowed_refresh_initiators = hosts })
