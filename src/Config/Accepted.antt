-- ===== src/Config/Accepted.antt =====
-- What a configuration that the constructor accepts satisfies.
use dbsc_python.Base.{◌≡◌, subst, true, List, [], ◌∷◌, arith}
use dbsc_python.Base.Int.{pos, ◌≤ℤ◌, ltb_ℤ, leb_ℤ→≤ℤ}
use dbsc_python.Base.Text.{Text, codes}
use dbsc_python.Exceptions.{Result, ok, ok_inj, >>=-eq-ok, ◌>>=◌}
use dbsc_python.Regex.{Matches}
use dbsc_python.Regex.Sound.{fullmatch_iff}
use dbsc_python.Validate.{require-then, require}
use dbsc_python.Validate.Patterns.{
  cookie_name_pattern, host_pattern, is_cookie_name, is_path, is_same_site, is_host_pattern,
}
use dbsc_python.Validate.Hosts.{host_patterns, check_hosts, trimmed}
use dbsc_python.Config.{
  Config, post_init, check_fields, max_cookie_max_age_seconds, max_challenge_ttl_seconds,
  max_registration_grace_seconds,
}

-- Every one of the hosts matches the pattern.
pub data AllHosts : List Text → Type 0 where
  no_hosts : AllHosts []
  more_hosts :
      (h : Text) (hs : List Text) → Matches host_pattern h → AllHosts hs → AllHosts (h ∷ hs)

pub record IsAccepted (config : Config) : Type 0 where
  pub cookie_name : Matches cookie_name_pattern config.cookie_name
  pub register_path : is_path config.register_path ≡ true
  pub refresh_path : is_path config.refresh_path ≡ true
  pub same_site : is_same_site config.cookie_same_site ≡ true
  pub some_age : pos 1 ≤ℤ config.cookie_max_age_seconds
  pub age_bound : config.cookie_max_age_seconds ≤ℤ max_cookie_max_age_seconds
  pub ttl_bound : config.challenge_ttl_seconds ≤ℤ max_challenge_ttl_seconds
  pub ttl_exceeds : ltb_ℤ config.cookie_max_age_seconds config.challenge_ttl_seconds ≡ true
  pub some_grace : pos 0 ≤ℤ config.registration_grace_seconds
  pub grace_bound : config.registration_grace_seconds ≤ℤ max_registration_grace_seconds
  pub hosts : AllHosts config.allowed_refresh_initiators

module _ (repr : Text → Text) where
  check_hosts-AllHosts :
      (hs : List Text) (what : Text) → check_hosts repr hs what ≡ ok tt → AllHosts hs
  unfolding check_hosts is_host_pattern
  check_hosts-AllHosts [] what h = no_hosts
  check_hosts-AllHosts (host ∷ hs) what h =
      let (here, later) = require-then (is_host_pattern host) _ (check_hosts repr hs what) h in
      more_hosts host hs ((fullmatch_iff host_pattern host).0 here)
        (check_hosts-AllHosts hs what later)

  host_patterns-AllHosts :
      (values hs : List Text) (what : Text) → host_patterns repr values what ≡ ok hs → AllHosts hs
  unfolding host_patterns
  host_patterns-AllHosts values hs what h =
      let (checked, kept, passed) =
        >>=-eq-ok (λ _. ok (trimmed values)) (check_hosts repr (trimmed values) what) h in
      subst AllHosts (ok_inj kept) (check_hosts-AllHosts (trimmed values) what passed)

  check_fields-IsAccepted :
      (config : Config) (hosts : List Text)
      → check_fields config ≡ ok tt
      → AllHosts hosts
      → IsAccepted (record config { allowed_refresh_initiators = hosts })
  unfolding check_fields is_cookie_name require
  check_fields-IsAccepted config hosts h all = record {
    cookie_name = (fullmatch_iff cookie_name_pattern config.cookie_name).0 (ground arith);
    register_path = ground arith;
    refresh_path = ground arith;
    same_site = ground arith;
    some_age = leb_ℤ→≤ℤ (pos 1) config.cookie_max_age_seconds (ground arith);
    age_bound = leb_ℤ→≤ℤ config.cookie_max_age_seconds max_cookie_max_age_seconds (ground arith);
    ttl_bound = leb_ℤ→≤ℤ config.challenge_ttl_seconds max_challenge_ttl_seconds (ground arith);
    ttl_exceeds = ground arith;
    some_grace = leb_ℤ→≤ℤ (pos 0) config.registration_grace_seconds (ground arith);
    grace_bound =
        leb_ℤ→≤ℤ config.registration_grace_seconds max_registration_grace_seconds (ground arith);
    hosts = all;
  }

  abbrev initiators : Text
  initiators = codes "allowed_refresh_initiators"

  abbrev with_hosts : Config → Result Config
  with_hosts given = host_patterns repr given.allowed_refresh_initiators initiators >>= λ hosts.
      ok (record given { allowed_refresh_initiators = hosts })

  -- A configuration that the constructor returns has a `__Host-` cookie name, absolute paths, a
  -- known SameSite value, ages and TTLs within their limits with the challenge outliving the
  -- cookie, and host patterns as its refresh initiators.
  pub post_init-IsAccepted :
      (given config : Config) → post_init repr given ≡ ok config → IsAccepted config
  unfolding post_init
  post_init-IsAccepted given config h =
      let (u, rest, checked) = >>=-eq-ok (λ _. with_hosts given) (check_fields given) h in
      let (hosts, built, patterns) =
        >>=-eq-ok (λ hosts. ok (record given { allowed_refresh_initiators = hosts }))
          (host_patterns repr given.allowed_refresh_initiators initiators) rest in
      subst IsAccepted (ok_inj built) (
        check_fields-IsAccepted given hosts checked
          (host_patterns-AllHosts given.allowed_refresh_initiators hosts initiators patterns))
