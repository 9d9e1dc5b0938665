-- ===== src/Request.antt =====
-- src/dbsc/request.py: the view of an inbound request.
pub mod Headers
use dbsc_python.Base.{
  ℕ, ◌+◌, ◌&&◌, Option, none, some, List, [], ◌∷◌, ◌++◌, map, leb, if◌then◌else◌,
}
use dbsc_python.Base.Text.{Text, codes, text_eq}
use dbsc_python.Exceptions.{Result, ok, ◌>>=◌, ◌>>◌}
use dbsc_python.Validate.{require}
use dbsc_python.Validate.Patterns.{is_origin}
use dbsc_python.Validate.Hosts.{host_patterns}
use dbsc_python.Scope.{ScopeRule}

pub record RequestContext : Type 0 where
  pub session_id : Text
  pub user_id : Text
  pub origin_host_url : Text
  pub headers : List (Text × Text)
  pub cookies : List (Text × Text)
  pub allowed_refresh_initiators : Option (List Text)
  pub scope_specification : Option (List ScopeRule)

-- mapping.get(name)
unfoldable pub lookup : Text → List (Text × Text) → Option Text
lookup name [] = none
lookup name ((k, v) ∷ rest) = if text_eq k name then some v else lookup name rest

-- One letter of `str.lower()`. Header names are ASCII tokens (RFC 9110, 5.1).
unfoldable pub lower_char : ℕ → ℕ
lower_char c = if leb b'A' c && leb c b'Z' then c + 32 else c

unfoldable pub lower : Text → Text
unfolding lower_char
lower s = map lower_char s

unfoldable pub header : RequestContext → Text → Option Text
unfolding lookup lower
header ctx name = lookup (lower name) ctx.headers

unfoldable pub cookie : RequestContext → Text → Option Text
unfolding lookup
cookie ctx name = lookup name ctx.cookies

-- mapping[name] = value: in the place of an earlier value, or else at the end
unfoldable pub insert : Text → Text → List (Text × Text) → List (Text × Text)
unfolding text_eq
insert name value [] = (name, value) ∷ []
insert name value ((k, v) ∷ rest) =
    if text_eq k name then (k, value) ∷ rest else (k, v) ∷ insert name value rest

-- The comprehension `{name.lower(): value for name, value in headers.items()}`, on what it has
-- built so far.
unfoldable pub normalise : List (Text × Text) → List (Text × Text) → List (Text × Text)
unfolding insert lower
normalise built [] = built
normalise built ((name, value) ∷ rest) = normalise (insert (lower name) value built) rest

-- The hosts of a per-request override.
unfoldable pub override_hosts : (Text → Text) → Option (List Text) → Result (Option (List Text))
unfolding host_patterns
override_hosts repr none = ok none
override_hosts repr (some values) = do
  hosts ← host_patterns repr values (codes "allowed_refresh_initiators")
  ok (some hosts)

-- `__post_init__`: the request with trimmed hosts and lower-case header names, or `ValueError`.
unfoldable pub post_init : (Text → Text) → RequestContext → Result RequestContext
unfolding require is_origin override_hosts normalise
post_init repr ctx = do
  require (is_origin ctx.origin_host_url) (
      codes "origin_host_url must be an https origin (scheme://host[:port], no path); "
      ++ codes "plain http is only allowed on loopback.")
  hosts ← override_hosts repr ctx.allowed_refresh_initiators
  ok (record ctx { allowed_refresh_initiators = hosts; headers = normalise [] ctx.headers })
