-- ===== src/Request/Headers.antt =====
-- Which of the given headers a lookup finds.
use dbsc_python.Base.{
  ◌≡◌, refl, ap, ◌∙◌, subst, Bool, true, false, Option, none, some, List, [], ◌∷◌, ◌++◌, arith,
  if◌then◌else◌,
}
use dbsc_python.Base.Text.{Text, text_eq, text_eq_iff, codes}
use dbsc_python.Exceptions.{ok, ok_inj, >>=-eq-ok, ◌>>=◌}
use dbsc_python.Regex.{Matches}
use dbsc_python.Regex.Sound.{fullmatch_iff}
use dbsc_python.Validate.{require-then}
use dbsc_python.Validate.Patterns.{origin, is_origin}
use dbsc_python.Request.{
  RequestContext, lookup, lower, header, insert, normalise, override_hosts, post_init,
}

abbrev pub or_else : Option Text → Option Text → Option Text
or_else (some v) other = some v
or_else none other = other

-- The last of the headers whose name is `name` but for the case of its letters.
unfoldable pub last_named : Text → List (Text × Text) → Option Text
unfolding lower text_eq
last_named name [] = none
last_named name ((k, v) ∷ rest) =
    or_else (last_named name rest) (if text_eq (lower k) (lower name) then some v else none)

lookup-insert :
    (name k v : Text) (built : List (Text × Text))
    → lookup name (insert k v built) ≡ (if text_eq k name then some v else lookup name built)
unfolding lookup insert
lookup-insert name k v [] = refl
lookup-insert name k v ((j, w) ∷ rest) =
    ground
      (arith, lookup-insert name k v rest, text_eq_iff j k, text_eq_iff k name, text_eq_iff j name)

or_else-if :
    (found : Option Text) (b : Bool) (v : Text) (other : Option Text)
    → or_else found (if b then some v else other)
      ≡ or_else (or_else found (if b then some v else none)) other
or_else-if none true v other = refl
or_else-if none false v other = refl
or_else-if (some w) b v other = refl

lookup-normalise :
    (name : Text) (built given : List (Text × Text))
    → lookup (lower name) (normalise built given)
      ≡ or_else (last_named name given) (lookup (lower name) built)
unfolding normalise last_named
lookup-normalise name built [] = refl
lookup-normalise name built ((k, v) ∷ rest) =
    lookup-normalise name (insert (lower k) v built) rest
    ∙ ap (or_else (last_named name rest)) (lookup-insert (lower name) (lower k) v built)
    ∙ or_else-if (last_named name rest) (text_eq (lower k) (lower name)) v
        (lookup (lower name) built)

or_else-none : (found : Option Text) → or_else found none ≡ found
or_else-none none = refl
or_else-none (some v) = refl

abbrev with_headers : RequestContext → Option (List Text) → RequestContext
with_headers given hosts = record given {
  allowed_refresh_initiators = hosts;
  headers = normalise [] given.headers;
}

-- The origin of a request that the constructor returns matches the pattern for origins, and
-- `header` finds the last of the given headers whose name differs only in the case of its letters.
pub post_init-header :
    (repr : Text → Text) (given ctx : RequestContext) (name : Text)
    → post_init repr given ≡ ok ctx
    → Matches origin ctx.origin_host_url × (header ctx name ≡ last_named name given.headers)
unfolding post_init header is_origin
post_init-header repr given ctx name h =
    let (secure, built) =
      require-then (is_origin given.origin_host_url) message
        (override_hosts repr given.allowed_refresh_initiators >>= λ hosts.
          ok (with_headers given hosts))
        h in
    let (hosts, e, trimmed) =
      >>=-eq-ok (λ hosts. ok (with_headers given hosts))
        (override_hosts repr given.allowed_refresh_initiators) built in
    subst (λ c. Matches origin c.origin_host_url × (header c name ≡ last_named name given.headers))
      (ok_inj e)
      (
        (fullmatch_iff origin given.origin_host_url).0 secure,
        lookup-normalise name [] given.headers ∙ or_else-none (last_named name given.headers),
      )
  where
    message : Text
    message =
        codes "origin_host_url must be an https origin (scheme://host[:port], no path); "
        ++ codes "plain http is only allowed on loopback."
