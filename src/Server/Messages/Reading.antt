-- ===== src/Server/Messages/Reading.antt =====
-- How a browser reads the header that `_challenge_headers` writes: a quoted string of RFC 8941,
-- and the quoted string of its `id` parameter.
use dbsc_python.Base.{
  ℕ, ◌==◌, ◌≡◌, refl, ap, ◌∙◌, true, false, Bool, ◌&&◌, Option, none, some, [], ◌∷◌, ◌++◌, arith,
  if◌then◌else◌,
}
use dbsc_python.Base.Text.{Text, codes, text_eq}
use dbsc_python.Validate.{is_sf_string_safe, sf_string_char}
use dbsc_python.Request.{lookup}
use dbsc_python.Server.Messages.{challenge_headers, header_challenge, quoted}

abbrev push : ℕ → Option (Text × Text) → Option (Text × Text)
push c none = none
push c (some (s, rest)) = some (c ∷ s, rest)

-- Up to the closing quote, and what follows it; a backslash escapes nothing that is sent here.
unfoldable pub read_quoted : Text → Option (Text × Text)
read_quoted [] = none
read_quoted (c ∷ s) = let rest = read_quoted s in if c == 34 then some ([], s) else push c rest

unfoldable pub after_prefix : Text → Text → Option Text
after_prefix [] s = some s
after_prefix (p ∷ ps) [] = none
after_prefix (p ∷ ps) (c ∷ s) = let rest = after_prefix ps s in if p == c then rest else none

abbrev found_id : Option (Text × Text) → Option Text
found_id none = none
found_id (some (identifier, rest)) = some identifier

unfoldable pub read_parameter : Option Text → Option Text
unfolding read_quoted
read_parameter none = none
read_parameter (some t) = found_id (read_quoted t)

-- The `id` parameter, empty where there is none.
unfoldable pub read_id : Text → Option Text
unfolding read_parameter after_prefix codes
read_id [] = some []
read_id (c ∷ s) = read_parameter (after_prefix (codes "; id=\"") (c ∷ s))

abbrev with_id : Text → Option Text → Option (Text × Text)
with_id challenge none = none
with_id challenge (some identifier) = some (challenge, identifier)

abbrev read_rest : Option (Text × Text) → Option (Text × Text)
read_rest none = none
read_rest (some (challenge, rest)) = with_id challenge (read_id rest)

-- The challenge and the session identifier of a header value.
unfoldable pub read_challenge : Text → Option (Text × Text)
unfolding read_quoted read_id
read_challenge [] = none
read_challenge (c ∷ s) = if c == 34 then read_rest (read_quoted s) else none

not-quote : (c : ℕ) → sf_string_char c ≡ true → (c == 34) ≡ false
unfolding sf_string_char
not-quote c h = ground arith

both_true : (a b : Bool) → (a && b) ≡ true → (a ≡ true) × (b ≡ true)
both_true a b h = ground arith

read_quoted-append :
    (s rest : Text) → is_sf_string_safe s ≡ true → read_quoted (s ++ 34 ∷ rest) ≡ some (s, rest)
unfolding read_quoted is_sf_string_safe
read_quoted-append [] rest h = refl
read_quoted-append (c ∷ s) rest h =
    let (here, later) = both_true (sf_string_char c) (is_sf_string_safe s) h in
    rw (not-quote c here, read_quoted-append s rest later)

append-quote : (s t rest : Text) → ((s ++ 34 ∷ []) ++ t) ++ rest ≡ s ++ 34 ∷ (t ++ rest)
append-quote [] t rest = refl
append-quote (c ∷ s) t rest = ap (λ u. c ∷ u) (append-quote s t rest)

read_id-named :
    (c : ℕ) (id challenge : Text)
    → is_sf_string_safe (c ∷ id) ≡ true
    → with_id challenge (read_id (codes "; id=" ++ quoted (c ∷ id))) ≡ some (challenge, c ∷ id)
unfolding read_id codes after_prefix
read_id-named c id challenge h =
    ap (λ o. with_id challenge (found_id o)) (read_quoted-append (c ∷ id) [] h)

-- A browser that reads the challenge header of a response gets back the challenge and the session
-- identifier that the server put in, if both are safe in a structured field.
pub read_challenge-challenge_headers :
    (session_identifier challenge : Text)
    → is_sf_string_safe session_identifier ≡ true
    → is_sf_string_safe challenge ≡ true
    → (value : Text) × (lookup header_challenge (challenge_headers session_identifier challenge)
        ≡ some value)
      × (read_challenge value ≡ some (challenge, session_identifier))
unfolding challenge_headers read_challenge lookup read_id codes text_eq
read_challenge-challenge_headers [] challenge h k =
    (quoted challenge, refl, rw (read_quoted-append challenge [] k) refl)
read_challenge-challenge_headers (c ∷ id) challenge h k = (
  (quoted challenge ++ codes "; id=") ++ quoted (c ∷ id),
  refl,
  ap read_rest (
        ap read_quoted (append-quote challenge (codes "; id=") (quoted (c ∷ id)))
        ∙ read_quoted-append challenge (codes "; id=" ++ quoted (c ∷ id)) k)
      ∙ read_id-named c id challenge h,
)
