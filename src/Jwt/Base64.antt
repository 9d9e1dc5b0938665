-- ===== src/Jwt/Base64.antt =====
-- Base64 in src/dbsc/jwt.py: `_b64url_decode`, over `base64.b64decode` with `validate=True`.
pub mod Ascii
pub mod Encoded
use dbsc_python.Base.{
  ℕ, zero, suc, ◌+◌, ◌-◌, ◌*◌, ◌/◌, ◌%◌, ◌&&◌, Option, none, some, List, [], ◌∷◌, ◌++◌, map, length,
  ltb, leb, ◌==◌, if◌then◌else◌,
}
use dbsc_python.Base.Text.{Text}

-- The value of a character of the standard alphabet.
unfoldable pub sextet : ℕ → Option ℕ
sextet c =
    if leb b'A' c && leb c b'Z'
    then some (c - b'A')
    else if leb b'a' c && leb c b'z'
    then some (c - b'a' + 26)
    else if leb b'0' c && leb c b'9'
    then some (c - b'0' + 52)
    else if c == b'+'
    then some 62
    else if c == b'/'
    then some 63
    else none

-- How much of a group of four has been read, with the bits that are left over.
pub data Quad : Type 0 where
  aligned : Quad
  one two three : ℕ → Quad

abbrev pub emitted : Quad → ℕ → List ℕ
emitted aligned v = []
emitted (one left) v = (left * 4 + v / 16) ∷ []
emitted (two left) v = (left * 16 + v / 4) ∷ []
emitted (three left) v = (left * 64 + v) ∷ []

abbrev pub next_quad : Quad → ℕ → Quad
next_quad aligned v = one v
next_quad (one left) v = two (v % 16)
next_quad (two left) v = three (v % 4)
next_quad (three left) v = aligned

-- The padding completes the group, and ends the text.
unfoldable pub padded_end : Quad → Text → Option (List ℕ)
padded_end (two left) (c ∷ []) = if c == b'=' then some [] else none
padded_end (three left) [] = some []
padded_end quad s = none

abbrev pub prefixed : List ℕ → Option (List ℕ) → Option (List ℕ)
prefixed bs none = none
prefixed bs (some rest) = some (bs ++ rest)

-- `binascii.a2b_base64` in strict mode; `none` is `ValueError`.
unfoldable pub b64decode : Quad → Text → Option (List ℕ)
unfolding sextet padded_end
b64decode aligned [] = some []
b64decode quad [] = none
b64decode quad (c ∷ s) =
    let rest : Option (List ℕ) = elim (sextet c) [
      | none ↦ none
      | some v ↦ prefixed (emitted quad v) (b64decode (next_quad quad v) s)
    ] in
    if c == b'=' then padded_end quad s else rest

-- `_URLSAFE_TO_STD`
unfoldable pub url_safe_to_std : ℕ → ℕ
url_safe_to_std c = if c == b'-' then b'+' else if c == b'_' then b'/' else c

-- "=" * (-n % 4)
unfoldable pub padding : ℕ → Text
padding n =
    if n % 4 == 1
    then b'=' ∷ b'=' ∷ b'=' ∷ []
    else if n % 4 == 2
    then b'=' ∷ b'=' ∷ []
    else if n % 4 == 3
    then b'=' ∷ []
    else []

abbrev pub or_empty : Option (List ℕ) → List ℕ
or_empty (some bs) = bs
or_empty none = []

-- `_b64url_decode`
unfoldable pub b64url_decode : Text → List ℕ
unfolding b64decode url_safe_to_std padding
b64url_decode s = or_empty (b64decode aligned (map url_safe_to_std s ++ padding (length s)))
