-- ===== src/Encoding.antt =====
-- `str.encode()` in UTF-8, and `constant_time_equals` of src/dbsc/_json.py, which compares the
-- encoded texts.
pub mod Injective
use dbsc_python.Base.{
  ℕ, ◌+◌, ◌/◌, ◌%◌, Bool, ◌&&◌, Option, none, some, List, [], ◌∷◌, ◌++◌, ltb, leb, if◌then◌else◌,
}
use dbsc_python.Base.Text.{Text, codes, text_eq}
use dbsc_python.Exceptions.{Result, ok, error, unicode_encode_error, ◌>>=◌}

-- The bytes of one code point; a lone surrogate has none.
unfoldable pub encode_char : ℕ → Option (List ℕ)
encode_char c =
    if ltb c 128
    then some (c ∷ [])
    else if ltb c 2048
    then some ((192 + c / 64) ∷ (128 + c % 64) ∷ [])
    else if leb 55296 c && ltb c 57344
    then none
    else if ltb c 65536
    then some ((224 + c / 4096) ∷ (128 + c / 64 % 64) ∷ (128 + c % 64) ∷ [])
    else some
        ((240 + c / 262144) ∷ (128 + c / 4096 % 64) ∷ (128 + c / 64 % 64) ∷ (128 + c % 64) ∷ [])

abbrev pub prepend : Option (List ℕ) → Option (List ℕ) → Option (List ℕ)
prepend (some bs) (some rest) = some (bs ++ rest)
prepend (some bs) none = none
prepend none rest = none

unfoldable pub encode? : Text → Option (List ℕ)
unfolding encode_char
encode? [] = some []
encode? (c ∷ s) = prepend (encode_char c) (encode? s)

abbrev encoded : Option (List ℕ) → Result (List ℕ)
encoded (some bs) = ok bs
encoded none = error unicode_encode_error (codes "surrogates not allowed")

-- s.encode()
unfoldable pub encode : Text → Result (List ℕ)
unfolding encode?
encode s = encoded (encode? s)

-- The test itself is `hmac.compare_digest`, equality of the bytes.
unfoldable pub constant_time_equals : Text → Text → Result Bool
unfolding encode
constant_time_equals known presented = do a ← encode known; b ← encode presented; ok (text_eq a b)

abbrev pub is_ascii : ℕ → Bool
is_ascii c = ltb c 128
