-- ===== src/Json/RoundTrip/Plain.antt =====
-- The values that are read back as they were, and how printed values begin.
use dbsc_python.Base.{
  ℕ, suc, ◌≡◌, refl, ◌∙◌, Bool, true, false, not, ◌&&◌, ◌||◌, none, some, [], ◌∷◌, ◌++◌, leb, ◌==◌,
  all, arith, &&-eq-true, if◌then◌else◌,
}
use dbsc_python.Base.Int.{ℤ, pos, negsuc}
use dbsc_python.Base.Text.{Text, codes, is_empty}
use dbsc_python.Json.{
  Json, Items, Fields, null, bool, int, float, str, arr, obj, nil, cons, end, field, is_unique,
}
use dbsc_python.Json.Dumps.{dumps, integer, decimal}
use dbsc_python.Json.Scanned.{Scanned, got}
use dbsc_python.Json.Numbers.{is_digit, read_number}
use dbsc_python.Json.Reader.{
  is_blank, skip_blank, behind, read_scalar, start, at_scalar, separator, other,
}
use dbsc_python.Json.RoundTrip.Strings.{is_scalar}
use dbsc_python.Json.RoundTrip.Numbers.{
  is_short, size, stops, read_number-integer, decimal-nonempty, decimal-digits,
}

-- No float, no surrogate, no integer past the limit of `int()`, and no name twice in an object.
unfoldable mutual
  pub is_plain : Json → Bool
  is_plain null = true
  is_plain (bool b) = true
  is_plain (int n) = is_short (size n)
  is_plain (float s) = false
  is_plain (str s) = all is_scalar s
  is_plain (arr xs) = plain_items xs
  is_plain (obj fs) = is_unique fs && plain_fields fs

  pub plain_items : Items → Bool
  plain_items nil = true
  plain_items (cons x xs) = is_plain x && plain_items xs

  pub plain_fields : Fields → Bool
  plain_fields end = true
  plain_fields (field k v fs) = all is_scalar k && (is_plain v && plain_fields fs)

abbrev pub max : ℕ → ℕ → ℕ
max a b = if leb a b then b else a

-- How deep arrays and objects are nested.
unfoldable mutual
  pub nesting : Json → ℕ
  nesting (arr xs) = suc (nesting_items xs)
  nesting (obj fs) = suc (nesting_fields fs)
  nesting _ = 0

  pub nesting_items : Items → ℕ
  nesting_items nil = 0
  nesting_items (cons x xs) = max (nesting x) (nesting_items xs)

  pub nesting_fields : Fields → ℕ
  nesting_fields end = 0
  nesting_fields (field k v fs) = max (nesting v) (nesting_fields fs)

-- The texts that start with a character of the class.
pub data Begins (p : ℕ → Bool) : Text → Type 0 where
  begins : (c : ℕ) (t : Text) → p c ≡ true → Begins p (c ∷ t)

abbrev pub number_char : ℕ → Bool
number_char c = is_digit c || c == b'-'

-- A character that starts a value: no white space, no separator and no closing bracket.
abbrev pub value_char : ℕ → Bool
value_char c = not (is_blank c || c == b',' || c == b']' || c == b'}')

Begins-imp :
    {p q : ℕ → Bool} {s : Text} → Begins p s → ((c : ℕ) → p c ≡ true → q c ≡ true) → Begins q s
Begins-imp (begins c t h) k = begins c t (k c h)

pub Begins-append : {p : ℕ → Bool} {s : Text} (t : Text) → Begins p s → Begins p (s ++ t)
Begins-append t (begins c s h) = begins c (s ++ t) h

digits-Begins : (ds : Text) → is_empty ds ≡ false → all is_digit ds ≡ true → Begins is_digit ds
digits-Begins [] e h = absurd (cc)
digits-Begins (d ∷ ds) e h = begins d ds (&&-eq-true (is_digit d) (all is_digit ds) h).0

decimal-Begins : (n : ℕ) → Begins is_digit (decimal n)
decimal-Begins n = digits-Begins (decimal n) (decimal-nonempty n) (decimal-digits n)

integer-Begins : (n : ℤ) → Begins number_char (integer n)
unfolding integer
integer-Begins (pos n) = Begins-imp (decimal-Begins n) (λ c h. ground arith)
integer-Begins (negsuc n) = begins b'-' (decimal (suc n)) refl

pub dumps-Begins : (v : Json) → is_plain v ≡ true → Begins value_char (dumps v)
unfolding dumps is_plain
dumps-Begins null h = begins _ _ refl
dumps-Begins (bool true) h = begins _ _ refl
dumps-Begins (bool false) h = begins _ _ refl
dumps-Begins (int n) h = Begins-imp (integer-Begins n) (λ c k. ground arith)
dumps-Begins (float s) h = absurd (cc)
dumps-Begins (str s) h = begins _ _ refl
dumps-Begins (arr nil) h = begins _ _ refl
dumps-Begins (arr (cons x xs)) h = begins _ _ refl
dumps-Begins (obj end) h = begins _ _ refl
dumps-Begins (obj (field k v fs)) h = begins _ _ refl

pub Begins-skip_blank : {s : Text} → Begins value_char s → skip_blank s ≡ s
unfolding skip_blank
Begins-skip_blank (begins c t h) = ground arith

pub Begins-separator : {s : Text} → Begins value_char s → separator b']' s ≡ other
unfolding separator
Begins-separator (begins c t h) = ground arith

number-start : {s : Text} → Begins number_char s → start s ≡ at_scalar
unfolding start
number-start (begins c t h) = ground arith

behind-differs : (p c : ℕ) (ps s : Text) → (p == c) ≡ false → behind (p ∷ ps) (c ∷ s) ≡ none
unfolding behind
behind-differs p c ps s h = rw h

not_literal :
    (ps s : Text) (x : Json) (next : Scanned (Json × Text))
    → behind ps s ≡ none
    → (elim (behind ps s) [ some rest ↦ got (x, rest) | none ↦ next ]) ≡ next
not_literal ps s x next e = rw e refl

digit-scalar : {s : Text} → Begins is_digit s → read_scalar s ≡ read_number s
unfolding read_scalar codes
digit-scalar (begins c t h) =
    not_literal (codes "null") (c ∷ t) _ _ (behind-differs b'n' c (codes "ull") t (ground arith))
    ∙ not_literal (codes "true") (c ∷ t) _ _ (behind-differs b't' c (codes "rue") t (ground arith))
    ∙ not_literal (codes "false") (c ∷ t) _ _
        (behind-differs b'f' c (codes "alse") t (ground arith))
    ∙ not_literal (codes "NaN") (c ∷ t) _ _ (behind-differs b'N' c (codes "aN") t (ground arith))
    ∙ not_literal (codes "Infinity") (c ∷ t) _ _
        (behind-differs b'I' c (codes "nfinity") t (ground arith))
    ∙ not_literal (codes "-Infinity") (c ∷ t) _ _
        (behind-differs b'-' c (codes "Infinity") t (ground arith))

minus-scalar : {s : Text} → Begins is_digit s → read_scalar (b'-' ∷ s) ≡ read_number (b'-' ∷ s)
unfolding read_scalar codes behind
minus-scalar (begins c t h) =
    not_literal (codes "-Infinity") (b'-' ∷ c ∷ t) _ _
      (behind-differs b'I' c (codes "nfinity") t (ground arith))

scalar_integer :
    (n : ℤ) (rest : Text) → read_scalar (integer n ++ rest) ≡ read_number (integer n ++ rest)
unfolding integer
scalar_integer (pos n) rest = digit-scalar (Begins-append rest (decimal-Begins n))
scalar_integer (negsuc n) rest = minus-scalar (Begins-append rest (decimal-Begins (suc n)))

pub start-integer : (n : ℤ) (rest : Text) → start (integer n ++ rest) ≡ at_scalar
start-integer n rest = number-start (Begins-append rest (integer-Begins n))

pub read_scalar-integer :
    (n : ℤ) (rest : Text)
    → is_short (size n) ≡ true
    → stops rest ≡ true
    → read_scalar (integer n ++ rest) ≡ got (int n, rest)
read_scalar-integer n rest h k = scalar_integer n rest ∙ read_number-integer n rest h k
