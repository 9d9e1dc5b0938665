-- ===== src/Json/Reader.antt =====
-- `json.loads` of a text, as `loads_object` of src/dbsc/_json.py calls it.
pub mod Lengths
pub mod Enough
pub mod Distinct
pub mod Unique
use dbsc_python.Base.{
  ℕ, zero, suc, ◌+◌, ◌*◌, Bool, true, false, ◌||◌, Option, none, some, [], ◌∷◌, ◌==◌, length,
  if◌then◌else◌,
}
use dbsc_python.Base.Text.{Text, codes, text_eq}
use dbsc_python.Json.{
  Json, Items, Fields, null, bool, float, str, arr, obj, nil, cons, end, field, has_member,
  is_unique,
}
use dbsc_python.Json.Scanned.{Scanned, got, malformed, out_of_fuel, ◌>>=◌}
use dbsc_python.Json.Strings.{read_string, plain}
use dbsc_python.Json.Numbers.{read_number}

-- The white space of JSON.
abbrev pub is_blank : ℕ → Bool
is_blank c = c == 32 || c == 9 || c == 10 || c == 13

unfoldable pub skip_blank : Text → Text
skip_blank [] = []
skip_blank (c ∷ s) = let rest = skip_blank s in if is_blank c then rest else c ∷ s

-- What is left of a text behind a prefix.
unfoldable pub behind : Text → Text → Option Text
behind [] s = some s
behind (p ∷ ps) [] = none
behind (p ∷ ps) (c ∷ s) = let rest = behind ps s in if p == c then rest else none

-- The literals, `NaN` and the infinities among them, and numbers.
unfoldable pub read_scalar : Text → Scanned (Json × Text)
unfolding behind read_number codes
read_scalar s = elim (behind (codes "null") s) [
  | some rest ↦ got (null, rest)
  | none ↦ elim (behind (codes "true") s) [
    | some rest ↦ got (bool true, rest)
    | none ↦ elim (behind (codes "false") s) [
      | some rest ↦ got (bool false, rest)
      | none ↦ elim (behind (codes "NaN") s) [
        | some rest ↦ got (float (codes "NaN"), rest)
        | none ↦ elim (behind (codes "Infinity") s) [
          | some rest ↦ got (float (codes "Infinity"), rest)
          | none ↦ elim (behind (codes "-Infinity") s) [
            | some rest ↦ got (float (codes "-Infinity"), rest)
            | none ↦ read_number s
          ]
        ]
      ]
    ]
  ]
]

-- How a value starts.
pub data Start : Type 0 where
  at_string at_array at_object : Text → Start
  at_scalar : Start

unfoldable pub start : Text → Start
start [] = at_scalar
start (c ∷ s) =
    if c == 34
    then at_string s
    else if c == b'['
    then at_array s
    else if c == b'{'
    then at_object s
    else at_scalar

-- What stands behind a member: the closing bracket, a comma, or anything else.
pub data Separator : Type 0 where
  closing comma : Text → Separator
  other : Separator

unfoldable pub separator : ℕ → Text → Separator
separator bracket [] = other
separator bracket (c ∷ s) = if c == bracket then closing s else if c == b',' then comma s else other

unfoldable pub expect : ℕ → Text → Scanned Text
expect d [] = malformed
expect d (c ∷ s) = if c == d then got s else malformed

-- `_unique_members`, the `object_pairs_hook`.
unfoldable pub unique_members : Fields → Scanned Json
unfolding is_unique
unique_members members = if is_unique members then got (obj members) else malformed

-- `depth` is the nesting that the interpreter has room for: past it, it raises `RecursionError`.
-- What a call leaves of the text is not a structural part of it, so each call costs fuel.
unfoldable mutual
  unfolding skip_blank start separator expect read_string read_scalar unique_members

  pub read_value : ℕ → ℕ → Text → Scanned (Json × Text)
  read_value zero depth s = out_of_fuel
  read_value (suc f) depth s = elim (start s) [
    | at_string t ↦ do (x, rest) ← read_string plain t; got (str x, rest)
    | at_array t ↦ elim depth [
      | zero ↦ malformed
      | suc depth ↦ do (xs, rest) ← read_array f depth (skip_blank t); got (arr xs, rest)
    ]
    | at_object t ↦ elim depth [
      | zero ↦ malformed
      | suc depth ↦ do
        (members, rest) ← read_object f depth (skip_blank t)
        value ← unique_members members
        got (value, rest)
    ]
    | at_scalar ↦ read_scalar s
  ]

  -- Behind `[` and white space.
  pub read_array : ℕ → ℕ → Text → Scanned (Items × Text)
  read_array zero depth s = out_of_fuel
  read_array (suc f) depth s = elim (separator b']' s) [
    | closing rest ↦ got (nil, rest)
    | _ ↦ do
      (x, rest) ← read_value f depth s
      (xs, rest) ← read_items f depth (skip_blank rest)
      got (cons x xs, rest)
  ]

  -- Behind a value and white space.
  pub read_items : ℕ → ℕ → Text → Scanned (Items × Text)
  read_items zero depth s = out_of_fuel
  read_items (suc f) depth s = elim (separator b']' s) [
    | closing rest ↦ got (nil, rest)
    | comma rest ↦ do
      (x, rest) ← read_value f depth (skip_blank rest)
      (xs, rest) ← read_items f depth (skip_blank rest)
      got (cons x xs, rest)
    | other ↦ malformed
  ]

  -- A name, a colon and a value.
  pub read_member : ℕ → ℕ → Text → Scanned ((Text × Json) × Text)
  read_member zero depth s = out_of_fuel
  read_member (suc f) depth s = do
    t ← expect 34 s
    (name, rest) ← read_string plain t
    rest ← expect b':' (skip_blank rest)
    (x, rest) ← read_value f depth (skip_blank rest)
    got ((name, x), rest)

  pub read_object : ℕ → ℕ → Text → Scanned (Fields × Text)
  read_object zero depth s = out_of_fuel
  read_object (suc f) depth s = elim (separator b'}' s) [
    | closing rest ↦ got (end, rest)
    | _ ↦ do
      ((name, x), rest) ← read_member f depth s
      (members, rest) ← read_fields f depth (skip_blank rest)
      got (field name x members, rest)
  ]

  pub read_fields : ℕ → ℕ → Text → Scanned (Fields × Text)
  read_fields zero depth s = out_of_fuel
  read_fields (suc f) depth s = elim (separator b'}' s) [
    | closing rest ↦ got (end, rest)
    | comma rest ↦ do
      ((name, x), rest) ← read_member f depth (skip_blank rest)
      (members, rest) ← read_fields f depth (skip_blank rest)
      got (field name x members, rest)
    | other ↦ malformed
  ]

abbrev pub at_end : Json → Text → Scanned Json
at_end x [] = got x
at_end x (c ∷ s) = malformed

-- `json.loads`, which refuses a text with a byte order mark.
unfoldable pub loads : ℕ → Text → Scanned Json
unfolding read_value skip_blank
loads depth s =
    read_value (2 * length s + 1) depth (skip_blank s) >>= λ (x, rest). at_end x (skip_blank rest)

abbrev pub object_only : Scanned Json → Option Fields
object_only (got (obj members)) = some members
object_only _ = none

-- `loads_object` of a text
unfoldable pub loads_object : ℕ → Text → Option Fields
unfolding loads
loads_object depth s = object_only (loads depth s)
