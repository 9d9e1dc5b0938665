-- ===== src/Json/RoundTrip/Steps.antt =====
-- Printed items and members of objects, and what is read of them one by one.
use mathlib.Core.List.{append_assoc}
use dbsc_python.Base.{ℕ, suc, ◌≤◌, ◌≡◌, refl, ap, true, [], ◌∷◌, ◌++◌, arith, all}
use dbsc_python.Base.Text.{Text}
use dbsc_python.Json.{Json, Items, Fields, nil, cons, end, field}
use dbsc_python.Json.Dumps.{dumps, dumps_more, fields_more, escape_all}
use dbsc_python.Json.Scanned.{Scanned, got, ◌>>=◌}
use dbsc_python.Json.Reader.{
  skip_blank, read_value, read_array, read_items, read_member, read_fields, separator, other,
  expect,
}
use dbsc_python.Json.RoundTrip.Strings.{is_scalar, read_string-escape_all}
use dbsc_python.Json.RoundTrip.Numbers.{stops}
use dbsc_python.Json.RoundTrip.Plain.{
  is_plain, max, Begins-append, dumps-Begins, Begins-skip_blank, Begins-separator,
}

pub items-stop : (xs : Items) (rest : Text) → stops (dumps_more xs ++ rest) ≡ true
unfolding dumps_more
items-stop nil rest = refl
items-stop (cons x xs) rest = refl

pub fields-stop : (fs : Fields) (rest : Text) → stops (fields_more fs ++ rest) ≡ true
unfolding fields_more
fields-stop end rest = refl
fields-stop (field k v fs) rest = refl

items-skip : (xs : Items) (rest : Text) → skip_blank (dumps_more xs ++ rest) ≡ dumps_more xs ++ rest
unfolding dumps_more skip_blank
items-skip nil rest = refl
items-skip (cons x xs) rest = refl

fields-skip :
    (fs : Fields) (rest : Text) → skip_blank (fields_more fs ++ rest) ≡ fields_more fs ++ rest
unfolding fields_more skip_blank
fields-skip end rest = refl
fields-skip (field k v fs) rest = refl

value-skip :
    (v : Json) (rest : Text) → is_plain v ≡ true → skip_blank (dumps v ++ rest) ≡ dumps v ++ rest
value-skip v rest h = Begins-skip_blank (Begins-append rest (dumps-Begins v h))

pub max-left : (a b c : ℕ) → max a b ≤ c → a ≤ c
max-left a b c h = ground arith

pub max-right : (a b c : ℕ) → max a b ≤ c → b ≤ c
max-right a b c h = ground arith

abbrev pub item_then : ℕ → ℕ → Text → Scanned (Items × Text)
item_then f depth s = do
  (x, rest) ← read_value f depth s
  (xs, rest) ← read_items f depth (skip_blank rest)
  got (cons x xs, rest)

abbrev pub member_then : ℕ → ℕ → Text → Scanned (Fields × Text)
member_then f depth s = do
  ((name, x), rest) ← read_member f depth s
  (members, rest) ← read_fields f depth (skip_blank rest)
  got (field name x members, rest)

-- An item and those behind it.
module _ (f depth : ℕ) (x : Json) (xs : Items) (rest : Text) where
  pub item-back :
      is_plain x ≡ true
      → read_value f depth (dumps x ++ (dumps_more xs ++ rest)) ≡ got (x, dumps_more xs ++ rest)
      → read_items f depth (dumps_more xs ++ rest) ≡ got (xs, rest)
      → item_then f depth (skip_blank ((dumps x ++ dumps_more xs) ++ rest)) ≡ got (cons x xs, rest)
  item-back h e e' =
      rw
        (
          append_assoc (dumps x) (dumps_more xs) rest,
          value-skip x (dumps_more xs ++ rest) h,
          e,
          items-skip xs rest,
          e',
        )
        refl

  pub array-back :
      is_plain x ≡ true
      → read_value f depth (dumps x ++ (dumps_more xs ++ rest)) ≡ got (x, dumps_more xs ++ rest)
      → read_items f depth (dumps_more xs ++ rest) ≡ got (xs, rest)
      → read_array (suc f) depth (skip_blank ((dumps x ++ dumps_more xs) ++ rest))
        ≡ got (cons x xs, rest)
  unfolding read_array
  array-back h e e' = rw (separated, read_array) (item-back h e e')
    where
      separated : separator b']' (skip_blank ((dumps x ++ dumps_more xs) ++ rest)) ≡ other
      separated =
          rw (append_assoc (dumps x) (dumps_more xs) rest, value-skip x (dumps_more xs ++ rest) h)
            (Begins-separator (Begins-append (dumps_more xs ++ rest) (dumps-Begins x h)))

regroup : (a b c d : Text) → (((a ++ 34 ∷ []) ++ 58 ∷ b) ++ c) ++ d ≡ a ++ 34 ∷ 58 ∷ (b ++ (c ++ d))
regroup [] b c d = ap (λ t. 34 ∷ 58 ∷ t) (append_assoc b c d)
regroup (x ∷ a) b c d = ap (λ t. x ∷ t) (regroup a b c d)

-- A member and those behind it.
module _ (f depth : ℕ) (k : Text) (v : Json) (fs : Fields) (rest : Text) where
  abbrev pub printed : Text
  printed = (((34 ∷ (escape_all k ++ 34 ∷ [])) ++ 58 ∷ dumps v) ++ fields_more fs) ++ rest

  member-back :
      all is_scalar k ≡ true
      → is_plain v ≡ true
      → read_value f depth (dumps v ++ (fields_more fs ++ rest)) ≡ got (v, fields_more fs ++ rest)
      → read_member (suc f) depth printed ≡ got ((k, v), fields_more fs ++ rest)
  unfolding read_member expect skip_blank
  member-back hk hv e =
      rw
        (
          regroup (escape_all k) (dumps v) (fields_more fs) rest,
          read_string-escape_all k (58 ∷ (dumps v ++ (fields_more fs ++ rest))) hk,
          value-skip v (fields_more fs ++ rest) hv,
          e,
        )
        refl

  pub fields-member-back :
      all is_scalar k ≡ true
      → is_plain v ≡ true
      → read_value f depth (dumps v ++ (fields_more fs ++ rest)) ≡ got (v, fields_more fs ++ rest)
      → read_fields (suc f) depth (fields_more fs ++ rest) ≡ got (fs, rest)
      → member_then (suc f) depth printed ≡ got (field k v fs, rest)
  fields-member-back hk hv e e' = rw (member-back hk hv e, fields-skip fs rest, e') refl
