-- ===== src/Json/Reader/Enough.antt =====
-- The fuel of `loads`: each reader uses up characters.
use dbsc_python.Base.{
  ℕ, zero, suc, ◌+◌, ◌*◌, ◌<◌, ◌≡◌, ◌≢◌, refl, [], ◌∷◌, ◌==◌, length, arith, inl, inr, Bool-cases,
}
use dbsc_python.Base.Text.{Text}
use dbsc_python.Json.{Json, Fields, is_unique, str, arr, obj, nil, cons, end, field}
use dbsc_python.Json.Scanned.{
  got, ◌>>=◌, out_of_fuel, Within, reads, refuses, Within-bind, Within-weaken, Within-if,
  Within-ne-out_of_fuel,
}
use dbsc_python.Json.Strings.{plain}
use dbsc_python.Json.Reader.{
  skip_blank, at_string, at_array, at_object, at_scalar, start, closing, comma, other, separator,
  unique_members, read_value, read_array, read_items, read_member, read_object, read_fields, at_end,
  loads,
}
use dbsc_python.Json.Reader.Lengths.{
  Shorter, length-skip_blank, read_string-Within, read_scalar-Within, expect-Within,
}

data Starts (s : Text) : Type 0 where
  string : (t : Text) → start s ≡ at_string t → length t < length s → Starts s
  array : (t : Text) → start s ≡ at_array t → length t < length s → Starts s
  object : (t : Text) → start s ≡ at_object t → length t < length s → Starts s
  scalar : start s ≡ at_scalar → Starts s

start-Starts : (s : Text) → Starts s
unfolding start
start-Starts [] = scalar refl
start-Starts (c ∷ s) = elim (Bool-cases (c == 34)) [
  | inl a ↦ string s (rw a) (omega arith)
  | inr a ↦ elim (Bool-cases (c == b'[')) [
    | inl b ↦ array s (rw (a, b)) (omega arith)
    | inr b ↦ elim (Bool-cases (c == b'{')) [
      | inl d ↦ object s (rw (a, b, d)) (omega arith)
      | inr d ↦ scalar (rw (a, b, d))
    ]
  ]
]

data Separates (bracket : ℕ) (s : Text) : Type 0 where
  closes : (t : Text) → separator bracket s ≡ closing t → length t < length s → Separates bracket s
  goes_on : (t : Text) → separator bracket s ≡ comma t → length t < length s → Separates bracket s
  neither : separator bracket s ≡ other → Separates bracket s

separator-Separates : (bracket : ℕ) (s : Text) → Separates bracket s
unfolding separator
separator-Separates bracket [] = neither refl
separator-Separates bracket (c ∷ s) = elim (Bool-cases (c == bracket)) [
  | inl a ↦ closes s (rw a) (omega arith)
  | inr a ↦ elim (Bool-cases (c == b',')) [
    | inl b ↦ goes_on s (rw (a, b)) (omega arith)
    | inr b ↦ neither (rw (a, b))
  ]
]

unique-Within : (members : Fields) → Within (λ v. Unit {0}) (unique_members members)
unfolding unique_members
unique-Within members = Within-if (is_unique members) (λ _. reads (obj members) tt) (λ _. refuses)

module _ (f depth : ℕ) (s : Text) (enough : 2 * length s < f) where
  first_item :
      Within (Shorter s) (read_value f depth s)
      → ((t : Text) → 2 * length t < f → Within (Shorter t) (read_items f depth t))
      → Within (Shorter s) (
          read_value f depth s >>= λ (x, rest).
          read_items f depth (skip_blank rest) >>= λ (xs, rest'). got (cons x xs, rest'))
  first_item value items = Within-bind value (λ p q.
      Within-bind (items (skip_blank p.1) (omega (arith, length-skip_blank p.1)))
        (λ p' q'. reads (cons p.0 p'.0, p'.1) (omega (arith, length-skip_blank p.1))))

  first_member :
      Within (Shorter s) (read_member f depth s)
      → ((t : Text) → 2 * length t < f → Within (Shorter t) (read_fields f depth t))
      → Within (Shorter s) (
          read_member f depth s >>= λ ((name, x), rest).
          read_fields f depth (skip_blank rest) >>= λ (members, rest').
          got (field name x members, rest'))
  first_member member fields = Within-bind member (λ p q.
      Within-bind (fields (skip_blank p.1) (omega (arith, length-skip_blank p.1)))
        (λ p' q'. reads (field p.0.0 p.0.1 p'.0, p'.1) (omega (arith, length-skip_blank p.1))))

-- A reader that has fuel for `s` ends, and leaves a shorter text.
mutual
  unfolding read_value

  value-Within :
      (f depth : ℕ) (s : Text) → 2 * length s < f → Within (Shorter s) (read_value f depth s)
  value-Within zero depth s h = absurd (omega arith)
  value-Within (suc f) zero s h = elim (start-Starts s) [
    | string t e l ↦
        rw (e, read_value)
          (Within-bind (read_string-Within plain t) (λ p q. reads (str p.0, p.1) (omega arith)))
    | array t e l ↦ rw (e, read_value) refuses
    | object t e l ↦ rw (e, read_value) refuses
    | scalar e ↦ rw (e, read_value) (read_scalar-Within s)
  ]
  value-Within (suc f) (suc depth) s h = elim (start-Starts s) [
    | string t e l ↦
        rw (e, read_value)
          (Within-bind (read_string-Within plain t) (λ p q. reads (str p.0, p.1) (omega arith)))
    | array t e l ↦
        rw (e, read_value)
          (Within-bind (array-Within f depth (skip_blank t) (omega (arith, length-skip_blank t)))
            (λ p q. reads (arr p.0, p.1) (omega (arith, length-skip_blank t))))
    | object t e l ↦
        rw (e, read_value)
          (Within-bind (object-Within f depth (skip_blank t) (omega (arith, length-skip_blank t)))
            (λ p q.
              Within-bind (unique-Within p.0)
                (λ v _. reads (v, p.1) (omega (arith, length-skip_blank t)))))
    | scalar e ↦ rw (e, read_value) (read_scalar-Within s)
  ]

  array-Within :
      (f depth : ℕ) (s : Text) → 2 * length s + 1 < f → Within (Shorter s) (read_array f depth s)
  array-Within zero depth s h = absurd (omega arith)
  array-Within (suc f) depth s h = elim (separator-Separates b']' s) [
    | closes t e l ↦ rw (e, read_array) (reads (nil, t) l)
    | goes_on t e l ↦
        rw (e, read_array)
          (first_item f depth s (omega arith) (value-Within f depth s (omega arith))
            (λ t k. items-Within f depth t k))
    | neither e ↦
        rw (e, read_array)
          (first_item f depth s (omega arith) (value-Within f depth s (omega arith))
            (λ t k. items-Within f depth t k))
  ]

  items-Within :
      (f depth : ℕ) (s : Text) → 2 * length s < f → Within (Shorter s) (read_items f depth s)
  items-Within zero depth s h = absurd (omega arith)
  items-Within (suc f) depth s h = elim (separator-Separates b']' s) [
    | closes t e l ↦ rw (e, read_items) (reads (nil, t) l)
    | goes_on t e l ↦
        rw (e, read_items)
          (Within-weaken
            (first_item f depth (skip_blank t) (omega (arith, length-skip_blank t))
              (value-Within f depth (skip_blank t) (omega (arith, length-skip_blank t)))
              (λ t k. items-Within f depth t k))
            (λ p q. omega (arith, length-skip_blank t)))
    | neither e ↦ rw (e, read_items) refuses
  ]

  member-Within :
      (f depth : ℕ) (s : Text) → 2 * length s < f → Within (Shorter s) (read_member f depth s)
  member-Within zero depth s h = absurd (omega arith)
  member-Within (suc f) depth s h = Within-bind (expect-Within 34 s) (λ t l.
      Within-bind (read_string-Within plain t) (λ p q.
        Within-bind (expect-Within b':' (skip_blank p.1)) (λ t' l'.
          Within-bind
            (value-Within f depth (skip_blank t')
              (omega (arith, length-skip_blank p.1, length-skip_blank t')))
            (λ p' q'.
              reads ((p.0, p'.0), p'.1)
                (omega (arith, length-skip_blank p.1, length-skip_blank t'))))))

  object-Within :
      (f depth : ℕ) (s : Text) → 2 * length s + 1 < f → Within (Shorter s) (read_object f depth s)
  object-Within zero depth s h = absurd (omega arith)
  object-Within (suc f) depth s h = elim (separator-Separates b'}' s) [
    | closes t e l ↦ rw (e, read_object) (reads (end, t) l)
    | goes_on t e l ↦
        rw (e, read_object)
          (first_member f depth s (omega arith) (member-Within f depth s (omega arith))
            (λ t k. fields-Within f depth t k))
    | neither e ↦
        rw (e, read_object)
          (first_member f depth s (omega arith) (member-Within f depth s (omega arith))
            (λ t k. fields-Within f depth t k))
  ]

  fields-Within :
      (f depth : ℕ) (s : Text) → 2 * length s < f → Within (Shorter s) (read_fields f depth s)
  fields-Within zero depth s h = absurd (omega arith)
  fields-Within (suc f) depth s h = elim (separator-Separates b'}' s) [
    | closes t e l ↦ rw (e, read_fields) (reads (end, t) l)
    | goes_on t e l ↦
        rw (e, read_fields)
          (Within-weaken
            (first_member f depth (skip_blank t) (omega (arith, length-skip_blank t))
              (member-Within f depth (skip_blank t) (omega (arith, length-skip_blank t)))
              (λ t k. fields-Within f depth t k))
            (λ p q. omega (arith, length-skip_blank t)))
    | neither e ↦ rw (e, read_fields) refuses
  ]

at_end-Within : (x : Json) (s : Text) → Within (λ v. Unit {0}) (at_end x s)
at_end-Within x [] = reads x tt
at_end-Within x (c ∷ s) = refuses

-- Reading a text never runs out of fuel: the code's recursion ends on every text.
loads-ends : (depth : ℕ) (s : Text) → loads depth s ≢ out_of_fuel
unfolding loads
loads-ends depth s = Within-ne-out_of_fuel {P = λ v. Unit {0}} (
    Within-bind
      (value-Within (2 * length s + 1) depth (skip_blank s) (omega (arith, length-skip_blank s)))
      (λ p q. at_end-Within p.0 (skip_blank p.1)))
