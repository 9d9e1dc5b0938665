-- ===== src/Json/RoundTrip/Values.antt =====
-- Printed values, and what is read of them.
use mathlib.Core.List.{append_assoc, append-nil}
use dbsc_python.Base.{
  ℕ, zero, suc, ◌+◌, ◌*◌, ◌<◌, ◌≤◌, ◌≡◌, refl, sym, true, false, ◌&&◌, [], ◌∷◌, ◌++◌, some, length,
  length-append, arith, all, &&-eq-true,
}
use dbsc_python.Base.Text.{Text}
use dbsc_python.Json.{
  Json, Items, Fields, null, bool, int, float, str, arr, obj, nil, cons, end, field, is_unique,
}
use dbsc_python.Json.Dumps.{dumps, dumps_more, fields_more, escape_all}
use dbsc_python.Json.Scanned.{got}
use dbsc_python.Json.Reader.{
  read_value, read_items, read_fields, read_scalar, unique_members, loads, loads_object,
}
use dbsc_python.Json.RoundTrip.Strings.{is_scalar, read_string-escape_all}
use dbsc_python.Json.RoundTrip.Numbers.{stops}
use dbsc_python.Json.RoundTrip.Plain.{
  is_plain, plain_items, plain_fields, nesting, nesting_items, nesting_fields, dumps-Begins,
  Begins-skip_blank, start-integer, read_scalar-integer,
}
use dbsc_python.Json.RoundTrip.Steps.{
  items-stop, fields-stop, max-left, max-right, item-back, array-back, fields-member-back,
}

length-member :
    (k : Text) (v : Json) (fs : Fields)
    → length ((34 ∷ (escape_all k ++ 34 ∷ [])) ++ 58 ∷ dumps v ++ fields_more fs)
      ≡ suc (length (escape_all k) + 1 + suc (length (dumps v)) + length (fields_more fs))
length-member k v fs =
    rw
      (
        length-append ((34 ∷ (escape_all k ++ 34 ∷ [])) ++ 58 ∷ dumps v) (fields_more fs),
        length-append (34 ∷ (escape_all k ++ 34 ∷ [])) (58 ∷ dumps v),
        length-append (escape_all k) (34 ∷ []),
      )
      (omega arith)

-- Each reader reads what its printer prints, with fuel for its length and room for its nesting.
mutual
  unfolding read_value dumps is_plain nesting read_scalar unique_members

  value-back :
      (v : Json) (rest : Text) (depth f : ℕ)
      → is_plain v ≡ true
      → stops rest ≡ true
      → nesting v ≤ depth
      → 2 * length (dumps v) < f
      → read_value f depth (dumps v ++ rest) ≡ got (v, rest)
  value-back v rest depth zero h s n l = absurd (omega arith)
  value-back null rest depth (suc f) h s n l = refl
  value-back (bool true) rest depth (suc f) h s n l = refl
  value-back (bool false) rest depth (suc f) h s n l = refl
  value-back (int n) rest depth (suc f) h s _ l =
      rw (start-integer n rest, read_value) (read_scalar-integer n rest h s)
  value-back (float t) rest depth (suc f) h s n l = absurd (cc)
  value-back (str t) rest depth (suc f) h s n l =
      rw (append_assoc (escape_all t) (34 ∷ []) rest, read_string-escape_all t rest h) refl
  value-back (arr xs) rest zero (suc f) h s n l = absurd (omega arith)
  value-back (arr nil) rest (suc depth) (suc zero) h s n l = absurd (omega arith)
  value-back (arr nil) rest (suc depth) (suc (suc f)) h s n l = refl
  value-back (arr (cons x xs)) rest (suc depth) (suc zero) h s n l = absurd (omega arith)
  value-back (arr (cons x xs)) rest (suc depth) (suc (suc f)) h s n l =
      let (hx, hxs) = &&-eq-true (is_plain x) (plain_items xs) h in
      rw
        (array-back f depth x xs rest hx
          (value-back x (dumps_more xs ++ rest) depth f hx (items-stop xs rest)
            (max-left (nesting x) (nesting_items xs) depth (omega arith))
            (omega (arith, length-append (dumps x) (dumps_more xs))))
          (items-back xs rest depth f hxs
            (max-right (nesting x) (nesting_items xs) depth (omega arith))
            (omega (arith, length-append (dumps x) (dumps_more xs)))))
        refl
  value-back (obj fs) rest zero (suc f) h s n l = absurd (omega arith)
  value-back (obj end) rest (suc depth) (suc zero) h s n l = absurd (omega arith)
  value-back (obj end) rest (suc depth) (suc (suc f)) h s n l = refl
  value-back (obj (field k v fs)) rest (suc depth) (suc zero) h s n l = absurd (omega arith)
  value-back (obj (field k v fs)) rest (suc depth) (suc (suc zero)) h s n l = absurd (omega arith)
  value-back (obj (field k v fs)) rest (suc depth) (suc (suc (suc f))) h s n l =
      let (h_unique, h_plain) =
        &&-eq-true (is_unique (field k v fs)) (plain_fields (field k v fs)) h in
      let (hk, h_rest) = &&-eq-true (all is_scalar k) (is_plain v && plain_fields fs) h_plain in
      let (hv, hfs) = &&-eq-true (is_plain v) (plain_fields fs) h_rest in
      rw
        (fields-member-back f depth k v fs rest hk hv
          (value-back v (fields_more fs ++ rest) depth f hv (fields-stop fs rest)
            (max-left (nesting v) (nesting_fields fs) depth (omega arith))
            (omega (arith, length-member k v fs)))
          (fields-back fs rest depth (suc f) hfs
            (max-right (nesting v) (nesting_fields fs) depth (omega arith))
            (omega (arith, length-member k v fs))))
        (rw h_unique refl)

  items-back :
      (xs : Items) (rest : Text) (depth f : ℕ)
      → plain_items xs ≡ true
      → nesting_items xs ≤ depth
      → 2 * length (dumps_more xs) < f
      → read_items f depth (dumps_more xs ++ rest) ≡ got (xs, rest)
  items-back xs rest depth zero h n l = absurd (omega arith)
  items-back nil rest depth (suc f) h n l = refl
  items-back (cons x xs) rest depth (suc f) h n l =
      let (hx, hxs) = &&-eq-true (is_plain x) (plain_items xs) h in
      item-back f depth x xs rest hx
        (value-back x (dumps_more xs ++ rest) depth f hx (items-stop xs rest)
          (max-left (nesting x) (nesting_items xs) depth n)
          (omega (arith, length-append (dumps x) (dumps_more xs))))
        (items-back xs rest depth f hxs (max-right (nesting x) (nesting_items xs) depth n)
          (omega (arith, length-append (dumps x) (dumps_more xs))))

  fields-back :
      (fs : Fields) (rest : Text) (depth f : ℕ)
      → plain_fields fs ≡ true
      → nesting_fields fs ≤ depth
      → 2 * length (fields_more fs) < f
      → read_fields f depth (fields_more fs ++ rest) ≡ got (fs, rest)
  fields-back fs rest depth zero h n l = absurd (omega arith)
  fields-back end rest depth (suc f) h n l = refl
  fields-back (field k v fs) rest depth (suc zero) h n l = absurd (omega arith)
  fields-back (field k v fs) rest depth (suc (suc f)) h n l =
      let (hk, h_rest) = &&-eq-true (all is_scalar k) (is_plain v && plain_fields fs) h in
      let (hv, hfs) = &&-eq-true (is_plain v) (plain_fields fs) h_rest in
      fields-member-back f depth k v fs rest hk hv
        (value-back v (fields_more fs ++ rest) depth f hv (fields-stop fs rest)
          (max-left (nesting v) (nesting_fields fs) depth n) (omega (arith, length-member k v fs)))
        (fields-back fs rest depth (suc f) hfs (max-right (nesting v) (nesting_fields fs) depth n)
          (omega (arith, length-member k v fs)))

-- With the interpreter's room for its nesting, a plain value is read back from what is printed.
pub loads-dumps :
    (v : Json) (depth : ℕ) → is_plain v ≡ true → nesting v ≤ depth → loads depth (dumps v) ≡ got v
unfolding loads
loads-dumps v depth h n =
    rw (Begins-skip_blank (dumps-Begins v h), sym (append-nil (dumps v)))
      (rw
        (value-back v [] depth (2 * length (dumps v ++ []) + 1) h refl n
          (rw (append-nil (dumps v)) (omega arith)))
        refl)

pub loads_object-dumps :
    (fs : Fields) (depth : ℕ)
    → is_plain (obj fs) ≡ true
    → nesting (obj fs) ≤ depth
    → loads_object depth (dumps (obj fs)) ≡ some fs
unfolding loads_object
loads_object-dumps fs depth h n = rw (loads-dumps (obj fs) depth h n) refl
