-- ===== src/Json/Reader/Unique.antt =====
-- The names of the objects that `loads_object` of src/dbsc/_json.py reads, by its
-- `object_pairs_hook`.
use dbsc_python.Base.{ℕ, zero, suc, ◌≡◌, refl}
use dbsc_python.Base.Text.{Text}
use dbsc_python.Json.{Json, Items, Fields, cons, field}
use dbsc_python.Json.Scanned.{Scanned, got, ◌>>=◌}
use dbsc_python.Json.Strings.{read_string, plain}
use dbsc_python.Json.Reader.{
  read_value, read_array, read_items, read_member, read_object, read_fields, skip_blank, start,
  separator, expect, unique_members, Start, Separator, closing, comma, other, at_string, at_array,
  at_object, at_scalar,
}
use dbsc_python.Json.Reader.Distinct.{
  Distinct, AllDistinct, ValuesDistinct, OnGot, OnGot-bind, OnGot-after, unique_members-Distinct,
  scalar-Distinct,
}

module _ (f depth : ℕ) (s : Text) where
  first_item-Distinct :
      OnGot (λ p. Distinct p.0) (read_value f depth s)
      → ((t : Text) → OnGot (λ p. AllDistinct p.0) (read_items f depth t))
      → OnGot {A = Items × Text}
          (λ p. AllDistinct p.0)
          (read_value f depth s >>= λ (x, rest).
            read_items f depth (skip_blank rest) >>= λ (xs, rest'). got (cons x xs, rest'))
  unfolding Distinct
  first_item-Distinct value items =
      OnGot-bind (λ p. Distinct p.0) _ (read_value f depth s) _ value
        (λ p d.
          OnGot-bind (λ q. AllDistinct q.0) _ (read_items f depth (skip_blank p.1)) _
            (items (skip_blank p.1)) (λ q ds. (d, ds)))

  first_member-Distinct :
      OnGot (λ p. Distinct p.0.1) (read_member f depth s)
      → ((t : Text) → OnGot (λ p. ValuesDistinct p.0) (read_fields f depth t))
      → OnGot {A = Fields × Text}
          (λ p. ValuesDistinct p.0)
          (read_member f depth s >>= λ ((name, x), rest).
            read_fields f depth (skip_blank rest) >>= λ (members, rest').
            got (field name x members, rest'))
  first_member-Distinct member fields =
      OnGot-bind (λ p. Distinct p.0.1) _ (read_member f depth s) _ member
        (λ p d.
          OnGot-bind (λ q. ValuesDistinct q.0) _ (read_fields f depth (skip_blank p.1)) _
            (fields (skip_blank p.1)) (λ q ds. (d, ds)))

-- A round of each reader, given what the others read.
started-Distinct :
    (f depth : ℕ) (s : Text) (st : Start)
    → start s ≡ st
    → ((d : ℕ) (t : Text) → OnGot (λ p. AllDistinct p.0) (read_array f d t))
    → ((d : ℕ) (t : Text) → OnGot (λ p. ValuesDistinct p.0) (read_object f d t))
    → OnGot (λ p. Distinct p.0) (read_value (suc f) depth s)
unfolding read_value Distinct
started-Distinct f depth s (at_string t) e array object =
    rw (e, read_value) (OnGot-after _ (read_string plain t) _ (λ p. tt))
started-Distinct f zero s (at_array t) e array object = rw (e, read_value) tt
started-Distinct f (suc d) s (at_array t) e array object =
    rw (e, read_value)
      (OnGot-bind (λ p. AllDistinct p.0) _ (read_array f d (skip_blank t)) _
        (array d (skip_blank t)) (λ p h. h))
started-Distinct f zero s (at_object t) e array object = rw (e, read_value) tt
started-Distinct f (suc d) s (at_object t) e array object =
    rw (e, read_value)
      (OnGot-bind (λ p. ValuesDistinct p.0) _ (read_object f d (skip_blank t)) _
        (object d (skip_blank t))
        (λ p h.
          OnGot-bind Distinct _ (unique_members p.0) _ (unique_members-Distinct p.0 h) (λ x d. d)))
started-Distinct f depth s at_scalar e array object = rw (e, read_value) (scalar-Distinct s)

module _ (f depth : ℕ) (s : Text) where
  array_by-Distinct :
      (sep : Separator)
      → separator b']' s ≡ sep
      → OnGot (λ p. Distinct p.0) (read_value f depth s)
      → ((t : Text) → OnGot (λ p. AllDistinct p.0) (read_items f depth t))
      → OnGot (λ p. AllDistinct p.0) (read_array (suc f) depth s)
  unfolding read_value Distinct
  array_by-Distinct (closing rest) e value items = rw (e, read_array) tt
  array_by-Distinct (comma rest) e value items =
      rw (e, read_array) (first_item-Distinct f depth s value items)
  array_by-Distinct other e value items =
      rw (e, read_array) (first_item-Distinct f depth s value items)

  items_by-Distinct :
      (sep : Separator)
      → separator b']' s ≡ sep
      → ((t : Text) → OnGot (λ p. Distinct p.0) (read_value f depth t))
      → ((t : Text) → OnGot (λ p. AllDistinct p.0) (read_items f depth t))
      → OnGot (λ p. AllDistinct p.0) (read_items (suc f) depth s)
  unfolding read_value Distinct
  items_by-Distinct (closing rest) e value items = rw (e, read_items) tt
  items_by-Distinct (comma rest) e value items =
      rw (e, read_items)
        (first_item-Distinct f depth (skip_blank rest) (value (skip_blank rest)) items)
  items_by-Distinct other e value items = rw (e, read_items) tt

  object_by-Distinct :
      (sep : Separator)
      → separator b'}' s ≡ sep
      → OnGot (λ p. Distinct p.0.1) (read_member f depth s)
      → ((t : Text) → OnGot (λ p. ValuesDistinct p.0) (read_fields f depth t))
      → OnGot (λ p. ValuesDistinct p.0) (read_object (suc f) depth s)
  unfolding read_value
  object_by-Distinct (closing rest) e member fields = rw (e, read_object) tt
  object_by-Distinct (comma rest) e member fields =
      rw (e, read_object) (first_member-Distinct f depth s member fields)
  object_by-Distinct other e member fields =
      rw (e, read_object) (first_member-Distinct f depth s member fields)

  fields_by-Distinct :
      (sep : Separator)
      → separator b'}' s ≡ sep
      → ((t : Text) → OnGot (λ p. Distinct p.0.1) (read_member f depth t))
      → ((t : Text) → OnGot (λ p. ValuesDistinct p.0) (read_fields f depth t))
      → OnGot (λ p. ValuesDistinct p.0) (read_fields (suc f) depth s)
  unfolding read_value
  fields_by-Distinct (closing rest) e member fields = rw (e, read_fields) tt
  fields_by-Distinct (comma rest) e member fields =
      rw (e, read_fields)
        (first_member-Distinct f depth (skip_blank rest) (member (skip_blank rest)) fields)
  fields_by-Distinct other e member fields = rw (e, read_fields) tt

mutual
  unfolding read_value Distinct

  value-Distinct : (f depth : ℕ) (s : Text) → OnGot (λ p. Distinct p.0) (read_value f depth s)
  value-Distinct zero depth s = tt
  value-Distinct (suc f) depth s =
      started-Distinct f depth s (start s) refl (λ d t. array-Distinct f d t)
        (λ d t. object-Distinct f d t)

  array-Distinct : (f depth : ℕ) (s : Text) → OnGot (λ p. AllDistinct p.0) (read_array f depth s)
  array-Distinct zero depth s = tt
  array-Distinct (suc f) depth s =
      array_by-Distinct f depth s (separator b']' s) refl (value-Distinct f depth s)
        (λ t. items-Distinct f depth t)

  items-Distinct : (f depth : ℕ) (s : Text) → OnGot (λ p. AllDistinct p.0) (read_items f depth s)
  items-Distinct zero depth s = tt
  items-Distinct (suc f) depth s =
      items_by-Distinct f depth s (separator b']' s) refl (λ t. value-Distinct f depth t)
        (λ t. items-Distinct f depth t)

  member-Distinct : (f depth : ℕ) (s : Text) → OnGot (λ p. Distinct p.0.1) (read_member f depth s)
  member-Distinct zero depth s = tt
  member-Distinct (suc f) depth s = OnGot-after _ (expect 34 s) _ (λ t.
      OnGot-after _ (read_string plain t) _ (λ p.
        OnGot-after _ (expect b':' (skip_blank p.1)) _ (λ t'.
          OnGot-bind (λ q. Distinct q.0) _ (read_value f depth (skip_blank t')) _
            (value-Distinct f depth (skip_blank t')) (λ q d. d))))

  object-Distinct :
      (f depth : ℕ) (s : Text) → OnGot (λ p. ValuesDistinct p.0) (read_object f depth s)
  object-Distinct zero depth s = tt
  object-Distinct (suc f) depth s =
      object_by-Distinct f depth s (separator b'}' s) refl (member-Distinct f depth s)
        (λ t. fields-Distinct f depth t)

  fields-Distinct :
      (f depth : ℕ) (s : Text) → OnGot (λ p. ValuesDistinct p.0) (read_fields f depth s)
  fields-Distinct zero depth s = tt
  fields-Distinct (suc f) depth s =
      fields_by-Distinct f depth s (separator b'}' s) refl (λ t. member-Distinct f depth t)
        (λ t. fields-Distinct f depth t)
