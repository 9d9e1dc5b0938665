-- ===== src/Json/Reader/Distinct.antt =====
-- Values in which no object has a name twice, and the readers of src/dbsc/_json.py that read no
-- value in another.
use dbsc_python.Base.{
  ◌≡◌, ◌≢◌, refl, true, false, Bool, Option, none, some, [], ◌∷◌, length, arith, ◌==◌, ltb,
  if◌then◌else◌,
}
use dbsc_python.Base.Text.{Text, codes, is_empty, text_eq_iff}
use dbsc_python.Json.{Json, Items, Fields, arr, obj, nil, cons, end, field, has_member, is_unique}
use dbsc_python.Json.Scanned.{Scanned, got, malformed, out_of_fuel, ◌>>=◌}
use dbsc_python.Json.Numbers.{
  read_number, read_unsigned, number_of, max_str_digits, paired, read_integer, read_fraction,
  read_exponent,
}
use dbsc_python.Json.Reader.{read_scalar, unique_members, behind}

-- No member has this name.
abbrev pub Lacks : Text → Fields → Type 0
Lacks name end = Unit
Lacks name (field k x rest) = (k ≢ name) × Lacks name rest

-- No object in the value, at any depth, has a name twice.
unfoldable mutual
  pub Distinct : Json → Type 0
  Distinct (arr xs) = AllDistinct xs
  Distinct (obj members) = DistinctMembers members
  Distinct _ = Unit

  pub AllDistinct : Items → Type 0
  AllDistinct nil = Unit
  AllDistinct (cons x xs) = Distinct x × AllDistinct xs

  pub DistinctMembers : Fields → Type 0
  DistinctMembers end = Unit
  DistinctMembers (field k x rest) = Lacks k rest × (Distinct x × DistinctMembers rest)

-- The values of the members are so, whatever their names.
abbrev pub ValuesDistinct : Fields → Type 0
ValuesDistinct end = Unit
ValuesDistinct (field k x rest) = Distinct x × ValuesDistinct rest

abbrev pub OnGot : {A : Type 0} → (A → Type 0) → Scanned A → Type 0
OnGot P (got a) = P a
OnGot P _ = Unit

pub OnGot-bind :
    {A B : Type 0} (P : A → Type 0) (Q : B → Type 0) (m : Scanned A) (f : A → Scanned B)
    → OnGot P m
    → ((a : A) → P a → OnGot Q (f a))
    → OnGot Q (m >>= f)
OnGot-bind P Q (got a) f h k = k a h
OnGot-bind P Q malformed f h k = tt
OnGot-bind P Q out_of_fuel f h k = tt

-- What is read does not matter.
pub OnGot-after :
    {A B : Type 0} (Q : B → Type 0) (m : Scanned A) (f : A → Scanned B)
    → ((a : A) → OnGot Q (f a))
    → OnGot Q (m >>= f)
OnGot-after Q (got a) f k = k a
OnGot-after Q malformed f k = tt
OnGot-after Q out_of_fuel f k = tt

has_member-Lacks :
    (name : Text) (members : Fields) → has_member name members ≡ false → Lacks name members
unfolding has_member
has_member-Lacks name end h = tt
has_member-Lacks name (field k x rest) h =
    (λ e. ground (arith, text_eq_iff k name), has_member-Lacks name rest (ground arith))

is_unique-DistinctMembers :
    (members : Fields) → is_unique members ≡ true → ValuesDistinct members → DistinctMembers members
unfolding is_unique Distinct
is_unique-DistinctMembers end h v = tt
is_unique-DistinctMembers (field k x rest) h (d, v) =
    (has_member-Lacks k rest (ground arith), (d, is_unique-DistinctMembers rest (ground arith) v))

pub unique_members-Distinct :
    (members : Fields) → ValuesDistinct members → OnGot Distinct (unique_members members)
unfolding unique_members Distinct
unique_members-Distinct members v = go (is_unique members) refl
  where
    go :
        (b : Bool)
        → is_unique members ≡ b
        → OnGot Distinct (if b then got (obj members) else malformed)
    go true e = is_unique-DistinctMembers members e v
    go false e = tt

paired-Distinct :
    (rest : Text) (r : Scanned Json) → OnGot Distinct r → OnGot (λ p. Distinct p.0) (paired rest r)
paired-Distinct rest (got x) h = h
paired-Distinct rest malformed h = tt
paired-Distinct rest out_of_fuel h = tt

OnGot-if :
    {A : Type 0} (P : A → Type 0) (b : Bool) (m n : Scanned A)
    → OnGot P m
    → OnGot P n
    → OnGot P (if b then m else n)
OnGot-if P true m n p q = p
OnGot-if P false m n p q = q

number_of-Distinct :
    (negative : Bool) (ds fraction exponent : Text)
    → OnGot Distinct (number_of negative ds fraction exponent)
unfolding number_of Distinct
number_of-Distinct negative ds [] [] =
    OnGot-if Distinct (ltb max_str_digits (length ds)) malformed _ tt tt
number_of-Distinct negative ds [] (c ∷ exponent) = tt
number_of-Distinct negative ds (c ∷ fraction) exponent = tt

unsigned-Distinct :
    (negative : Bool) (s : Text) → OnGot (λ p. Distinct p.0) (read_unsigned negative s)
unfolding read_unsigned
unsigned-Distinct negative s = OnGot-if _ (is_empty (read_integer s).0) malformed _ tt (
    paired-Distinct _ _ (
      number_of-Distinct negative (read_integer s).0 (read_fraction (read_integer s).1).0
        (read_exponent (read_fraction (read_integer s).1).1).0))

number-Distinct : (s : Text) → OnGot (λ p. Distinct p.0) (read_number s)
unfolding read_number
number-Distinct [] = tt
number-Distinct (c ∷ s) =
    OnGot-if _ (c == b'-') _ _ (unsigned-Distinct true s) (unsigned-Distinct false (c ∷ s))

literal-Distinct :
    (o : Option Text) (x : Json) (next : Scanned (Json × Text))
    → Distinct x
    → OnGot (λ p. Distinct p.0) next
    → OnGot (λ p. Distinct p.0) (elim o [ some rest ↦ got (x, rest) | none ↦ next ])
literal-Distinct none x next d h = h
literal-Distinct (some rest) x next d h = d

pub scalar-Distinct : (s : Text) → OnGot (λ p. Distinct p.0) (read_scalar s)
unfolding read_scalar Distinct
scalar-Distinct s = literal-Distinct (behind (codes "null") s) _ _ tt (
    literal-Distinct (behind (codes "true") s) _ _ tt (
      literal-Distinct (behind (codes "false") s) _ _ tt (
        literal-Distinct (behind (codes "NaN") s) _ _ tt (
          literal-Distinct (behind (codes "Infinity") s) _ _ tt
            (literal-Distinct (behind (codes "-Infinity") s) _ _ tt (number-Distinct s))))))
