-- ===== src/Json/Reader/Lengths.antt =====
-- Readers of strings, numbers and literals: the characters that they use up.
use dbsc_python.Base.{
  ℕ, ◌+◌, ◌<◌, ◌≤◌, ◌≡◌, ◌≢◌, refl, inl, inr, Bool, true, false, none, some, [], ◌∷◌, ◌++◌, ◌==◌,
  length, arith, Option-cases,
}
use dbsc_python.Base.Text.{Text, codes, is_empty}
use dbsc_python.Json.{Json}
use dbsc_python.Json.Scanned.{
  Scanned, got, malformed, out_of_fuel, Within, reads, refuses, Within-bind, Within-weaken,
  Within-if,
}
use dbsc_python.Json.Strings.{Place, refuse, close, go, move, read_string, prepended}
use dbsc_python.Json.Numbers.{
  read_digits, read_integer, read_fraction, read_sign, read_exponent, number_of, read_unsigned,
  read_number, paired,
}
use dbsc_python.Json.Reader.{skip_blank, behind, read_scalar, expect}

-- What is left is shorter than `s`.
abbrev pub Shorter : {A : Type 0} → Text → A × Text → Type 0
Shorter s p = length p.1 < length s

pub length-skip_blank : (s : Text) → length (skip_blank s) ≤ length s
unfolding skip_blank
length-skip_blank [] = omega arith
length-skip_blank (c ∷ s) = ground (arith, length-skip_blank s)

length-read_digits : (s : Text) → length (read_digits s).0 + length (read_digits s).1 ≡ length s
unfolding read_digits
length-read_digits [] = omega arith
length-read_digits (c ∷ s) = ground (arith, length-read_digits s)

length-read_integer : (s : Text) → length (read_integer s).0 + length (read_integer s).1 ≡ length s
unfolding read_integer
length-read_integer [] = omega arith
length-read_integer (c ∷ s) = ground (arith, length-read_digits (c ∷ s))

length-read_fraction : (s : Text) → length (read_fraction s).1 ≤ length s
unfolding read_fraction
length-read_fraction [] = omega arith
length-read_fraction (c ∷ s) = ground (arith, length-read_digits s)

length-read_sign : (s : Text) → length (read_sign s).1 ≤ length s
unfolding read_sign
length-read_sign [] = omega arith
length-read_sign (c ∷ s) = ground arith

length-read_exponent : (s : Text) → length (read_exponent s).1 ≤ length s
unfolding read_exponent
length-read_exponent [] = omega arith
length-read_exponent (c ∷ s) =
    ground (arith, length-read_sign s, length-read_digits (read_sign s).1)

-- What `number_of` and `paired` make keeps the rest.
paired-Within :
    (s rest : Text) (r : Scanned Json)
    → r ≢ out_of_fuel
    → length rest < length s
    → Within (Shorter s) (paired rest r)
paired-Within s rest (got v) h l = reads (v, rest) l
paired-Within s rest malformed h l = refuses
paired-Within s rest out_of_fuel h l = absurd (h refl)

number_of-ends :
    (b : Bool) (ds fraction exponent : Text) → number_of b ds fraction exponent ≢ out_of_fuel
unfolding number_of
number_of-ends b ds [] [] = ground arith
number_of-ends b ds [] (c ∷ e) = cc
number_of-ends b ds (c ∷ f) e = cc

length_pos : (s : Text) → is_empty s ≡ false → 0 < length s
length_pos [] h = absurd (cc)
length_pos (c ∷ s) h = omega arith

read_unsigned-Within : (b : Bool) (s : Text) → Within (Shorter s) (read_unsigned b s)
unfolding read_unsigned
read_unsigned-Within b s =
    Within-if (is_empty (read_integer s).0) (λ _. refuses)
      (λ some_digit.
        paired-Within s (read_exponent (read_fraction (read_integer s).1).1).1 _
          (number_of-ends b (read_integer s).0 (read_fraction (read_integer s).1).0
            (read_exponent (read_fraction (read_integer s).1).1).0)
          (omega (
            arith,
            length_pos (read_integer s).0 some_digit,
            length-read_integer s,
            length-read_fraction (read_integer s).1,
            length-read_exponent (read_fraction (read_integer s).1).1,
          )))

read_number-Within : (s : Text) → Within (Shorter s) (read_number s)
unfolding read_number
read_number-Within [] = refuses
read_number-Within (c ∷ s) =
    Within-if (c == b'-') (λ _. Within-weaken (read_unsigned-Within true s) (λ a l. omega arith))
      (λ _. read_unsigned-Within false (c ∷ s))

length-behind : (ps s rest : Text) → behind ps s ≡ some rest → length ps + length rest ≡ length s
unfolding behind
length-behind [] s rest h = ground arith
length-behind (p ∷ ps) [] rest h = absurd (cc)
length-behind (p ∷ ps) (c ∷ s) rest h = ground (arith, length-behind ps s rest)

pub read_string-Within : (place : Place) (s : Text) → Within (Shorter s) (read_string place s)
unfolding read_string
read_string-Within place [] = refuses
read_string-Within place (c ∷ s) =
    elim (move place c)
      as (λ m. Within (Shorter (c ∷ s)) (elim m [
        | refuse ↦ malformed
        | close out ↦ got (out, s)
        | go out next ↦ prepended out (read_string next s)
      ])) [
        | refuse ↦ refuses
        | close out ↦ reads (out, s) (omega arith)
        | go out next ↦
            Within-bind (read_string-Within next s) (λ p l. reads (out ++ p.0, p.1) (omega arith))
      ]

literal-Within :
    (ps s : Text) (x : Json) (next : Scanned (Json × Text))
    → 0 < length ps
    → Within (Shorter s) next
    → Within (Shorter s) (elim (behind ps s) [ some rest ↦ got (x, rest) | none ↦ next ])
literal-Within ps s x next some_char h = elim (Option-cases (behind ps s)) [
  | inl e ↦ rw e h
  | inr (rest, e) ↦ rw e (reads (x, rest) (omega (arith, length-behind ps s rest e)))
]

pub read_scalar-Within : (s : Text) → Within (Shorter s) (read_scalar s)
unfolding read_scalar codes
read_scalar-Within s = literal-Within (codes "null") s _ _ (omega arith) (
    literal-Within (codes "true") s _ _ (omega arith) (
      literal-Within (codes "false") s _ _ (omega arith) (
        literal-Within (codes "NaN") s _ _ (omega arith) (
          literal-Within (codes "Infinity") s _ _ (omega arith)
            (literal-Within (codes "-Infinity") s _ _ (omega arith) (read_number-Within s))))))

pub expect-Within : (d : ℕ) (s : Text) → Within (λ rest. length rest < length s) (expect d s)
unfolding expect
expect-Within d [] = refuses
expect-Within d (c ∷ s) = Within-if (c == d) (λ _. reads s (omega arith)) (λ _. refuses)
