-- ===== src/Json/RoundTrip/Numbers.antt =====
-- Printed integers, and what is read of them.
use dbsc_python.Base.{
  ℕ, zero, suc, ◌+◌, ◌/◌, ◌%◌, ◌<◌, ◌≡◌, refl, ap, ◌∙◌, inl, inr, Bool, true, false, not, ◌||◌, [],
  ◌∷◌, ◌++◌, ltb, leb, ◌==◌, all, length, arith, Bool-cases, &&-eq-true, ==_iff,
}
use dbsc_python.Base.Int.{ℤ, pos, negsuc}
use dbsc_python.Base.Text.{Text, is_empty}
use dbsc_python.Json.{int}
use dbsc_python.Json.Dumps.{decimal_loop, decimal, integer}
use dbsc_python.Json.Scanned.{got}
use dbsc_python.Json.Numbers.{
  is_digit, read_digits, value_from, read_integer, read_fraction, read_exponent, number_of,
  read_unsigned, read_number, max_str_digits, signed,
}

-- Nothing that could go on a number stands first.
abbrev pub stops : Text → Bool
stops [] = true
stops (c ∷ s) = not (is_digit c || c == b'.' || c == b'e' || c == b'E')

abbrev leads : Text → Bool
leads [] = false
leads (c ∷ s) = not (c == b'0')

decimal_loop-digits :
    (f n : ℕ) (acc : Text) → all is_digit acc ≡ true → all is_digit (decimal_loop f n acc) ≡ true
unfolding decimal_loop
decimal_loop-digits zero n acc h = h
decimal_loop-digits (suc f) n acc h =
    ground (arith, decimal_loop-digits f (n / 10) ((48 + n % 10) ∷ acc))

value_from-decimal_loop :
    (f n : ℕ) (acc : Text) → n < f → value_from 0 (decimal_loop f n acc) ≡ value_from n acc
unfolding decimal_loop value_from
value_from-decimal_loop zero n acc h = absurd (omega arith)
value_from-decimal_loop (suc f) n acc h = elim (Bool-cases (ltb n 10)) [
  | inl small ↦ rw (small, decimal_loop) (ap (λ k. value_from k acc) (omega arith))
  | inr big ↦
      rw (big, decimal_loop)
        (value_from-decimal_loop f (n / 10) ((48 + n % 10) ∷ acc) (ground arith)
          ∙ ap (λ k. value_from k acc) (omega arith))
]

decimal_loop-leads : (f n : ℕ) (acc : Text) → n < f → 0 < n → leads (decimal_loop f n acc) ≡ true
unfolding decimal_loop
decimal_loop-leads zero n acc h p = absurd (omega arith)
decimal_loop-leads (suc f) n acc h p =
    ground (arith, decimal_loop-leads f (n / 10) ((48 + n % 10) ∷ acc))

read_digits-append :
    (ds rest : Text)
    → all is_digit ds ≡ true
    → stops rest ≡ true
    → read_digits (ds ++ rest) ≡ (ds, rest)
unfolding read_digits
read_digits-append [] [] h k = refl
read_digits-append [] (c ∷ rest) h k = ground arith
read_digits-append (d ∷ ds) rest h k =
    let (here, later) = &&-eq-true (is_digit d) (all is_digit ds) h in
    rw (read_digits-append ds rest later k, here)

read_integer-append :
    (ds rest : Text)
    → leads ds ≡ true
    → all is_digit ds ≡ true
    → stops rest ≡ true
    → read_integer (ds ++ rest) ≡ (ds, rest)
unfolding read_integer
read_integer-append [] rest l h k = absurd (cc)
read_integer-append (d ∷ ds) rest l h k =
    let other : (d == b'0') ≡ false = ground arith in
    rw other (read_digits-append (d ∷ ds) rest h k)

read_fraction-stops : (rest : Text) → stops rest ≡ true → read_fraction rest ≡ ([], rest)
unfolding read_fraction
read_fraction-stops [] h = refl
read_fraction-stops (c ∷ rest) h = ground arith

read_exponent-stops : (rest : Text) → stops rest ≡ true → read_exponent rest ≡ ([], rest)
unfolding read_exponent
read_exponent-stops [] h = refl
read_exponent-stops (c ∷ rest) h = ground arith

-- `int()` takes as many digits.
abbrev pub is_short : ℕ → Bool
is_short n = leb (length (decimal n)) max_str_digits

read_integer-decimal :
    (n : ℕ) (rest : Text) → stops rest ≡ true → read_integer (decimal n ++ rest) ≡ (decimal n, rest)
unfolding decimal read_integer
read_integer-decimal n rest k = elim (Bool-cases (n == 0)) [
  | inl e ↦ rw ((==_iff n 0).0 e) refl
  | inr e ↦
      read_integer-append (decimal_loop (suc n) n []) rest
        (decimal_loop-leads (suc n) n [] (omega arith) (ground arith))
        (decimal_loop-digits (suc n) n [] refl) k
]

decimal_loop-nonempty : (f n : ℕ) (acc : Text) → n < f → is_empty (decimal_loop f n acc) ≡ false
unfolding decimal_loop
decimal_loop-nonempty zero n acc h = absurd (omega arith)
decimal_loop-nonempty (suc f) n acc h =
    ground (arith, decimal_loop-nonempty f (n / 10) ((48 + n % 10) ∷ acc))

pub decimal-nonempty : (n : ℕ) → is_empty (decimal n) ≡ false
unfolding decimal
decimal-nonempty n = decimal_loop-nonempty (suc n) n [] (omega arith)

value_from-decimal : (n : ℕ) → value_from 0 (decimal n) ≡ n
unfolding decimal value_from
value_from-decimal n = value_from-decimal_loop (suc n) n [] (omega arith)

short : (n : ℕ) → is_short n ≡ true → ltb max_str_digits (length (decimal n)) ≡ false
short n h = ground arith

-- The number whose digits are printed.
abbrev pub size : ℤ → ℕ
size (pos n) = n
size (negsuc n) = suc n

read_unsigned-decimal :
    (b : Bool) (n : ℕ) (rest : Text)
    → is_short n ≡ true
    → stops rest ≡ true
    → read_unsigned b (decimal n ++ rest) ≡ got (int (signed b n), rest)
unfolding read_unsigned number_of
read_unsigned-decimal b n rest h k =
    rw
      (
        read_integer-decimal n rest k,
        read_fraction-stops rest k,
        read_exponent-stops rest k,
        read_unsigned,
      )
      (rw (decimal-nonempty n, short n h)
        (ap (λ m. got (int (signed b m), rest)) (value_from-decimal n)))

pub decimal-digits : (n : ℕ) → all is_digit (decimal n) ≡ true
unfolding decimal
decimal-digits n = decimal_loop-digits (suc n) n [] refl

unsigned_digits :
    (ds rest : Text)
    → is_empty ds ≡ false
    → all is_digit ds ≡ true
    → read_number (ds ++ rest) ≡ read_unsigned false (ds ++ rest)
unfolding read_number
unsigned_digits [] rest e h = absurd (cc)
unsigned_digits (d ∷ ds) rest e h = let unsigned : (d == b'-') ≡ false = ground arith in rw unsigned

-- A printed integer is read back, whatever that is no part of a number follows it.
pub read_number-integer :
    (n : ℤ) (rest : Text)
    → is_short (size n) ≡ true
    → stops rest ≡ true
    → read_number (integer n ++ rest) ≡ got (int n, rest)
unfolding read_number integer
read_number-integer (pos n) rest h k =
    unsigned_digits (decimal n) rest (decimal-nonempty n) (decimal-digits n)
    ∙ read_unsigned-decimal false n rest h k
read_number-integer (negsuc n) rest h k = read_unsigned-decimal true (suc n) rest h k
