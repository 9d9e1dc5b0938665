-- ===== src/Json/Numbers.antt =====
-- JSON numbers, as `json` reads them.
use dbsc_python.Base.{
  ℕ, zero, suc, ◌+◌, ◌-◌, ◌*◌, Bool, true, false, ◌&&◌, ◌||◌, [], ◌∷◌, ◌++◌, ltb, leb, ◌==◌, length,
  if◌then◌else◌,
}
use dbsc_python.Base.Int.{ℤ, pos, negsuc}
use dbsc_python.Base.Text.{Text, is_empty}
use dbsc_python.Json.{Json, int, float}
use dbsc_python.Json.Scanned.{Scanned, got, malformed, out_of_fuel}

abbrev pub is_digit : ℕ → Bool
is_digit c = leb b'0' c && leb c b'9'

-- The digits that a text starts with, and the rest.
unfoldable pub read_digits : Text → Text × Text
read_digits [] = ([], [])
read_digits (c ∷ s) =
    let (ds, rest) = read_digits s in if is_digit c then (c ∷ ds, rest) else ([], c ∷ s)

-- The number that digits spell behind `n`.
unfoldable pub value_from : ℕ → Text → ℕ
value_from n [] = n
value_from n (c ∷ s) = value_from (n * 10 + (c - 48)) s

-- `0`, or digits that start with another one; no text where there is none.
unfoldable pub read_integer : Text → Text × Text
unfolding read_digits
read_integer [] = ([], [])
read_integer (c ∷ s) = if c == b'0' then (c ∷ [], s) else read_digits (c ∷ s)

-- A point and digits, or nothing.
unfoldable pub read_fraction : Text → Text × Text
unfolding read_digits
read_fraction [] = ([], [])
read_fraction (c ∷ s) =
    let (ds, rest) = read_digits s in
    if c == b'.' && ltb 0 (length ds) then (c ∷ ds, rest) else ([], c ∷ s)

unfoldable pub read_sign : Text → Text × Text
read_sign [] = ([], [])
read_sign (c ∷ s) = if c == b'+' || c == b'-' then (c ∷ [], s) else ([], c ∷ s)

-- `e` or `E`, a sign or none, and digits; or nothing.
unfoldable pub read_exponent : Text → Text × Text
unfolding read_sign read_digits
read_exponent [] = ([], [])
read_exponent (c ∷ s) =
    let (sign, s') = read_sign s in
    let (ds, rest) = read_digits s' in
    if (c == b'e' || c == b'E') && ltb 0 (length ds) then (c ∷ (sign ++ ds), rest) else ([], c ∷ s)

-- The limit of `int()` on the digits of a text.
abbrev pub max_str_digits : ℕ
max_str_digits = 4300

abbrev pub signed : Bool → ℕ → ℤ
signed false n = pos n
signed true zero = pos 0
signed true (suc n) = negsuc n

abbrev pub sign_text : Bool → Text
sign_text false = []
sign_text true = b'-' ∷ []

-- The number that the three parts spell: an integer if the last two are empty.
unfoldable pub number_of : Bool → Text → Text → Text → Scanned Json
unfolding value_from
number_of negative ds [] [] =
    if ltb max_str_digits (length ds)
    then malformed
    else got (int (signed negative (value_from 0 ds)))
number_of negative ds fraction exponent =
    got (float (sign_text negative ++ (ds ++ (fraction ++ exponent))))

abbrev pub paired : Text → Scanned Json → Scanned (Json × Text)
paired rest (got v) = got (v, rest)
paired rest malformed = malformed
paired rest out_of_fuel = out_of_fuel

-- A number behind its sign.
unfoldable pub read_unsigned : Bool → Text → Scanned (Json × Text)
unfolding read_integer read_fraction read_exponent number_of
read_unsigned negative s =
    let (ds, s₁) = read_integer s in
    let (fraction, s₂) = read_fraction s₁ in
    let (exponent, rest) = read_exponent s₂ in
    if is_empty ds then malformed else paired rest (number_of negative ds fraction exponent)

unfoldable pub read_number : Text → Scanned (Json × Text)
unfolding read_unsigned
read_number [] = malformed
read_number (c ∷ s) = if c == b'-' then read_unsigned true s else read_unsigned false (c ∷ s)
