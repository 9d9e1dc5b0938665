-- ===== src/Json/Dumps.antt =====
-- `dumps` of src/dbsc/_json.py: `json.dumps` with compact separators and `ensure_ascii`.
use dbsc_python.Base.{
  ℕ, zero, suc, ◌+◌, ◌-◌, ◌/◌, ◌%◌, true, false, ◌&&◌, [], ◌∷◌, ◌++◌, ltb, leb, ◌==◌, if◌then◌else◌,
}
use dbsc_python.Base.Int.{ℤ, pos, negsuc}
use dbsc_python.Base.Text.{Text, codes}
use dbsc_python.Json.{
  Json, Items, Fields, null, bool, int, float, str, arr, obj, nil, cons, end, field,
}

-- One lower-case hexadecimal digit.
unfoldable pub hex_digit : ℕ → ℕ
hex_digit n = if ltb n 10 then 48 + n else 87 + n

-- `\u` and four hexadecimal digits.
unfoldable pub unicode_escape : ℕ → Text
unfolding hex_digit
unicode_escape n =
    b'\\'
    ∷ b'u'
    ∷ hex_digit (n / 4096 % 16)
    ∷ hex_digit (n / 256 % 16)
    ∷ hex_digit (n / 16 % 16)
    ∷ hex_digit (n % 16)
    ∷ []

-- One character inside a quoted string; above U+FFFF it is a pair of surrogates.
unfoldable pub escape : ℕ → Text
unfolding unicode_escape
escape c =
    if c == 34
    then 92 ∷ 34 ∷ []
    else if c == 92
    then 92 ∷ 92 ∷ []
    else if leb 32 c && leb c 126
    then c ∷ []
    else if c == 10
    then 92 ∷ b'n' ∷ []
    else if c == 13
    then 92 ∷ b'r' ∷ []
    else if c == 9
    then 92 ∷ b't' ∷ []
    else if c == 12
    then 92 ∷ b'f' ∷ []
    else if c == 8
    then 92 ∷ b'b' ∷ []
    else if ltb c 65536
    then unicode_escape c
    else unicode_escape (55296 + (c - 65536) / 1024) ++ unicode_escape (56320 + (c - 65536) % 1024)

unfoldable pub escape_all : Text → Text
unfolding escape
escape_all [] = []
escape_all (c ∷ s) = escape c ++ escape_all s

unfoldable pub quote : Text → Text
unfolding escape_all
quote s = 34 ∷ escape_all s ++ 34 ∷ []

-- Decimal digits, on fuel: `n` has fewer than `n + 1` digits before the first.
unfoldable pub decimal_loop : ℕ → ℕ → Text → Text
decimal_loop zero n acc = acc
decimal_loop (suc f) n acc =
    let rest = decimal_loop f (n / 10) ((48 + n % 10) ∷ acc) in
    if ltb n 10 then (48 + n) ∷ acc else rest

unfoldable pub decimal : ℕ → Text
unfolding decimal_loop
decimal n = decimal_loop (suc n) n []

unfoldable pub integer : ℤ → Text
unfolding decimal
integer (pos n) = decimal n
integer (negsuc n) = 45 ∷ decimal (suc n)

-- `dumps_more` and `fields_more` print the rest of a list, a comma before each member.
unfoldable mutual
  unfolding codes quote integer

  pub dumps : Json → Text
  dumps null = codes "null"
  dumps (bool true) = codes "true"
  dumps (bool false) = codes "false"
  dumps (int n) = integer n
  dumps (float s) = s
  dumps (str s) = quote s
  dumps (arr nil) = codes "[]"
  dumps (arr (cons x xs)) = 91 ∷ dumps x ++ dumps_more xs
  dumps (obj end) = codes "{}"
  dumps (obj (field k v fs)) = 123 ∷ quote k ++ 58 ∷ dumps v ++ fields_more fs

  pub dumps_more : Items → Text
  dumps_more nil = 93 ∷ []
  dumps_more (cons x xs) = 44 ∷ dumps x ++ dumps_more xs

  pub fields_more : Fields → Text
  fields_more end = 125 ∷ []
  fields_more (field k v fs) = 44 ∷ quote k ++ 58 ∷ dumps v ++ fields_more fs
