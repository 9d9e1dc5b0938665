-- ===== src/Json/Strings.antt =====
-- A JSON string behind its opening quote, as `json` reads it with `strict` set: one character at a
-- time, with the escapes decoded.
use dbsc_python.Base.{
  ℕ, zero, suc, ◌+◌, ◌-◌, ◌*◌, Bool, ◌&&◌, Option, none, some, [], ◌∷◌, ◌++◌, ltb, leb, ◌==◌,
  if◌then◌else◌,
}
use dbsc_python.Base.Text.{Text}
use dbsc_python.Json.Scanned.{Scanned, got, malformed, ◌>>=◌}

abbrev pub is_high : ℕ → Bool
is_high c = leb 0xd800 c && ltb c 0xdc00

abbrev pub is_low : ℕ → Bool
is_low c = leb 0xdc00 c && ltb c 0xe000

unfoldable pub hex_value : ℕ → Option ℕ
hex_value c =
    if leb b'0' c && leb c b'9'
    then some (c - 48)
    else if leb b'a' c && leb c b'f'
    then some (c - 87)
    else if leb b'A' c && leb c b'F'
    then some (c - 55)
    else none

-- The character that a backslash and `c` stand for.
unfoldable pub simple_escape : ℕ → Option ℕ
simple_escape c =
    if c == 34
    then some 34
    else if c == 92
    then some 92
    else if c == b'/'
    then some b'/'
    else if c == b'b'
    then some 8
    else if c == b'f'
    then some 12
    else if c == b'n'
    then some 10
    else if c == b'r'
    then some 13
    else if c == b't'
    then some 9
    else none

-- Where the reader stands. `hex k acc` has `suc k` digits of a `\u` escape to go; `high h` holds the
-- high surrogate of an escape, which the low surrogate of an escape right behind it completes.
pub data Place : Type 0 where
  plain escape : Place
  hex : ℕ → ℕ → Place
  high high_escape : ℕ → Place
  low : ℕ → ℕ → ℕ → Place

-- What one character does: end the string, or go on; both with the characters it has decided.
pub data Move : Type 0 where
  refuse : Move
  close : Text → Move
  go : Text → Place → Move

unfoldable pub in_plain : Text → ℕ → Move
in_plain out c =
    if c == 34
    then close out
    else if c == 92
    then go out escape
    else if ltb c 32
    then refuse
    else go (out ++ c ∷ []) plain

abbrev escaped : Text → Option ℕ → Move
escaped out none = refuse
escaped out (some c) = go (out ++ c ∷ []) plain

unfoldable pub in_escape : Text → ℕ → Move
unfolding simple_escape
in_escape out c = if c == b'u' then go out (hex 3 0) else escaped out (simple_escape c)

-- A whole `\u` escape.
unfoldable pub unit_read : ℕ → Move
unit_read u = if is_high u then go [] (high u) else go (u ∷ []) plain

abbrev in_hex : ℕ → ℕ → Option ℕ → Move
in_hex k acc none = refuse
in_hex zero acc (some d) = unit_read (acc * 16 + d)
in_hex (suc k) acc (some d) = go [] (hex k (acc * 16 + d))

abbrev pub joined : ℕ → ℕ → ℕ
joined h l = 0x10000 + ((h - 0xd800) * 1024 + (l - 0xdc00))

-- A `\u` escape behind the high surrogate `h`.
unfoldable pub second_read : ℕ → ℕ → Move
second_read h u =
    if is_low u
    then go (joined h u ∷ []) plain
    else if is_high u
    then go (h ∷ []) (high u)
    else go (h ∷ u ∷ []) plain

abbrev in_low : ℕ → ℕ → ℕ → Option ℕ → Move
in_low k acc h none = refuse
in_low zero acc h (some d) = second_read h (acc * 16 + d)
in_low (suc k) acc h (some d) = go [] (low k (acc * 16 + d) h)

unfoldable pub move : Place → ℕ → Move
unfolding in_plain in_escape unit_read second_read hex_value
move plain c = in_plain [] c
move escape c = in_escape [] c
move (hex k acc) c = in_hex k acc (hex_value c)
move (high h) c = if c == 92 then go [] (high_escape h) else in_plain (h ∷ []) c
move (high_escape h) c = if c == b'u' then go [] (low 3 0 h) else in_escape (h ∷ []) c
move (low k acc h) c = in_low k acc h (hex_value c)

abbrev pub prepended : Text → Scanned (Text × Text) → Scanned (Text × Text)
prepended out m = m >>= λ (t, rest). got (out ++ t, rest)

unfoldable pub read_string : Place → Text → Scanned (Text × Text)
unfolding move
read_string place [] = malformed
read_string place (c ∷ s) = elim (move place c) [
  | refuse ↦ malformed
  | close out ↦ got (out, s)
  | go out next ↦ prepended out (read_string next s)
]
