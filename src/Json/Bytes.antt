-- ===== src/Json/Bytes.antt =====
-- `json.loads` of bytes, as `loads_object` of src/dbsc/_json.py calls it: the encoding is detected,
-- and the text decoded with `surrogatepass`.
pub mod Ascii
use dbsc_python.Base.{
  ℕ, zero, suc, ◌+◌, ◌-◌, ◌*◌, ◌%◌, Bool, true, false, not, ◌&&◌, ◌||◌, Option, none, some, List,
  [], ◌∷◌, ltb, leb, ◌==◌, if◌then◌else◌,
}
use dbsc_python.Base.Text.{Text}
use dbsc_python.Json.{Fields}
use dbsc_python.Json.Reader.{loads_object}

pub data Encoding : Type 0 where
  utf_8 utf_8_sig utf_16_be utf_16_le utf_16 utf_32_be utf_32_le utf_32 : Encoding

-- Without a byte order mark: JSON starts with an ASCII character.
unfoldable pub by_zeros : List ℕ → Encoding
by_zeros (a ∷ b ∷ c ∷ d ∷ bs) =
    if a == 0
    then if b == 0 then utf_32_be else utf_16_be
    else if b == 0
    then if c == 0 && d == 0 then utf_32_le else utf_16_le
    else utf_8
by_zeros (a ∷ b ∷ []) = if a == 0 then utf_16_be else if b == 0 then utf_16_le else utf_8
by_zeros _ = utf_8

unfoldable pub utf_16_mark : List ℕ → Bool
utf_16_mark (a ∷ b ∷ bs) = a == 0xfe && b == 0xff || a == 0xff && b == 0xfe
utf_16_mark _ = false

unfoldable pub utf_8_mark : List ℕ → Bool
utf_8_mark (a ∷ b ∷ c ∷ bs) = a == 0xef && b == 0xbb && c == 0xbf
utf_8_mark _ = false

unfoldable pub utf_32_mark : List ℕ → Bool
utf_32_mark (a ∷ b ∷ c ∷ d ∷ bs) =
    a == 0 && b == 0 && c == 0xfe && d == 0xff || a == 0xff && b == 0xfe && c == 0 && d == 0
utf_32_mark _ = false

unfoldable pub detect_encoding : List ℕ → Encoding
unfolding by_zeros utf_16_mark utf_8_mark utf_32_mark
detect_encoding b =
    if utf_32_mark b
    then utf_32
    else if utf_16_mark b
    then utf_16
    else if utf_8_mark b
    then utf_8_sig
    else by_zeros b

abbrev cons? : ℕ → Option Text → Option Text
cons? c none = none
cons? c (some s) = some (c ∷ s)

-- A character of which some bytes are still to come: their number, its value so far, and the least
-- value that is not written in fewer bytes.
pub data Partial : Type 0 where
  whole : Partial
  more : ℕ → ℕ → ℕ → Partial

-- What a byte does: it ends a character, it goes on with one, or it is refused.
pub data Byte : Type 0 where
  ends : ℕ → Byte
  goes_on : Partial → Byte
  refused : Byte

abbrev lead : ℕ → Byte
lead b =
    if ltb b 0x80
    then ends b
    else if leb 0xc2 b && ltb b 0xe0
    then goes_on (more 0 (b - 0xc0) 0x80)
    else if leb 0xe0 b && ltb b 0xf0
    then goes_on (more 1 (b - 0xe0) 0x800)
    else if leb 0xf0 b && ltb b 0xf5
    then goes_on (more 2 (b - 0xf0) 0x10000)
    else refused

abbrev last_byte : ℕ → ℕ → Byte
last_byte value least = if leb least value && ltb value 0x110000 then ends value else refused

unfoldable pub utf_8_byte : Partial → ℕ → Byte
utf_8_byte whole b = lead b
utf_8_byte (more zero value least) b =
    if leb 0x80 b && ltb b 0xc0 then last_byte (value * 64 + (b - 0x80)) least else refused
utf_8_byte (more (suc k) value least) b =
    if leb 0x80 b && ltb b 0xc0 then goes_on (more k (value * 64 + (b - 0x80)) least) else refused

unfoldable pub decode_utf_8 : Partial → List ℕ → Option Text
unfolding utf_8_byte
decode_utf_8 whole [] = some []
decode_utf_8 (more k value least) [] = none
decode_utf_8 partial (b ∷ bs) = elim (utf_8_byte partial b) [
  | ends c ↦ cons? c (decode_utf_8 whole bs)
  | goes_on next ↦ decode_utf_8 next bs
  | refused ↦ none
]

-- The units of two or of four bytes, the most significant byte first.
unfoldable pub units_of_2 : List ℕ → Option (List ℕ)
units_of_2 [] = some []
units_of_2 (a ∷ []) = none
units_of_2 (a ∷ b ∷ bs) = cons? (a * 256 + b) (units_of_2 bs)

unfoldable pub units_of_4 : List ℕ → Option (List ℕ)
units_of_4 [] = some []
units_of_4 (a ∷ b ∷ c ∷ d ∷ bs) = cons? (((a * 256 + b) * 256 + c) * 256 + d) (units_of_4 bs)
units_of_4 _ = none

-- The same bytes, those of each unit in reverse; a last unit that is cut off stays so.
unfoldable pub swapped_2 : List ℕ → List ℕ
swapped_2 (a ∷ b ∷ bs) = b ∷ a ∷ swapped_2 bs
swapped_2 bs = bs

unfoldable pub swapped_4 : List ℕ → List ℕ
swapped_4 (a ∷ b ∷ c ∷ d ∷ bs) = d ∷ c ∷ b ∷ a ∷ swapped_4 bs
swapped_4 bs = bs

abbrev high : ℕ → Bool
high u = leb 0xd800 u && ltb u 0xdc00

abbrev low : ℕ → Bool
low u = leb 0xdc00 u && ltb u 0xe000

-- A high surrogate that stands before a low one is one character with it; `surrogatepass` keeps
-- every other surrogate.
unfoldable pub paired_units : List ℕ → Text
paired_units [] = []
paired_units (u ∷ us) = elim (paired_units us) [
  | [] ↦ u ∷ []
  | l ∷ rest ↦
      if high u && low l
      then (0x10000 + (u - 0xd800) * 1024 + (l - 0xdc00)) ∷ rest
      else u ∷ l ∷ rest
]

abbrev text_of_units : Option (List ℕ) → Option Text
text_of_units none = none
text_of_units (some us) = some (paired_units us)

-- The code points, if all are in range.
unfoldable pub in_range : List ℕ → Option Text
in_range [] = some []
in_range (u ∷ us) = let rest = cons? u (in_range us) in if ltb u 0x110000 then rest else none

abbrev text_of_points : Option (List ℕ) → Option Text
text_of_points none = none
text_of_points (some us) = in_range us

abbrev dropped : ℕ → List ℕ → List ℕ
dropped zero bs = bs
dropped (suc n) [] = []
dropped (suc n) (b ∷ bs) = dropped n bs

-- By the byte order mark, which is dropped.
abbrev big_endian : List ℕ → Bool
big_endian (a ∷ bs) = a == 0 || a == 0xfe
big_endian [] = false

unfoldable pub decode : Encoding → List ℕ → Option Text
unfolding decode_utf_8 units_of_2 units_of_4 swapped_2 swapped_4 paired_units in_range
decode utf_8 b = decode_utf_8 whole b
decode utf_8_sig b = decode_utf_8 whole (dropped 3 b)
decode utf_16_be b = text_of_units (units_of_2 b)
decode utf_16_le b = text_of_units (units_of_2 (swapped_2 b))
decode utf_16 b =
    text_of_units (units_of_2 (if big_endian b then dropped 2 b else swapped_2 (dropped 2 b)))
decode utf_32_be b = text_of_points (units_of_4 b)
decode utf_32_le b = text_of_points (units_of_4 (swapped_4 b))
decode utf_32 b =
    text_of_points (units_of_4 (if big_endian b then dropped 4 b else swapped_4 (dropped 4 b)))

abbrev loaded : ℕ → Option Text → Option Fields
loaded depth none = none
loaded depth (some s) = loads_object depth s

-- `loads_object` of bytes: what cannot be decoded is `UnicodeDecodeError`, a `ValueError`.
unfoldable pub loads_object_bytes : ℕ → List ℕ → Option Fields
unfolding detect_encoding decode loads_object
loads_object_bytes depth b = loaded depth (decode (detect_encoding b) b)
