-- ===== src/Json/RoundTrip/Strings.antt =====
-- Printed strings, and what is read of them.
use mathlib.Core.List.{append_assoc}
use dbsc_python.Base.{
  ℕ, suc, ◌+◌, ◌-◌, ◌*◌, ◌/◌, ◌%◌, ◌<◌, ◌≤◌, ◌≡◌, refl, sym, ap, ◌∙◌, Bool, true, false, ◌&&◌, ◌||◌,
  some, [], ◌∷◌, ◌++◌, ltb, leb, ◌==◌, all, arith, &&-eq-true, ==_iff, if◌then◌else◌,
}
use dbsc_python.Base.Text.{Text}
use dbsc_python.Json.Dumps.{hex_digit, unicode_escape, escape, escape_all}
use dbsc_python.Json.Scanned.{Scanned, got, malformed, out_of_fuel}
use dbsc_python.Json.Strings.{
  hex_value, joined, Place, Move, plain, escape as escape_place, hex, high, high_escape, low, move,
  prepended, read_string, unit_read, second_read,
}

-- A code point that is no surrogate.
abbrev pub is_scalar : ℕ → Bool
is_scalar c = ltb c 0xd800 || leb 0xe000 c && ltb c 0x110000

hex_value-hex_digit : (d : ℕ) → d < 16 → hex_value (hex_digit d) ≡ some d
unfolding hex_value hex_digit
hex_value-hex_digit d h = ground arith

prepended-nil : (m : Scanned (Text × Text)) → prepended [] m ≡ m
prepended-nil (got p) = refl
prepended-nil malformed = refl
prepended-nil out_of_fuel = refl

-- What is read once a character has moved the reader.
abbrev moved : Move → Text → Scanned (Text × Text)
moved Move.refuse t = malformed
moved (Move.close out) t = got (out, t)
moved (Move.go out next) t = prepended out (read_string next t)

move-eq :
    (place : Place) (c : ℕ) (t : Text) (m : Move)
    → move place c ≡ m
    → read_string place (c ∷ t) ≡ moved m t
unfolding read_string
move-eq place c t Move.refuse e = rw (e, read_string)
move-eq place c t (Move.close out) e = rw (e, read_string)
move-eq place c t (Move.go out next) e = rw (e, read_string)

silent :
    (place next : Place) (c : ℕ) (t : Text)
    → move place c ≡ Move.go [] next
    → read_string place (c ∷ t) ≡ read_string next t
silent place next c t e = move-eq place c t (Move.go [] next) e ∙ prepended-nil (read_string next t)

hex_step :
    (k acc d : ℕ) (t : Text)
    → d < 16
    → read_string (hex (suc k) acc) (hex_digit d ∷ t) ≡ read_string (hex k (acc * 16 + d)) t
hex_step k acc d t h =
    silent (hex (suc k) acc) (hex k (acc * 16 + d)) (hex_digit d) t
      (unfold move in rw (hex_value-hex_digit d h))

low_step :
    (k acc h d : ℕ) (t : Text)
    → d < 16
    → read_string (low (suc k) acc h) (hex_digit d ∷ t) ≡ read_string (low k (acc * 16 + d) h) t
low_step k acc h d t l =
    silent (low (suc k) acc h) (low k (acc * 16 + d) h) (hex_digit d) t
      (unfold move in rw (hex_value-hex_digit d l))

spelled : ℕ → ℕ
spelled n = ((0 * 16 + n / 4096 % 16) * 16 + n / 256 % 16) * 16 + n / 16 % 16

spelled-eq : (n : ℕ) → n < 65536 → spelled n * 16 + n % 16 ≡ n
unfolding spelled
spelled-eq n h = omega arith

-- The digits of a whole `\u` escape.
read_hex :
    (n : ℕ) (t : Text)
    → n < 65536
    → read_string plain (unicode_escape n ++ t) ≡ moved (unit_read n) t
unfolding unicode_escape spelled
read_hex n t h =
    silent plain escape_place 92 _ (unfold move in refl)
    ∙ silent escape_place (hex 3 0) b'u' _ (unfold move in refl)
    ∙ hex_step 2 0 (n / 4096 % 16) _ (omega arith)
    ∙ hex_step 1 _ (n / 256 % 16) _ (omega arith)
    ∙ hex_step 0 _ (n / 16 % 16) _ (omega arith)
    ∙ move-eq (hex 0 (spelled n)) (hex_digit (n % 16)) t (unit_read (spelled n * 16 + n % 16))
        (unfold move in rw (hex_value-hex_digit (n % 16) (omega arith)))
    ∙ ap (λ m. moved (unit_read m) t) (spelled-eq n h)

read_low :
    (h n : ℕ) (t : Text)
    → n < 65536
    → read_string (high h) (unicode_escape n ++ t) ≡ moved (second_read h n) t
unfolding unicode_escape spelled
read_low h n t l =
    silent (high h) (high_escape h) 92 _ (unfold move in refl)
    ∙ silent (high_escape h) (low 3 0 h) b'u' _ (unfold move in refl)
    ∙ low_step 2 0 h (n / 4096 % 16) _ (omega arith)
    ∙ low_step 1 _ h (n / 256 % 16) _ (omega arith)
    ∙ low_step 0 _ h (n / 16 % 16) _ (omega arith)
    ∙ move-eq (low 0 (spelled n) h) (hex_digit (n % 16)) t (second_read h (spelled n * 16 + n % 16))
        (unfold move in rw (hex_value-hex_digit (n % 16) (omega arith)))
    ∙ ap (λ m. moved (second_read h m) t) (spelled-eq n l)

unit_read-high : (h : ℕ) → 0xd800 ≤ h → h < 0xdc00 → unit_read h ≡ Move.go [] (high h)
unfolding unit_read
unit_read-high h a b = ground arith

unit_read-plain : (c : ℕ) → is_scalar c ≡ true → unit_read c ≡ Move.go (c ∷ []) plain
unfolding unit_read
unit_read-plain c h = ground arith

second_read-low :
    (h l c : ℕ)
    → 0xdc00 ≤ l
    → l < 0xe000
    → joined h l ≡ c
    → second_read h l ≡ Move.go (c ∷ []) plain
unfolding second_read
second_read-low h l c a b e = ground arith

-- A character outside the first plane, as the pair of surrogates that `escape` prints.
read_pair :
    (c : ℕ) (t : Text)
    → 65536 ≤ c
    → c < 0x110000
    → read_string plain (
        (unicode_escape (55296 + (c - 65536) / 1024) ++ unicode_escape (56320 + (c - 65536) % 1024))
        ++ t)
      ≡ prepended (c ∷ []) (read_string plain t)
read_pair c t big small =
    ap (read_string plain) (append_assoc (unicode_escape h) (unicode_escape l) t)
    ∙ read_hex h (unicode_escape l ++ t) (omega arith)
    ∙ ap (λ m. moved m (unicode_escape l ++ t)) first
    ∙ prepended-nil (read_string (high h) (unicode_escape l ++ t))
    ∙ read_low h l t (omega arith)
    ∙ ap (λ m. moved m t) second
  where
    h : ℕ
    h = 55296 + (c - 65536) / 1024

    l : ℕ
    l = 56320 + (c - 65536) % 1024

    first : unit_read h ≡ Move.go [] (high h)
    first = unit_read-high h (omega arith) (omega arith)

    second : second_read h l ≡ Move.go (c ∷ []) plain
    second = second_read-low h l c (omega arith) (omega arith) (omega arith)

-- A backslash and one letter.
read_short :
    (d k c : ℕ) (t : Text)
    → (c == k) ≡ true
    → move escape_place d ≡ Move.go (k ∷ []) plain
    → read_string plain (92 ∷ d ∷ t) ≡ prepended (c ∷ []) (read_string plain t)
read_short d k c t e m =
    silent plain escape_place 92 (d ∷ t) (unfold move in refl)
    ∙ move-eq escape_place d t (Move.go (k ∷ []) plain) m
    ∙ ap (λ x. prepended (x ∷ []) (read_string plain t)) (sym ((==_iff c k).0 e))

read_plain :
    (c : ℕ) (t : Text)
    → (c == 34) ≡ false
    → (c == 92) ≡ false
    → (leb 32 c && leb c 126) ≡ true
    → read_string plain (c ∷ t) ≡ prepended (c ∷ []) (read_string plain t)
read_plain c t a b h = move-eq plain c t (Move.go (c ∷ []) plain) (unfold move in ground arith)

if_rule :
    (P : Text → Type 0) (b : Bool) (x y : Text)
    → (b ≡ true → P x)
    → (b ≡ false → P y)
    → P (if b then x else y)
if_rule P true x y p q = p refl
if_rule P false x y p q = q refl

-- One printed character is read back.
read_escape :
    (c : ℕ) (t : Text)
    → is_scalar c ≡ true
    → read_string plain (escape c ++ t) ≡ prepended (c ∷ []) (read_string plain t)
unfolding escape
read_escape c t h =
    if_rule Back (c == 34) _ _ (λ e. read_short 34 34 c t e (unfold move in refl))
      (λ a.
        if_rule Back (c == 92) _ _ (λ e. read_short 92 92 c t e (unfold move in refl))
          (λ b. if_rule Back (leb 32 c && leb c 126) _ _ (read_plain c t a b) (λ _.
            if_rule Back (c == 10) _ _ (λ e. read_short b'n' 10 c t e (unfold move in refl))
              (λ _.
                if_rule Back (c == 13) _ _ (λ e. read_short b'r' 13 c t e (unfold move in refl))
                  (λ _.
                    if_rule Back (c == 9) _ _ (λ e. read_short b't' 9 c t e (unfold move in refl))
                      (λ _.
                        if_rule Back (c == 12) _ _
                          (λ e. read_short b'f' 12 c t e (unfold move in refl))
                          (λ _.
                            if_rule Back (c == 8) _ _
                              (λ e. read_short b'b' 8 c t e (unfold move in refl))
                              (λ _.
                                if_rule Back (ltb c 65536) _ _
                                  (λ e.
                                    read_hex c t (ground arith)
                                    ∙ ap (λ m. moved m t) (unit_read-plain c h))
                                  (λ e. read_pair c t (ground arith) (ground arith))))))))))
  where
    Back : Text → Type 0
    Back printed = read_string plain (printed ++ t) ≡ prepended (c ∷ []) (read_string plain t)

pub read_string-escape_all :
    (s rest : Text)
    → all is_scalar s ≡ true
    → read_string plain (escape_all s ++ 34 ∷ rest) ≡ got (s, rest)
unfolding escape_all
read_string-escape_all [] rest h = move-eq plain 34 rest (Move.close []) (unfold move in refl)
read_string-escape_all (c ∷ s) rest h =
    let (here, later) = &&-eq-true (is_scalar c) (all is_scalar s) h in
    ap (read_string plain) (append_assoc (escape c) (escape_all s) (34 ∷ rest))
    ∙ read_escape c (escape_all s ++ 34 ∷ rest) here
    ∙ ap (prepended (c ∷ [])) (read_string-escape_all s rest later)
