-- ===== src/Json/Bytes/Ascii.antt =====
-- Printable ASCII: what `dumps` prints, and what the decoder makes of it.
use dbsc_python.Base.{
  ℕ, suc, ◌+◌, ◌/◌, ◌%◌, ◌≡◌, refl, ◌∙◌, Bool, true, false, ◌&&◌, none, some, [], ◌∷◌, ◌++◌, ltb,
  leb, ◌==◌, all, all-append, all-imp, &&-eq-true, arith, if◌then◌else◌, ◌≤◌, ◌<◌, ◌-◌,
}
use dbsc_python.Base.Int.{ℤ, pos, negsuc}
use dbsc_python.Base.Text.{Text, codes}
use dbsc_python.Json.{
  Json, Items, Fields, null, bool, int, float, str, arr, obj, nil, cons, end, field, is_unique,
}
use dbsc_python.Json.Dumps.{
  dumps, dumps_more, fields_more, quote, escape, escape_all, hex_digit, unicode_escape, integer,
  decimal,
}
use dbsc_python.Json.Reader.{loads, loads_object}
use dbsc_python.Json.RoundTrip.Strings.{is_scalar}
use dbsc_python.Json.RoundTrip.Numbers.{decimal-digits}
use dbsc_python.Json.RoundTrip.Plain.{is_plain, plain_items, plain_fields, nesting}
use dbsc_python.Json.RoundTrip.Values.{loads_object-dumps}
use dbsc_python.Json.Bytes.{
  loads_object_bytes, detect_encoding, by_zeros, utf_16_mark, utf_8_mark, utf_32_mark, utf_8, whole,
  decode_utf_8, utf_8_byte, decode,
}

pub loads_object_bytes-nil : (depth : ℕ) → loads_object_bytes depth [] ≡ none
unfolding loads_object_bytes loads codes
loads_object_bytes-nil depth = refl

abbrev pub is_printable : ℕ → Bool
is_printable c = leb 32 c && ltb c 127

decode_utf_8-printable : (b : Text) → all is_printable b ≡ true → decode_utf_8 whole b ≡ some b
unfolding decode_utf_8 utf_8_byte
decode_utf_8-printable [] h = refl
decode_utf_8-printable (c ∷ b) h =
    let (hc, hb) = &&-eq-true (is_printable c) (all is_printable b) h in
    let low : ltb c 128 ≡ true = ground arith in
    rw (low, decode_utf_8) (rw (decode_utf_8-printable b hb) refl)

detect_encoding-printable : (b : Text) → all is_printable b ≡ true → detect_encoding b ≡ utf_8
unfolding detect_encoding by_zeros utf_16_mark utf_8_mark utf_32_mark
detect_encoding-printable [] h = refl
detect_encoding-printable (c ∷ []) h = refl
detect_encoding-printable (c ∷ d ∷ []) h = ground arith
detect_encoding-printable (c ∷ d ∷ e ∷ []) h = ground arith
detect_encoding-printable (c ∷ d ∷ e ∷ f ∷ b) h = ground arith

-- Printable text is read as it is.
pub loads_object_bytes-printable :
    (depth : ℕ) (b : Text)
    → all is_printable b ≡ true
    → loads_object_bytes depth b ≡ loads_object depth b
unfolding loads_object_bytes decode
loads_object_bytes-printable depth b h =
    rw (detect_encoding-printable b h, decode_utf_8-printable b h) refl

hex_digit-printable : (d : ℕ) → d < 16 → is_printable (hex_digit d) ≡ true
unfolding hex_digit
hex_digit-printable d h = ground arith

unicode_escape-printable : (n : ℕ) → all is_printable (unicode_escape n) ≡ true
unfolding unicode_escape
unicode_escape-printable n =
    rw
      (
        hex_digit-printable (n / 4096 % 16) (omega arith),
        hex_digit-printable (n / 256 % 16) (omega arith),
        hex_digit-printable (n / 16 % 16) (omega arith),
        hex_digit-printable (n % 16) (omega arith),
      )
      refl

either :
    (b : Bool) (s t : Text)
    → (b ≡ true → all is_printable s ≡ true)
    → (b ≡ false → all is_printable t ≡ true)
    → all is_printable (if b then s else t) ≡ true
either true s t h k = h refl
either false s t h k = k refl

escape-printable : (c : ℕ) → all is_printable (escape c) ≡ true
unfolding escape
escape-printable c =
    either (c == 34) _ _ (λ _. refl)
      (λ _.
        either (c == 92) _ _ (λ _. refl)
          (λ _.
            either (leb 32 c && leb c 126) _ _ (λ h. ground arith)
              (λ _.
                either (c == 10) _ _ (λ _. refl)
                  (λ _.
                    either (c == 13) _ _ (λ _. refl)
                      (λ _.
                        either (c == 9) _ _ (λ _. refl)
                          (λ _.
                            either (c == 12) _ _ (λ _. refl)
                              (λ _.
                                either (c == 8) _ _ (λ _. refl)
                                  (λ _.
                                    either (ltb c 65536) _ _ (λ _. unicode_escape-printable c)
                                      (λ _.
                                        rw
                                          (
                                            all-append is_printable
                                                (unicode_escape (55296 + (c - 65536) / 1024))
                                                (unicode_escape (56320 + (c - 65536) % 1024)),
                                            unicode_escape-printable (55296 + (c - 65536) / 1024),
                                            unicode_escape-printable (56320 + (c - 65536) % 1024),
                                          )
                                          refl)))))))))

escape_all-printable : (s : Text) → all is_printable (escape_all s) ≡ true
unfolding escape_all
escape_all-printable [] = refl
escape_all-printable (c ∷ s) =
    rw
      (
        all-append is_printable (escape c) (escape_all s),
        escape-printable c,
        escape_all-printable s,
      )
      refl

quote-printable : (s : Text) → all is_printable (quote s) ≡ true
unfolding quote
quote-printable s =
    rw (all-append is_printable (escape_all s) (34 ∷ []), escape_all-printable s) refl

decimal-printable : (n : ℕ) → all is_printable (decimal n) ≡ true
decimal-printable n = all-imp (decimal n) (λ c h. ground arith) (decimal-digits n)

integer-printable : (n : ℤ) → all is_printable (integer n) ≡ true
unfolding integer
integer-printable (pos n) = decimal-printable n
integer-printable (negsuc n) = decimal-printable (suc n)

member-printable :
    (k s t : Text)
    → all is_printable s ≡ true
    → all is_printable t ≡ true
    → all is_printable (quote k ++ 58 ∷ s ++ t) ≡ true
member-printable k s t hs ht =
    rw
      (
        all-append is_printable (quote k ++ 58 ∷ s) t,
        all-append is_printable (quote k) (58 ∷ s),
        quote-printable k,
        hs,
        ht,
      )
      refl

mutual
  unfolding dumps is_plain

  pub dumps-printable : (v : Json) → is_plain v ≡ true → all is_printable (dumps v) ≡ true
  dumps-printable null h = refl
  dumps-printable (bool true) h = refl
  dumps-printable (bool false) h = refl
  dumps-printable (int n) h = integer-printable n
  dumps-printable (float t) h = absurd (cc)
  dumps-printable (str s) h = quote-printable s
  dumps-printable (arr nil) h = refl
  dumps-printable (arr (cons x xs)) h =
      let (hx, hxs) = &&-eq-true (is_plain x) (plain_items xs) h in
      rw
        (
          all-append is_printable (dumps x) (dumps_more xs),
          dumps-printable x hx,
          dumps_more-printable xs hxs,
        )
        refl
  dumps-printable (obj end) h = refl
  dumps-printable (obj (field k v fs)) h =
      let (_, h_plain) = &&-eq-true (is_unique (field k v fs)) (plain_fields (field k v fs)) h in
      let (_, h_rest) = &&-eq-true (all is_scalar k) (is_plain v && plain_fields fs) h_plain in
      let (hv, hfs) = &&-eq-true (is_plain v) (plain_fields fs) h_rest in
      member-printable k (dumps v) (fields_more fs) (dumps-printable v hv)
        (fields_more-printable fs hfs)

  dumps_more-printable :
      (xs : Items) → plain_items xs ≡ true → all is_printable (dumps_more xs) ≡ true
  dumps_more-printable nil h = refl
  dumps_more-printable (cons x xs) h =
      let (hx, hxs) = &&-eq-true (is_plain x) (plain_items xs) h in
      rw
        (
          all-append is_printable (dumps x) (dumps_more xs),
          dumps-printable x hx,
          dumps_more-printable xs hxs,
        )
        refl

  fields_more-printable :
      (fs : Fields) → plain_fields fs ≡ true → all is_printable (fields_more fs) ≡ true
  fields_more-printable end h = refl
  fields_more-printable (field k v fs) h =
      let (_, h_rest) = &&-eq-true (all is_scalar k) (is_plain v && plain_fields fs) h in
      let (hv, hfs) = &&-eq-true (is_plain v) (plain_fields fs) h_rest in
      member-printable k (dumps v) (fields_more fs) (dumps-printable v hv)
        (fields_more-printable fs hfs)

-- With the interpreter's room for its nesting, a plain object is read back from the bytes that it
-- is printed to.
pub loads_object_bytes-dumps :
    (fs : Fields) (depth : ℕ)
    → is_plain (obj fs) ≡ true
    → nesting (obj fs) ≤ depth
    → loads_object_bytes depth (dumps (obj fs)) ≡ some fs
loads_object_bytes-dumps fs depth h n =
    loads_object_bytes-printable depth (dumps (obj fs)) (dumps-printable (obj fs) h)
    ∙ loads_object-dumps fs depth h n
