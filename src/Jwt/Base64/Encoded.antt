-- ===== src/Jwt/Base64/Encoded.antt =====
-- Base64url without padding (RFC 4648, section 5), as browsers write it.
use dbsc_python.Base.{
  ℕ, suc, ◌+◌, ◌-◌, ◌*◌, ◌/◌, ◌%◌, ◌<◌, ◌≡◌, refl, ap, ◌∙◌, Bool, true, false, ◌&&◌, Option, some,
  List, [], ◌∷◌, ◌++◌, map, length, ltb, ◌==◌, all, arith, &&-eq-true, if◌then◌else◌,
}
use dbsc_python.Base.Text.{Text}
use dbsc_python.Jwt.Base64.{
  sextet, Quad, aligned, one, two, three, b64decode, url_safe_to_std, padding, b64url_decode,
  emitted, next_quad, prefixed, or_empty,
}
use dbsc_python.Jwt.Base64.Ascii.{b64decode_cons}

unfoldable pub url_char : ℕ → ℕ
url_char v =
    if ltb v 26
    then b'A' + v
    else if ltb v 52
    then b'a' + (v - 26)
    else if ltb v 62
    then b'0' + (v - 52)
    else if v == 62
    then b'-'
    else b'_'

unfoldable pub b64url_encode : List ℕ → Text
unfolding url_char
b64url_encode [] = []
b64url_encode (a ∷ []) = url_char (a / 4) ∷ url_char (a % 4 * 16) ∷ []
b64url_encode (a ∷ b ∷ []) =
    url_char (a / 4) ∷ url_char (a % 4 * 16 + b / 16) ∷ url_char (b % 16 * 4) ∷ []
b64url_encode (a ∷ b ∷ c ∷ bs) =
    url_char (a / 4)
    ∷ url_char (a % 4 * 16 + b / 16)
    ∷ url_char (b % 16 * 4 + c / 64)
    ∷ url_char (c % 64)
    ∷ b64url_encode bs

abbrev pub is_byte : ℕ → Bool
is_byte b = ltb b 256

sextet-url_char : (v : ℕ) → v < 64 → sextet (url_safe_to_std (url_char v)) ≡ some v
unfolding sextet url_safe_to_std url_char
sextet-url_char v h = ground arith

url_char_no_padding : (v : ℕ) → v < 64 → (url_safe_to_std (url_char v) == b'=') ≡ false
unfolding url_safe_to_std url_char
url_char_no_padding v h = ground arith

abbrev std_char : ℕ → ℕ
std_char v = url_safe_to_std (url_char v)

step :
    (quad : Quad) (v : ℕ) (s : Text)
    → v < 64
    → b64decode quad (std_char v ∷ s) ≡ prefixed (emitted quad v) (b64decode (next_quad quad v) s)
step quad v s h =
    b64decode_cons quad (std_char v) s ∙ rw (url_char_no_padding v h, sextet-url_char v h) refl

-- Four characters are three bytes.
group :
    (v₁ v₂ v₃ v₄ : ℕ) (s : Text) (bs : List ℕ)
    → v₁ < 64
    → v₂ < 64
    → v₃ < 64
    → v₄ < 64
    → b64decode aligned s ≡ some bs
    → b64decode aligned (std_char v₁ ∷ std_char v₂ ∷ std_char v₃ ∷ std_char v₄ ∷ s)
      ≡ some ((v₁ * 4 + v₂ / 16) ∷ (v₂ % 16 * 16 + v₃ / 4) ∷ (v₃ % 4 * 64 + v₄) ∷ bs)
group v₁ v₂ v₃ v₄ s bs h₁ h₂ h₃ h₄ e =
    rw
      (
        step aligned v₁ (std_char v₂ ∷ std_char v₃ ∷ std_char v₄ ∷ s) h₁,
        step (one v₁) v₂ (std_char v₃ ∷ std_char v₄ ∷ s) h₂,
        step (two (v₂ % 16)) v₃ (std_char v₄ ∷ s) h₃,
        step (three (v₃ % 4)) v₄ s h₄,
        e,
      )
      refl

abbrev Decodes : Text → List ℕ → Type 0
Decodes s bs = b64decode aligned (map url_safe_to_std s ++ padding (length s)) ≡ some bs

padding_period : (n : ℕ) → padding (suc (suc (suc (suc n)))) ≡ padding n
unfolding padding
padding_period n = let e : suc (suc (suc (suc n))) % 4 ≡ n % 4 = omega arith in rw e refl

last_one :
    (v₁ v₂ : ℕ)
    → v₁ < 64
    → v₂ < 64
    → b64decode aligned (std_char v₁ ∷ std_char v₂ ∷ b'=' ∷ b'=' ∷ [])
      ≡ some ((v₁ * 4 + v₂ / 16) ∷ [])
unfolding b64decode
last_one v₁ v₂ h₁ h₂ =
    step aligned v₁ (std_char v₂ ∷ b'=' ∷ b'=' ∷ []) h₁
    ∙ rw (step (one v₁) v₂ (b'=' ∷ b'=' ∷ []) h₂) refl

last_two :
    (v₁ v₂ v₃ : ℕ)
    → v₁ < 64
    → v₂ < 64
    → v₃ < 64
    → b64decode aligned (std_char v₁ ∷ std_char v₂ ∷ std_char v₃ ∷ b'=' ∷ [])
      ≡ some ((v₁ * 4 + v₂ / 16) ∷ (v₂ % 16 * 16 + v₃ / 4) ∷ [])
unfolding b64decode
last_two v₁ v₂ v₃ h₁ h₂ h₃ =
    step aligned v₁ (std_char v₂ ∷ std_char v₃ ∷ b'=' ∷ []) h₁
    ∙ rw (step (one v₁) v₂ (std_char v₃ ∷ b'=' ∷ []) h₂)
        (rw (step (two (v₂ % 16)) v₃ (b'=' ∷ []) h₃) refl)

nothing : b64decode aligned [] ≡ some []
unfolding b64decode
nothing = refl

below : (b : ℕ) → is_byte b ≡ true → b < 256
below b h = ground arith

three_bytes :
    (a b c : ℕ) (bs : List ℕ)
    → a < 256
    → b < 256
    → c < 256
    → ◌≡◌ {A = Option (List ℕ)}
        (some (
          (a / 4 * 4 + (a % 4 * 16 + b / 16) / 16)
          ∷ ((a % 4 * 16 + b / 16) % 16 * 16 + (b % 16 * 4 + c / 64) / 4)
          ∷ ((b % 16 * 4 + c / 64) % 4 * 64 + c % 64)
          ∷ bs))
        (some (a ∷ b ∷ c ∷ bs))
three_bytes a b c bs ha hb hc =
    let e₁ : a / 4 * 4 + (a % 4 * 16 + b / 16) / 16 ≡ a = omega arith in
    let e₂ : (a % 4 * 16 + b / 16) % 16 * 16 + (b % 16 * 4 + c / 64) / 4 ≡ b = omega arith in
    let e₃ : (b % 16 * 4 + c / 64) % 4 * 64 + c % 64 ≡ c = omega arith in
    λ i. some (e₁ i ∷ e₂ i ∷ e₃ i ∷ bs)

b64url_encode-Decodes : (bs : List ℕ) → all is_byte bs ≡ true → Decodes (b64url_encode bs) bs
unfolding b64url_encode padding
b64url_encode-Decodes [] h = nothing
b64url_encode-Decodes (a ∷ []) h =
    let small : a < 256 = ground arith in
    let e : a / 4 * 4 + a % 4 * 16 / 16 ≡ a = omega arith in
    last_one (a / 4) (a % 4 * 16) (omega arith) (omega arith) ∙ ap (λ x. some (x ∷ [])) e
b64url_encode-Decodes (a ∷ b ∷ []) h =
    let small_a : a < 256 = ground arith in
    let small_b : b < 256 = ground arith in
    let e : a / 4 * 4 + (a % 4 * 16 + b / 16) / 16 ≡ a = omega arith in
    let d : (a % 4 * 16 + b / 16) % 16 * 16 + b % 16 * 4 / 4 ≡ b = omega arith in
    last_two (a / 4) (a % 4 * 16 + b / 16) (b % 16 * 4) (omega arith) (omega arith) (omega arith)
    ∙ ap (λ x. some (x ∷ ((a % 4 * 16 + b / 16) % 16 * 16 + b % 16 * 4 / 4) ∷ [])) e
    ∙ ap (λ x. some (a ∷ x ∷ [])) d
b64url_encode-Decodes (a ∷ b ∷ c ∷ bs) h =
    let rest = map url_safe_to_std (b64url_encode bs) ++ padding (length (b64url_encode bs)) in
    let (ha, h₁) = &&-eq-true (is_byte a) (is_byte b && (is_byte c && all is_byte bs)) h in
    let (hb, h₂) = &&-eq-true (is_byte b) (is_byte c && all is_byte bs) h₁ in
    let (hc, h₃) = &&-eq-true (is_byte c) (all is_byte bs) h₂ in
    rw (padding_period (length (b64url_encode bs))) (
      group (a / 4) (a % 4 * 16 + b / 16) (b % 16 * 4 + c / 64) (c % 64) rest bs
        (omega (arith, below a ha)) (omega (arith, below b hb)) (omega (arith, below c hc))
        (omega arith) (b64url_encode-Decodes bs h₃)
      ∙ three_bytes a b c bs (below a ha) (below b hb) (below c hc))

-- Bytes that are written in base64url without padding are read back.
pub b64url_decode-b64url_encode :
    (bs : List ℕ) → all is_byte bs ≡ true → b64url_decode (b64url_encode bs) ≡ bs
unfolding b64url_decode
b64url_decode-b64url_encode bs h = ap or_empty (b64url_encode-Decodes bs h)
