-- ===== src/Jwt/Base64/Ascii.antt =====
-- Texts that decode, and ASCII.
use dbsc_python.Base.{
  ℕ, ◌≡◌, ◌≢◌, refl, sym, ◌∙◌, ◌⊎◌, inl, inr, Bool, true, false, Option, none, some, List, [], ◌∷◌,
  ◌++◌, map, length, ◌==◌, all, all-append, arith, &&-eq-true, if◌then◌else◌,
}
use dbsc_python.Base.Text.{Text}
use dbsc_python.Encoding.{is_ascii}
use dbsc_python.Jwt.Base64.{
  sextet, Quad, aligned, one, two, three, padded_end, b64decode, url_safe_to_std, padding,
  b64url_decode, emitted, next_quad, prefixed, or_empty,
}

sextet-ascii : (c v : ℕ) → sextet c ≡ some v → is_ascii c ≡ true
unfolding sextet
sextet-ascii c v h = ground arith

padded_end-ascii :
    (quad : Quad) (s : Text) (bs : List ℕ) → padded_end quad s ≡ some bs → all is_ascii s ≡ true
unfolding padded_end
padded_end-ascii (two left) (c ∷ []) bs h = ground arith
padded_end-ascii (two left) (c ∷ d ∷ s) bs h = absurd (cc)
padded_end-ascii (two left) [] bs h = refl
padded_end-ascii (three left) [] bs h = refl
padded_end-ascii (three left) (c ∷ s) bs h = absurd (cc)
padded_end-ascii aligned s bs h = absurd (cc)
padded_end-ascii (one left) s bs h = absurd (cc)

prefixed-some :
    (bs : List ℕ) (o : Option (List ℕ)) (out : List ℕ)
    → prefixed bs o ≡ some out
    → (rest : List ℕ) × (o ≡ some rest)
prefixed-some bs none out h = absurd (cc)
prefixed-some bs (some rest) out h = (rest, refl)

abbrev pub decoded_by : Quad → Text → Option ℕ → Option (List ℕ)
decoded_by quad s none = none
decoded_by quad s (some v) = prefixed (emitted quad v) (b64decode (next_quad quad v) s)

decoded_by-some :
    (quad : Quad) (s : Text) (o : Option ℕ) (out : List ℕ)
    → decoded_by quad s o ≡ some out
    → (v : ℕ) × (o ≡ some v) × (rest : List ℕ) × (b64decode (next_quad quad v) s ≡ some rest)
decoded_by-some quad s none out h = absurd (cc)
decoded_by-some quad s (some v) out h =
    let (rest, e) = prefixed-some (emitted quad v) _ out h in (v, refl, rest, e)

-- A text that starts with a character: it is padding, or a sextet and what follows.
pub b64decode_cons :
    (quad : Quad) (c : ℕ) (s : Text)
    → b64decode quad (c ∷ s)
      ≡ (if c == b'=' then padded_end quad s else decoded_by quad s (sextet c))
unfolding b64decode
b64decode_cons aligned c s = refl
b64decode_cons (one left) c s = refl
b64decode_cons (two left) c s = refl
b64decode_cons (three left) c s = refl

if_cases :
    {A : Type 0} (b : Bool) (x y z : A)
    → (if b then x else y) ≡ z
    → ((b ≡ true) × (x ≡ z)) ⊎ ((b ≡ false) × (y ≡ z))
if_cases true x y z h = inl (refl, h)
if_cases false x y z h = inr (refl, h)

b64decode-ascii :
    (quad : Quad) (s : Text) (out : List ℕ) → b64decode quad s ≡ some out → all is_ascii s ≡ true
b64decode-ascii quad [] out h = refl
b64decode-ascii quad (c ∷ s) out h =
    elim (if_cases (c == b'=') _ _ _ (sym (b64decode_cons quad c s) ∙ h)) [
      | inl (e, k) ↦ ground (arith, padded_end-ascii quad s out k)
      | inr (e, k) ↦
          let (v, p, rest, q) = decoded_by-some quad s (sextet c) out k in
          ground (arith, sextet-ascii c v p, b64decode-ascii (next_quad quad v) s rest q)
    ]

url_safe_to_std-ascii : (c : ℕ) → is_ascii (url_safe_to_std c) ≡ true → is_ascii c ≡ true
unfolding url_safe_to_std
url_safe_to_std-ascii c h = ground arith

map-ascii : (s : Text) → all is_ascii (map url_safe_to_std s) ≡ true → all is_ascii s ≡ true
map-ascii [] h = refl
map-ascii (c ∷ s) h = ground (arith, url_safe_to_std-ascii c, map-ascii s)

-- What does not decode to nothing is ASCII.
pub b64url_decode-ascii : (s : Text) → b64url_decode s ≢ [] → all is_ascii s ≡ true
unfolding b64url_decode
b64url_decode-ascii s h =
    decoded (b64decode aligned (map url_safe_to_std s ++ padding (length s))) refl h
  where
    decoded :
        (o : Option (List ℕ))
        → b64decode aligned (map url_safe_to_std s ++ padding (length s)) ≡ o
        → or_empty o ≢ []
        → all is_ascii s ≡ true
    decoded none e k = absurd (k refl)
    decoded (some bs) e k =
        map-ascii s
          (&&-eq-true (all is_ascii (map url_safe_to_std s)) (all is_ascii (padding (length s))) (
            sym (all-append is_ascii (map url_safe_to_std s) (padding (length s)))
            ∙ b64decode-ascii aligned (map url_safe_to_std s ++ padding (length s)) bs e)).0
