-- ===== src/Encoding/Injective.antt =====
-- `constant_time_equals` decides equality wherever both texts can be encoded.
use dbsc_python.Base.{
  ℕ, ◌<◌, Bool, all, &&-eq-true, ◌≡◌, ◌⊎◌, inl, inr, true, some, List, [], ◌∷◌, ◌++◌, none,
  Option-cases, arith, ◌↔◌, refl, sym, ap, ◌∙◌,
}
use dbsc_python.Base.Text.{Text, codes, text_eq, text_eq_iff}
use dbsc_python.Exceptions.{ok, raise, unicode_encode_error, Exception}
use dbsc_python.Encoding.{encode_char, encode?, constant_time_equals}

-- Two texts that begin with the same bytes begin with the same character.
encode_char-cancel :
    (c d : ℕ) (x y u v : List ℕ)
    → encode_char c ≡ some x
    → encode_char d ≡ some y
    → x ++ u ≡ y ++ v
    → (c ≡ d) × (u ≡ v)
unfolding encode_char
encode_char-cancel c d x y u v p q e = ground arith

encode_char-ne-nil : (c : ℕ) (x u : List ℕ) → encode_char c ≡ some x → x ++ u ≡ [] → ⊥
unfolding encode_char
encode_char-ne-nil c x u p e = ground arith

encode?-cons :
    (c : ℕ) (s : Text) {b : List ℕ}
    → encode? (c ∷ s) ≡ some b
    → (x : List ℕ) × (u : List ℕ) × (encode_char c ≡ some x) × (encode? s ≡ some u) × (b ≡ x ++ u)
unfolding encode?
encode?-cons c s h = elim (Option-cases (encode_char c)) [
  | inl p ↦ absurd (ground arith)
  | inr (x, p) ↦ elim (Option-cases (encode? s)) [
    | inl q ↦ absurd (ground arith)
    | inr (u, q) ↦ (x, u, p, q, ground arith)
  ]
]

encode?-nil : {b : List ℕ} → encode? [] ≡ some b → b ≡ []
unfolding encode?
encode?-nil h = ground arith

encode?-injective : (s t : Text) {b : List ℕ} → encode? s ≡ some b → encode? t ≡ some b → s ≡ t
encode?-injective [] [] h k = refl
encode?-injective [] (d ∷ t) h k =
    let (y, v, q, _, f) = encode?-cons d t k in
    absurd (encode_char-ne-nil d y v q (sym f ∙ encode?-nil h))
encode?-injective (c ∷ s) [] h k =
    let (x, u, p, _, e) = encode?-cons c s h in
    absurd (encode_char-ne-nil c x u p (sym e ∙ encode?-nil k))
encode?-injective (c ∷ s) (d ∷ t) h k =
    let (x, u, p, p', e) = encode?-cons c s h in
    let (y, v, q, q', f) = encode?-cons d t k in
    let (same, rest) = encode_char-cancel c d x y u v p q (sym e ∙ f) in
    cc (same, encode?-injective s t p' (q' ∙ ap some (sym rest)))

-- The texts that can be encoded: those without a lone surrogate.
abbrev pub IsEncodable : Text → Type 0
IsEncodable s = (b : List ℕ) × (encode? s ≡ some b)

pub constant_time_equals_sound : (s t : Text) → constant_time_equals s t ≡ ok true → s ≡ t
unfolding constant_time_equals
constant_time_equals_sound s t h = elim (Option-cases (encode? s)) [
  | inl p ↦ absurd (ground arith)
  | inr (a, p) ↦ elim (Option-cases (encode? t)) [
    | inl q ↦ absurd (ground arith)
    | inr (b, q) ↦ encode?-injective s t p (q ∙ ap some (sym ((text_eq_iff a b).0 (ground arith))))
  ]
]

some_inj : {a b : List ℕ} → some a ≡ some b → a ≡ b
some_inj e = cc

text_eq-eq : (a b s t : Text) → (a ≡ b) ↔ (s ≡ t) → text_eq a b ≡ text_eq s t
text_eq-eq a b s t e = ground (arith, text_eq_iff a b, text_eq_iff s t)

-- On texts that can be encoded the constant-time comparison is equality of the texts.
pub constant_time_equals-eq-text_eq :
    (s t : Text) → IsEncodable s → IsEncodable t → constant_time_equals s t ≡ ok (text_eq s t)
unfolding constant_time_equals
constant_time_equals-eq-text_eq s t (a, p) (b, q) =
    rw (p, q)
      (ap ok (
        text_eq-eq a b s t (
          λ e. encode?-injective s t p (q ∙ ap some (sym e)),
          λ e. some_inj (sym p ∙ ap encode? e ∙ q),
        )))

abbrev surrogate_error : Exception
surrogate_error = record { kind = unicode_encode_error; message = codes "surrogates not allowed" }

-- A lone surrogate on either side raises `UnicodeEncodeError`.
pub constant_time_equals-surrogate :
    (s t : Text)
    → (encode? s ≡ none) ⊎ (encode? t ≡ none)
    → (e : Exception) × (constant_time_equals s t ≡ raise e) × (e.kind ≡ unicode_encode_error)
unfolding constant_time_equals
constant_time_equals-surrogate s t h = (surrogate_error, ground arith, refl)

-- The comparison raises nothing else.
pub constant_time_equals-eq-raise :
    (s t : Text) (e : Exception)
    → constant_time_equals s t ≡ raise e
    → e.kind ≡ unicode_encode_error
unfolding constant_time_equals
constant_time_equals-eq-raise s t e h = ground arith

-- ASCII text can be encoded.
pub ascii-IsEncodable :
    (p : ℕ → Bool) (s : Text) → ((c : ℕ) → p c ≡ true → c < 128) → all p s ≡ true → IsEncodable s
unfolding encode? encode_char
ascii-IsEncodable p [] small h = ([], refl)
ascii-IsEncodable p (c ∷ s) small h =
    let (here, later) = &&-eq-true (p c) (all p s) h in
    let (b, e) = ascii-IsEncodable p s small later in (c ∷ b, ground (arith, small c here))
