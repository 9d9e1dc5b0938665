-- ===== src/Regex/Sound.antt =====
-- `fullmatch` accepts exactly the texts that the pattern describes.
use dbsc_python.Base.{
  ℕ, ◌≡◌, refl, sym, ap, ◌∙◌, ◌↔◌, ◌⊎◌, inl, inr, Bool, true, false, ◌&&◌, ◌||◌, [], ◌∷◌, arith,
  if◌then◌else◌,
}
use dbsc_python.Base.Text.{Text}
use dbsc_python.Regex.{
  Regex, never, empty, one, sequence, either, many, Matches, nothing, char, both, left, right, stop,
  again,
}
use dbsc_python.Regex.Derivative.{nullable, derivative, fullmatch}

&&-split : (a b : Bool) → (a && b) ≡ true → (a ≡ true) × (b ≡ true)
&&-split a b h = ground arith

||-split : (a b : Bool) → (a || b) ≡ true → (a ≡ true) ⊎ (b ≡ true)
||-split true b h = inl refl
||-split false b h = inr h

nullable→Matches : (r : Regex) → nullable r ≡ true → Matches r []
unfolding nullable
nullable→Matches never h = absurd (cc)
nullable→Matches empty h = nothing
nullable→Matches (one p) h = absurd (cc)
nullable→Matches (sequence r q) h =
    let (a, b) = &&-split (nullable r) (nullable q) h in
    both [] [] (nullable→Matches r a) (nullable→Matches q b) refl
nullable→Matches (either r q) h = elim (||-split (nullable r) (nullable q) h) [
  | inl a ↦ left (nullable→Matches r a)
  | inr b ↦ right (nullable→Matches q b)
]
nullable→Matches (many r) h = stop

Matches→nullable : {r : Regex} {w : Text} → Matches r w → w ≡ [] → nullable r ≡ true
unfolding nullable
Matches→nullable nothing e = refl
Matches→nullable (char p c h) e = absurd (cc)
Matches→nullable (both [] t m n w) e = rw (Matches→nullable m refl, Matches→nullable n (cc))
Matches→nullable (both (c ∷ s) t m n w) e = absurd (cc)
Matches→nullable (left m) e = ground (arith, Matches→nullable m e)
Matches→nullable (right m) e = ground (arith, Matches→nullable m e)
Matches→nullable stop e = refl
Matches→nullable (again c s t m n w) e = absurd (cc)

one-Matches :
    (p : ℕ → Bool) (c : ℕ) (b : Bool) (s : Text)
    → p c ≡ b
    → Matches (if b then empty else never) s
    → Matches (one p) (c ∷ s)
one-Matches p c true [] h nothing = char p c h
one-Matches p c true (d ∷ s) h m = elim m [ ]
one-Matches p c false s h m = elim m [ ]

if-Matches :
    (r : Regex) (b : Bool) (s : Text)
    → Matches (if b then r else never) s
    → (b ≡ true) × Matches r s
if-Matches r true s m = (refl, m)
if-Matches r false s m = elim m [ ]

derivative→Matches : (c : ℕ) (r : Regex) (s : Text) → Matches (derivative c r) s → Matches r (c ∷ s)
unfolding derivative
derivative→Matches c never s m = elim m [ ]
derivative→Matches c empty s m = elim m [ ]
derivative→Matches c (one p) s m = one-Matches p c (p c) s refl m
derivative→Matches c (sequence r q) s (left (both a t m n e)) =
    both (c ∷ a) t (derivative→Matches c r a m) n (ap (λ x. c ∷ x) e)
derivative→Matches c (sequence r q) s (right m) =
    let (null, rest) = if-Matches (derivative c q) (nullable r) s m in
    both [] (c ∷ s) (nullable→Matches r null) (derivative→Matches c q s rest) refl
derivative→Matches c (either r q) s (left m) = left (derivative→Matches c r s m)
derivative→Matches c (either r q) s (right m) = right (derivative→Matches c q s m)
derivative→Matches c (many r) s (both a t m n e) =
    again c a t (derivative→Matches c r a m) n (ap (λ x. c ∷ x) e)

if-true :
    (r : Regex) (b : Bool) (s : Text) → b ≡ true → Matches r s → Matches (if b then r else never) s
if-true r true s h m = m
if-true r false s h m = absurd (cc)

tail_eq : {c d : ℕ} {s t : Text} → c ∷ s ≡ d ∷ t → s ≡ t
tail_eq e = cc

head_eq : {c d : ℕ} {s t : Text} → c ∷ s ≡ d ∷ t → c ≡ d
head_eq e = cc

Matches→derivative :
    (c : ℕ) {r : Regex} {w : Text} (s : Text) → Matches r w → w ≡ c ∷ s → Matches (derivative c r) s
unfolding derivative
Matches→derivative c s nothing e = absurd (cc)
Matches→derivative c s (char p d h) e = rw (sym (head_eq e), h, sym (tail_eq e)) nothing
Matches→derivative c s (both {r} {q} [] t m n w) e = right (
    if-true (derivative c q) (nullable r) s (Matches→nullable m refl)
      (Matches→derivative c s n (sym w ∙ e)))
Matches→derivative c s (both (d ∷ a) t m n w) e = left (
    both a t (Matches→derivative c a m (ap (λ x. x ∷ a) (head_eq (sym w ∙ e)))) n
      (sym (tail_eq (sym w ∙ e))))
Matches→derivative c s (left m) e = left (Matches→derivative c s m e)
Matches→derivative c s (right m) e = right (Matches→derivative c s m e)
Matches→derivative c s stop e = absurd (cc)
Matches→derivative c s (again d a t m n w) e =
    both a t (Matches→derivative c a m (ap (λ x. x ∷ a) (head_eq (sym w ∙ e)))) n
      (sym (tail_eq (sym w ∙ e)))

-- `fullmatch` accepts exactly the texts that the pattern describes.
pub fullmatch_iff : (r : Regex) (s : Text) → (fullmatch r s ≡ true) ↔ Matches r s
unfolding fullmatch
fullmatch_iff r [] = (nullable→Matches r, λ m. Matches→nullable m refl)
fullmatch_iff r (c ∷ s) = (
  λ h. derivative→Matches c r s ((fullmatch_iff (derivative c r) s).0 h),
  λ m. (fullmatch_iff (derivative c r) s).1 (Matches→derivative c s m refl),
)
