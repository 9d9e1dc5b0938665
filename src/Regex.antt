-- ===== src/Regex.antt =====
-- `re` as src/dbsc/_validate.py uses it: `fullmatch` of patterns without groups to capture.
pub mod Derivative
pub mod Sound
use dbsc_python.Base.{ℕ, zero, suc, ◌≡◌, Bool, true, List, [], ◌∷◌, ◌++◌, ◌==◌}
use dbsc_python.Base.Text.{Text}

-- `never` matches nothing and `empty` the empty text; `one` is a class of characters.
pub data Regex : Type 0 where
  never empty : Regex
  one : (ℕ → Bool) → Regex
  sequence either : Regex → Regex → Regex
  many : Regex → Regex

-- The texts that a pattern describes.
pub data Matches : Regex → Text → Type 0 where
  nothing : Matches empty []
  char : (p : ℕ → Bool) (c : ℕ) → p c ≡ true → Matches (one p) (c ∷ [])
  both :
      {r q : Regex} {w : Text} (s t : Text)
      → Matches r s
      → Matches q t
      → w ≡ s ++ t
      → Matches (sequence r q) w
  left : {r q : Regex} {s : Text} → Matches r s → Matches (either r q) s
  right : {r q : Regex} {s : Text} → Matches q s → Matches (either r q) s
  stop : {r : Regex} → Matches (many r) []
  again :
      {r : Regex} {w : Text} (c : ℕ) (s t : Text)
      → Matches r (c ∷ s)
      → Matches (many r) t
      → w ≡ c ∷ (s ++ t)
      → Matches (many r) w

-- r?
abbrev pub optional : Regex → Regex
optional r = either empty r

-- r{0,n}
abbrev pub upto : ℕ → Regex → Regex
upto zero r = empty
upto (suc n) r = optional (sequence r (upto n r))

-- A literal text.
abbrev pub literal : Text → Regex
literal [] = empty
literal (c ∷ s) = sequence (one (λ d. d == c)) (literal s)
