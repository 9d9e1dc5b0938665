-- ===== src/Base/Text.antt =====
-- Python's `str`: a list of code points, lone surrogates included.
use Prim.Native.Nat.{ℕ}
use Prim.Native.Char.{code}
use Prim.Native.String.{String}
use mathlib.Core.Path.{◌≡◌, refl}
use mathlib.Core.Logic.{◌↔◌}
use mathlib.Core.Bool.{Bool, true, false, ◌&&◌}
use mathlib.Core.List.{List, [], ◌∷◌}
use native.Mathlib.Omega.{arith}
use dbsc_python.Base.Tests.{◌==◌, ==_iff}

abbrev pub Text : Type 0
Text = List ℕ

-- The code points of a literal.
unfoldable pub codes : String → Text
codes String.[] = []
codes (String.◌∷◌ c s) = code c ∷ codes s

abbrev pub is_empty : Text → Bool
is_empty [] = true
is_empty (c ∷ s) = false

unfoldable pub text_eq : Text → Text → Bool
text_eq [] [] = true
text_eq (c ∷ s) (d ∷ t) = c == d && text_eq s t
text_eq _ _ = false

pub text_eq_iff : (s t : Text) → (text_eq s t ≡ true) ↔ (s ≡ t)
unfolding text_eq
text_eq_iff [] [] = (λ h. refl, λ h. refl)
text_eq_iff (c ∷ s) (d ∷ t) = ground (arith, ==_iff c d, text_eq_iff s t)
text_eq_iff [] (d ∷ t) = ground arith
text_eq_iff (c ∷ s) [] = ground arith

pub text_eq_self : (s : Text) → text_eq s s ≡ true
text_eq_self s = (text_eq_iff s s).1 refl
