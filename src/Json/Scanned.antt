-- ===== src/Json/Scanned.antt =====
-- The outcome of reading a text: a value, a refusal (`ValueError` or `RecursionError`), or no more
-- fuel, which the code has no counterpart of.
use dbsc_python.Base.{◌≡◌, ◌≢◌, refl, Bool, true, false, if◌then◌else◌}

pub data Scanned (A : Type 0) : Type 0 where
  got : A → Scanned A
  malformed out_of_fuel : Scanned A

infixl 5 ◌>>=◌
abbrev pub ◌>>=◌ : {A B : Type 0} → Scanned A → (A → Scanned B) → Scanned B
got a >>= next = next a
malformed >>= next = malformed
out_of_fuel >>= next = out_of_fuel

-- The fuel was enough, and what was got satisfies `P`.
pub data Within {A : Type 0} (P : A → Type 0) : Scanned A → Type 0 where
  reads : (a : A) → P a → Within P (got a)
  refuses : Within P malformed

pub Within-ne-out_of_fuel :
    {A : Type 0} {P : A → Type 0} {r : Scanned A} → Within P r → r ≢ out_of_fuel
Within-ne-out_of_fuel (reads a h) = cc
Within-ne-out_of_fuel refuses = cc

pub Within-bind :
    {A B : Type 0} {P : A → Type 0} {Q : B → Type 0} {m : Scanned A} {next : A → Scanned B}
    → Within P m
    → ((a : A) → P a → Within Q (next a))
    → Within Q (m >>= next)
Within-bind (reads a h) k = k a h
Within-bind refuses k = refuses

pub Within-if :
    {A : Type 0} {P : A → Type 0} (b : Bool) {m n : Scanned A}
    → (b ≡ true → Within P m)
    → (b ≡ false → Within P n)
    → Within P (if b then m else n)
Within-if true yes_case no_case = yes_case refl
Within-if false yes_case no_case = no_case refl

pub Within-weaken :
    {A : Type 0} {P Q : A → Type 0} {m : Scanned A}
    → Within P m
    → ((a : A) → P a → Q a)
    → Within Q m
Within-weaken (reads a h) k = reads a (k a h)
Within-weaken refuses k = refuses
