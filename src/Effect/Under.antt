-- ===== src/Effect/Under.antt =====
-- What holds at the end of every run whose answers meet a condition.
use dbsc_python.Exceptions.{Result}
use dbsc_python.Effect.{Call, Answer, Program, done, call}
use dbsc_python.Effect.Ensures.{History}
use dbsc_python.Base.{◌∷◌}

-- `F c a`: the call `c` may be answered by `a`.
abbrev pub Under :
    {A : Type 0}
    → ((c : Call) → Answer c → Type 0)
    → (Result A → History → Type 0)
    → Program A
    → History
    → Type 0
Under F Q (done r) h = Q r h
Under F Q (call c k) h = (a : Answer c) → F c a → Under F Q (k a) ((c, a) ∷ h)
