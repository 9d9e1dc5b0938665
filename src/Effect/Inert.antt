-- ===== src/Effect/Inert.antt =====
-- Runs that change nothing in the store.
use dbsc_python.Base.{true, [], ◌∷◌}
use dbsc_python.Exceptions.{ok}
use dbsc_python.Effect.{
  put_pending_registration, delete_pending_registration, put_binding, delete, commit_registration,
  replace_binding, Call, Answer, store,
}
use dbsc_python.Effect.Ensures.{History}

-- A call that has changed nothing in the store: a read, or a conditional write that was refused.
abbrev pub IsInert : (c : Call) → Answer c → Type 0
IsInert (store (put_pending_registration s p)) a = ⊥
IsInert (store (delete_pending_registration s)) a = ⊥
IsInert (store (put_binding s b)) a = ⊥
IsInert (store (delete s)) a = ⊥
IsInert (store (commit_registration s p b)) (ok true) = ⊥
IsInert (store (replace_binding s b b')) (ok true) = ⊥
IsInert _ _ = Unit

abbrev pub AllInert : History → Type 0
AllInert [] = Unit
AllInert ((c, a) ∷ h) = IsInert c a × AllInert h
