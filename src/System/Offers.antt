-- ===== src/System/Offers.antt =====
-- The offers made to a session, and the registrations committed on them.
use dbsc_python.Base.{ℕ, ◌+◌, ◌≤◌, ◌≡◌, ◌⊎◌, inl, inr, [], ◌∷◌, true, false, arith, if◌then◌else◌}
use dbsc_python.Base.Text.{Text, text_eq, text_eq_iff}
use dbsc_python.Exceptions.{ok, raise}
use dbsc_python.Pending.{PendingRegistration}
use dbsc_python.Response.{DbscResponse}
use dbsc_python.Effect.{
  Call, Answer, store, clock, token_bytes, audit, Program, put_pending_registration,
  get_pending_registration, delete_pending_registration, put_binding, get_binding, delete,
  commit_registration, replace_binding,
}
use dbsc_python.Effect.Ensures.{History}
use dbsc_python.Store.{View, Slot, absent, same}
use dbsc_python.System.{System, Permits, effect, Step, advance, arrive, expire, Reach, here, next}

module _ (sid : Text) where
  abbrev pub made : (c : Call) → Answer c → ℕ
  made (store (put_pending_registration s p)) a = if text_eq s sid then 1 else 0
  made _ a = 0

  abbrev pub used : (c : Call) → Answer c → ℕ
  used (store (commit_registration s p b)) (ok true) = if text_eq s sid then 1 else 0
  used _ a = 0

  -- The offers made to the session, and the registrations committed on them.
  unfoldable pub offers : History → ℕ
  offers [] = 0
  offers ((c, a) ∷ h) = made c a + offers h

  unfoldable pub commits : History → ℕ
  commits [] = 0
  commits ((c, a) ∷ h) = used c a + commits h

  -- A stored record that is not absent counts as an offer that can still be used.
  abbrev pub open_offer : Slot PendingRegistration → ℕ
  open_offer absent = 0
  open_offer _ = 1

  -- The registrations that were or can still be committed are no more than the offers made.
  pub record IsBounded (s : System) : Type 0 where
    pub bound : commits s.events + open_offer (s.view.pending sid) ≤ offers s.events

  call-bound :
      (c : Call) (a : Answer c) (v : View)
      → Permits c a v
      → used c a + open_offer ((effect c a v).pending sid) ≤ made c a + open_offer (v.pending sid)
  call-bound (store (put_pending_registration s p)) a v m = ground arith
  call-bound (store (get_pending_registration s)) a v m = omega arith
  call-bound (store (delete_pending_registration s)) a v m = ground arith
  call-bound (store (put_binding s b)) a v m = omega arith
  call-bound (store (get_binding s)) a v m = omega arith
  call-bound (store (delete s)) a v m = ground arith
  call-bound (store (commit_registration s p b)) (ok true) v (same e) =
      ground (arith, text_eq_iff s sid)
  call-bound (store (commit_registration s p b)) (ok false) v m = omega arith
  call-bound (store (commit_registration s p b)) (raise e) v m = omega arith
  call-bound (store (replace_binding s b b')) (ok true) v m = omega arith
  call-bound (store (replace_binding s b b')) (ok false) v m = omega arith
  call-bound (store (replace_binding s b b')) (raise e) v m = omega arith
  call-bound clock a v m = omega arith
  call-bound (token_bytes n) a v m = omega arith
  call-bound (audit event message u) a v m = omega arith

  faded-le : (x y : Slot PendingRegistration) → (y ≡ x) ⊎ (y ≡ absent) → open_offer y ≤ open_offer x
  faded-le x y (inl e) = rw e (omega arith)
  faded-le x y (inr e) = rw e (omega arith)

  module _ (Serves : Program DbscResponse → Type 0) where
    Step-IsBounded : {s t : System} → IsBounded s → Step Serves s t → IsBounded t
    unfolding offers commits
    Step-IsBounded {s} i (advance n c k a at permits e) =
        rw e (record { bound = omega (arith, call-bound c a s.view permits, i.bound) })
    Step-IsBounded {s} i (arrive n r p at serves e) = rw e (record { bound = i.bound })
    Step-IsBounded {s} i (expire v fades e) =
        rw e (record { bound = omega (arith, faded-le _ _ (fades.pending sid), i.bound) })

    -- Over a store that keeps the contract, whatever programs run and however their calls
    -- interleave: if at the start the registrations committed in a session, and the offer still
    -- stored, are no more than the offers made to it, then so they are at every later moment.
    pub Reach-IsBounded : {s t : System} → IsBounded s → Reach Serves s t → IsBounded t
    Reach-IsBounded i here = i
    Reach-IsBounded i (next r st) = Step-IsBounded (Reach-IsBounded i r) st
