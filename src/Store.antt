-- ===== src/Store.antt =====
-- src/dbsc/store.py: the contract that the class comment of `Store` states, over an abstract view
-- of what is stored under each session id.
pub mod Memory
use dbsc_python.Base.{ℕ, ◌≡◌, ◌≢◌, ◌⊎◌, Option, none, some, Bool, true, false, if◌then◌else◌}
use dbsc_python.Base.Int.{ℤ, ◌≤ℤ◌}
use dbsc_python.Base.Text.{Text, text_eq}
use dbsc_python.Exceptions.{Exception, Result, ok, raise, corrupt_state_error}
use dbsc_python.Pending.{PendingRegistration}
use dbsc_python.Binding.{Binding}
use dbsc_python.Effect.{
  StoreCall, StoreAnswer, put_pending_registration, get_pending_registration,
  delete_pending_registration, put_binding, get_binding, delete, commit_registration,
  replace_binding,
}

-- A record, none, or one that cannot be read.
pub data Slot (A : Type 0) : Type 0 where
  absent unreadable : Slot A
  present : A → Slot A

pub record View : Type 0 where
  pub pending : Text → Slot PendingRegistration
  pub binding : Text → Slot Binding

abbrev pub update : {A : Type 0} → (Text → A) → Text → A → Text → A
update f sid x s = if text_eq sid s then x else f s

abbrev pub with_pending : View → Text → Slot PendingRegistration → View
with_pending v sid x = record v { pending = update v.pending sid x }

abbrev pub with_binding : View → Text → Slot Binding → View
with_binding v sid x = record v { binding = update v.binding sid x }

-- The answer of a read of a slot.
pub data Reads {A : Type 0} : Slot A → Result (Option A) → Type 0 where
  found : (a : A) → Reads (present a) (ok (some a))
  missing : Reads absent (ok none)
  corrupt : (e : Exception) → e.kind ≡ corrupt_state_error → Reads unreadable (raise e)

-- The answer of a conditional write that expects `a` in a slot.
pub data Compares {A : Type 0} (a : A) (x : Slot A) : Result (Bool) → Type 0 where
  same : x ≡ present a → Compares a x (ok true)
  differs : x ≢ present a → x ≢ unreadable → Compares a x (ok false)
  corrupt : (e : Exception) → x ≡ unreadable → e.kind ≡ corrupt_state_error → Compares a x (raise e)

-- What a call does to the view, given its answer: one indivisible operation.
abbrev pub after : (c : StoreCall) → StoreAnswer c → View → View
after (put_pending_registration sid p) a v = with_pending v sid (present p)
after (get_pending_registration sid) a v = v
after (delete_pending_registration sid) a v = with_pending v sid absent
after (put_binding sid b) a v = with_binding v sid (present b)
after (get_binding sid) a v = v
after (delete sid) a v = with_pending (with_binding v sid absent) sid absent
after (commit_registration sid offer b) (ok true) v =
    with_pending (with_binding v sid (present b)) sid absent
after (commit_registration sid offer b) a v = v
after (replace_binding sid expected new) (ok true) v = with_binding v sid (present new)
after (replace_binding sid expected new) a v = v

-- The answers that the contract allows at a view.
abbrev pub Answers : (c : StoreCall) → StoreAnswer c → View → Type 0
Answers (get_pending_registration sid) a v = Reads (v.pending sid) a
Answers (get_binding sid) a v = Reads (v.binding sid) a
Answers (commit_registration sid offer b) a v = Compares offer (v.pending sid) a
Answers (replace_binding sid expected new) a v = Compares expected (v.binding sid) a
Answers _ a v = Unit

-- Records expire.
pub record Fades (v v' : View) : Type 0 where
  pub pending : (sid : Text) → (v'.pending sid ≡ v.pending sid) ⊎ (v'.pending sid ≡ absent)
  pub binding : (sid : Text) → (v'.binding sid ≡ v.binding sid) ⊎ (v'.binding sid ≡ absent)

-- An implementation. A call reads the clock some times, `clock` being its readings in order, and
-- acts on what has not expired at the first.
pub record Store : Type 1 where
  pub State : Type 0
  -- the calls whose records can be written
  pub Storable : StoreCall → Type 0
  pub perform : (ℕ → ℤ) → (c : StoreCall) → State → StoreAnswer c × State
  pub view_at : ℤ → State → View
  pub fades : (t t' : ℤ) (s : State) → t ≤ℤ t' → Fades (view_at t s) (view_at t' s)
  pub acts :
      (clock : ℕ → ℤ) (c : StoreCall) (s : State)
      → clock 0 ≤ℤ clock 1
      → Storable c
      → Answers c (perform clock c s).0 (view_at (clock 0) s)
        × (view_at (clock 0) (perform clock c s).1
            ≡ after c (perform clock c s).0 (view_at (clock 0) s))
