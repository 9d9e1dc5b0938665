-- ===== src/Store/Memory.antt =====
-- `InMemoryStore` of src/dbsc/store.py. A method's readings of the clock are the argument `clock`,
-- in the order in which it makes them.
pub mod View
pub mod Calls
pub mod Contract
use dbsc_python.Base.{ℕ, Bool, true, false, Option, none, some, if◌then◌else◌}
use dbsc_python.Base.Int.{ℤ, ◌+ℤ◌, ltb_ℤ}
use dbsc_python.Base.Text.{Text}
use dbsc_python.Exceptions.{Result, ok, raise, ◌>>=◌}
use dbsc_python.Pending.{PendingRegistration, pending_eq}
use dbsc_python.Pending.Record as PendingRecord
use dbsc_python.Binding.{Binding, binding_eq}
use dbsc_python.Binding.Record as BindingRecord
use dbsc_python.Store.{update}
use dbsc_python.Effect.{
  StoreCall, StoreAnswer, put_pending_registration, get_pending_registration,
  delete_pending_registration, put_binding, get_binding, delete, commit_registration,
  replace_binding,
}

-- dict[str, tuple[str, int]]: the stored text and when it expires.
abbrev pub Bucket : Type 0
Bucket = Text → Option (Text × ℤ)

pub record InMemoryStore : Type 0 where
  pub challenge_ttl_seconds : ℤ
  pub session_lifetime_seconds : ℤ
  pub reg : Bucket
  pub bind : Bucket

-- The constructor.
abbrev pub in_memory_store : ℤ → ℤ → InMemoryStore
in_memory_store challenge_ttl_seconds session_lifetime_seconds = record {
  challenge_ttl_seconds = challenge_ttl_seconds;
  session_lifetime_seconds = session_lifetime_seconds;
  reg = λ sid. none;
  bind = λ sid. none;
}

-- `_live`, of the entry found.
unfoldable pub live : Option (Text × ℤ) → ℤ → Option Text
live none now = none
live (some (value, expires_at)) now = if ltb_ℤ expires_at now then none else some value

-- `None`, or the decoded record.
unfoldable pub decoded : {A : Type 0} → (Text → Result A) → Option Text → Result (Option A)
decoded from_json none = ok none
decoded from_json (some raw) = do a ← from_json raw; ok (some a)

-- not (raw is None or from_json(raw) != expected)
unfoldable pub still_equals :
    {A : Type 0} → (Text → Result A) → (A → A → Bool) → A → Option Text → Result Bool
still_equals from_json eq expected none = ok false
still_equals from_json eq expected (some raw) = do a ← from_json raw; ok (eq a expected)

-- A conditional write: its answer, and the store that it leaves.
abbrev pub written_if : Result Bool → InMemoryStore → InMemoryStore → Result Bool × InMemoryStore
written_if (ok true) written s = (ok true, written)
written_if (ok false) written s = (ok false, s)
written_if (raise e) written s = (raise e, s)

-- self._bind[session_id] = (binding.to_json(), self._now() + self._session_lifetime_seconds)
unfoldable pub bound_at : ℤ → Text → Binding → InMemoryStore → InMemoryStore
unfolding BindingRecord.to_json
bound_at now sid binding s = record s {
  bind =
      update s.bind sid (some (BindingRecord.to_json binding, now +ℤ s.session_lifetime_seconds));
}

abbrev pub offered_at : ℤ → Text → PendingRegistration → InMemoryStore → InMemoryStore
offered_at now sid pending s = record s {
  reg = update s.reg sid (some (PendingRecord.to_json pending, now +ℤ s.challenge_ttl_seconds));
}

module _ (depth : ℕ) (clock : ℕ → ℤ) where
  -- The methods, of which `commit_registration` and `replace_binding` read the clock twice when
  -- they write.
  unfoldable pub perform : (c : StoreCall) → InMemoryStore → StoreAnswer c × InMemoryStore
  unfolding bound_at live decoded still_equals PendingRecord.to_json PendingRecord.from_json
      BindingRecord.from_json pending_eq binding_eq
  perform (put_pending_registration sid pending) s = (tt, offered_at (clock 0) sid pending s)
  perform (get_pending_registration sid) s =
      (decoded (PendingRecord.from_json depth) (live (s.reg sid) (clock 0)), s)
  perform (delete_pending_registration sid) s = (tt, record s { reg = update s.reg sid none })
  perform (put_binding sid binding) s = (tt, bound_at (clock 0) sid binding s)
  perform (get_binding sid) s =
      (decoded (BindingRecord.from_json depth) (live (s.bind sid) (clock 0)), s)
  perform (delete sid) s =
      (tt, record s { bind = update s.bind sid none; reg = update s.reg sid none })
  perform (commit_registration sid offer binding) s =
      written_if
        (still_equals (PendingRecord.from_json depth) pending_eq offer (live (s.reg sid) (clock 0)))
        (bound_at (clock 1) sid binding (record s { reg = update s.reg sid none })) s
  perform (replace_binding sid expected new) s =
      written_if
        (still_equals (BindingRecord.from_json depth) binding_eq expected
          (live (s.bind sid) (clock 0)))
        (bound_at (clock 1) sid new s) s
