-- ===== src/Store/Memory/Contract.antt =====
-- The calls of the in-memory store (src/dbsc/store.py) against the contract of `Store`.
use dbsc_python.Base.{ℕ, ◌≤◌, ◌≡◌, refl, sym, arith, Bool, true, false, none}
use dbsc_python.Base.Int.{ℤ, pos, ◌+ℤ◌, ◌≤ℤ◌}
use dbsc_python.Base.Text.{Text}
use dbsc_python.Exceptions.{Exception, Result, ok, raise}
use dbsc_python.Pending.{PendingRegistration, pending_eq, IsValid as PendingIsValid}
use dbsc_python.Pending.Equality.{pending_eq_iff}
use dbsc_python.Pending.Record as PendingRecord
use dbsc_python.Pending.Stored as PendingStored
use dbsc_python.Binding.{Binding, binding_eq, IsValid as BindingIsValid}
use dbsc_python.Binding.Equality.{binding_eq_iff}
use dbsc_python.Binding.Record as BindingRecord
use dbsc_python.Binding.Stored as BindingStored
use dbsc_python.Effect.{
  StoreCall, put_pending_registration, get_pending_registration, delete_pending_registration,
  put_binding, get_binding, delete, commit_registration, replace_binding,
}
use dbsc_python.Store as Contract
use dbsc_python.Store.{Slot, View, absent, present, update, after, Answers, Compares}
use dbsc_python.Store.Memory.{InMemoryStore, Bucket, written_if, bound_at, offered_at, perform}
use dbsc_python.Store.Memory.View.{
  view_at, view_ext, slot_at, slot_at-live, apply-update, view_at-Fades,
}
use dbsc_python.Store.Memory.Calls.{decoded_live-Reads, still_equals_live-Compares, later}

-- Neither lifetime is negative, so that no record has expired when it is written.
pub record IsSound (s : InMemoryStore) : Type 0 where
  pub challenge_ttl : pos 0 ≤ℤ s.challenge_ttl_seconds
  pub session_lifetime : pos 0 ≤ℤ s.session_lifetime_seconds

-- The calls that write nothing, or a record that can be read back.
abbrev pub Storable : StoreCall → Type 0
Storable (put_pending_registration sid p) = PendingIsValid p × (PendingStored.is_storable p ≡ true)
Storable (put_binding sid b) = BindingIsValid b × (BindingStored.is_storable b ≡ true)
Storable (commit_registration sid offer b) = BindingIsValid b × (BindingStored.is_storable b ≡ true)
Storable (replace_binding sid expected new) =
    BindingIsValid new × (BindingStored.is_storable new ≡ true)
Storable _ = Unit

written_if-Compares :
    {A : Type 0} {a : A} {x : Slot A} (r : Result Bool) (w s : InMemoryStore)
    → Compares a x r
    → Compares a x (written_if r w s).0
written_if-Compares (ok true) w s compares = compares
written_if-Compares (ok false) w s compares = compares
written_if-Compares (raise e) w s compares = compares

module _ (depth : ℕ) (room : 1 ≤ depth) (clock : ℕ → ℤ) (s : InMemoryStore) where
  abbrev now : ℤ
  now = clock 0

  abbrev bindings : Bucket → Text → Slot Binding
  bindings bucket sid = slot_at (BindingRecord.from_json depth) now (bucket sid)

  abbrev offers : Bucket → Text → Slot PendingRegistration
  offers bucket sid = slot_at (PendingRecord.from_json depth) now (bucket sid)

  binding_written :
      (t : ℤ) (sid : Text) (b : Binding) (sid' : Text)
      → now ≤ℤ t
      → IsSound s
      → BindingIsValid b × (BindingStored.is_storable b ≡ true)
      → bindings (bound_at t sid b s).bind sid' ≡ update (bindings s.bind) sid (present b) sid'
  unfolding bound_at
  binding_written t sid b sid' h sound (v, k) =
      apply-update (slot_at (BindingRecord.from_json depth) now) s.bind sid _ (present b) sid' (
        slot_at-live (BindingRecord.from_json depth) now (t +ℤ s.session_lifetime_seconds)
          (BindingRecord.to_json b) b (later now t _ h sound.session_lifetime)
          (BindingStored.from_json-to_json b depth v k room))

  offer_written :
      (sid : Text) (p : PendingRegistration) (sid' : Text)
      → IsSound s
      → PendingIsValid p × (PendingStored.is_storable p ≡ true)
      → offers (offered_at now sid p s).reg sid' ≡ update (offers s.reg) sid (present p) sid'
  offer_written sid p sid' sound (v, k) =
      apply-update (slot_at (PendingRecord.from_json depth) now) s.reg sid _ (present p) sid' (
        slot_at-live (PendingRecord.from_json depth) now (now +ℤ s.challenge_ttl_seconds)
          (PendingRecord.to_json p) p (later now now _ (omega arith) sound.challenge_ttl)
          (PendingStored.from_json-to_json p depth v k room))

  binding_removed :
      (sid sid' : Text)
      → bindings (update s.bind sid none) sid' ≡ update (bindings s.bind) sid absent sid'
  binding_removed sid sid' =
      apply-update (slot_at (BindingRecord.from_json depth) now) s.bind sid none absent sid' refl

  offer_removed :
      (sid sid' : Text)
      → offers (update s.reg sid none) sid' ≡ update (offers s.reg) sid absent sid'
  offer_removed sid sid' =
      apply-update (slot_at (PendingRecord.from_json depth) now) s.reg sid none absent sid' refl

  module _ (sound : IsSound s) (h : clock 0 ≤ℤ clock 1) where
    -- What a conditional write leaves is what the contract says of its answer.
    written_if-view :
        (r : Result Bool) (w : InMemoryStore) (f : Result Bool → View)
        → f (ok true) ≡ view_at depth now w
        → f (ok false) ≡ view_at depth now s
        → ((e : Exception) → f (raise e) ≡ view_at depth now s)
        → view_at depth now (written_if r w s).1 ≡ f (written_if r w s).0
    written_if-view (ok true) w f did kept failed = sym did
    written_if-view (ok false) w f did kept failed = sym kept
    written_if-view (raise e) w f did kept failed = sym (failed e)

    perform-view :
        (c : StoreCall)
        → Storable c
        → view_at depth now (perform depth clock c s).1
          ≡ after c (perform depth clock c s).0 (view_at depth now s)
    unfolding perform bound_at
    perform-view (put_pending_registration sid p) k =
        view_ext (λ sid'. offer_written sid p sid' sound k) (λ sid'. refl)
    perform-view (get_pending_registration sid) k = refl
    perform-view (delete_pending_registration sid) k =
        view_ext (λ sid'. offer_removed sid sid') (λ sid'. refl)
    perform-view (put_binding sid b) k =
        view_ext (λ sid'. refl) (λ sid'. binding_written now sid b sid' (omega arith) sound k)
    perform-view (get_binding sid) k = refl
    perform-view (delete sid) k =
        view_ext (λ sid'. offer_removed sid sid') (λ sid'. binding_removed sid sid')
    perform-view (commit_registration sid offer b) k =
        written_if-view _ _ (λ a. after (commit_registration sid offer b) a (view_at depth now s))
          (sym (
            view_ext (λ sid'. offer_removed sid sid')
              (λ sid'. binding_written (clock 1) sid b sid' h sound k)))
          refl (λ e. refl)
    perform-view (replace_binding sid expected new) k =
        written_if-view _ _ (λ a. after (replace_binding sid expected new) a (view_at depth now s))
          (sym (view_ext (λ sid'. refl) (λ sid'. binding_written (clock 1) sid new sid' h sound k)))
          refl (λ e. refl)

  perform-Answers : (c : StoreCall) → Answers c (perform depth clock c s).0 (view_at depth now s)
  unfolding perform
  perform-Answers (put_pending_registration sid p) = tt
  perform-Answers (get_pending_registration sid) =
      decoded_live-Reads (PendingRecord.from_json depth) (PendingStored.from_json-IsRead depth) now
        (s.reg sid)
  perform-Answers (delete_pending_registration sid) = tt
  perform-Answers (put_binding sid b) = tt
  perform-Answers (get_binding sid) =
      decoded_live-Reads (BindingRecord.from_json depth) (BindingStored.from_json-IsRead depth) now
        (s.bind sid)
  perform-Answers (delete sid) = tt
  perform-Answers (commit_registration sid offer b) =
      written_if-Compares _ (bound_at (clock 1) sid b (record s { reg = update s.reg sid none })) s
        (still_equals_live-Compares pending_eq pending_eq_iff (PendingRecord.from_json depth) offer
          (PendingStored.from_json-IsRead depth) now (s.reg sid))
  perform-Answers (replace_binding sid expected new) =
      written_if-Compares _ (bound_at (clock 1) sid new s) s (
        still_equals_live-Compares binding_eq binding_eq_iff (BindingRecord.from_json depth)
          expected (BindingStored.from_json-IsRead depth) now (s.bind sid))

-- No call changes the lifetimes.
written_if-IsSound :
    (r : Result Bool) (w s : InMemoryStore) → IsSound w → IsSound s → IsSound (written_if r w s).1
written_if-IsSound (ok true) w s i j = i
written_if-IsSound (ok false) w s i j = j
written_if-IsSound (raise e) w s i j = j

abbrev same_lifetimes :
    {s : InMemoryStore}
    → IsSound s
    → (reg bind : Bucket) → IsSound (record s { reg = reg; bind = bind })
same_lifetimes i reg bind = record {
  challenge_ttl = i.challenge_ttl;
  session_lifetime = i.session_lifetime;
}

pub perform-IsSound :
    (depth : ℕ) (clock : ℕ → ℤ) (c : StoreCall) (s : InMemoryStore)
    → IsSound s
    → IsSound (perform depth clock c s).1
unfolding perform bound_at
perform-IsSound depth clock (put_pending_registration sid p) s i = same_lifetimes i _ _
perform-IsSound depth clock (get_pending_registration sid) s i = i
perform-IsSound depth clock (delete_pending_registration sid) s i = same_lifetimes i _ _
perform-IsSound depth clock (put_binding sid b) s i = same_lifetimes i _ _
perform-IsSound depth clock (get_binding sid) s i = i
perform-IsSound depth clock (delete sid) s i = same_lifetimes i _ _
perform-IsSound depth clock (commit_registration sid offer b) s i =
    written_if-IsSound _ _ s (same_lifetimes i _ _) i
perform-IsSound depth clock (replace_binding sid expected new) s i =
    written_if-IsSound _ _ s (same_lifetimes i _ _) i

-- Whatever the in-memory store holds, if neither lifetime is negative, its readings of the clock do
-- not go back, the interpreter reads at least one level of JSON and the record written, if any, is
-- valid and storable: each call answers, and leaves, what the contract says of the records that
-- have not expired at its first reading of the clock.
pub perform_keeps_contract :
    (depth : ℕ) (clock : ℕ → ℤ) (c : StoreCall) (s : InMemoryStore)
    → 1 ≤ depth
    → IsSound s
    → clock 0 ≤ℤ clock 1
    → Storable c
    → Answers c (perform depth clock c s).0 (view_at depth (clock 0) s)
      × (view_at depth (clock 0) (perform depth clock c s).1
          ≡ after c (perform depth clock c s).0 (view_at depth (clock 0) s))
perform_keeps_contract depth clock c s room sound h k =
    (perform-Answers depth room clock s c, perform-view depth room clock s sound h c k)

-- The store as an implementation of the contract.
abbrev pub memory : (depth : ℕ) → 1 ≤ depth → Contract.Store
memory depth room = record {
  State = (s : InMemoryStore) × IsSound s;
  Storable = Storable;
  perform = λ clock c (s, sound). (
    (perform depth clock c s).0,
    ((perform depth clock c s).1, perform-IsSound depth clock c s sound),
  );
  view_at = λ t (s, sound). view_at depth t s;
  fades = λ t t' (s, sound) h. view_at-Fades depth t t' s h;
  acts = λ clock c (s, sound) h k. perform_keeps_contract depth clock c s room sound h k;
}
