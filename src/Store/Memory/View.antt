-- ===== src/Store/Memory/View.antt =====
-- What the in-memory store holds at a time, as the contract sees it.
use mathlib.Core.Path.{fun_ext}
use dbsc_python.Base.{
  ℕ, ◌≡◌, refl, sym, ap, ◌∙◌, ◌⊎◌, inl, inr, true, false, Option, none, some, arith, if◌then◌else◌,
}
use dbsc_python.Base.Int.{ℤ, ◌≤ℤ◌, leb_ℤ}
use dbsc_python.Base.Text.{Text, text_eq}
use dbsc_python.Exceptions.{Result, ok, raise}
use dbsc_python.Pending.Record as PendingRecord
use dbsc_python.Binding.Record as BindingRecord
use dbsc_python.Store.{Slot, absent, unreadable, present, View, update, Fades}
use dbsc_python.Store.Memory.{InMemoryStore, live}

abbrev pub read_slot : {A : Type 0} → Result A → Slot A
read_slot (ok a) = present a
read_slot (raise e) = unreadable

abbrev pub raw_slot : {A : Type 0} → (Text → Result A) → Option Text → Slot A
raw_slot from_json none = absent
raw_slot from_json (some raw) = read_slot (from_json raw)

-- An entry counts up to and including its time of expiry, and is absent from then on.
abbrev pub slot_at : {A : Type 0} → (Text → Result A) → ℤ → Option (Text × ℤ) → Slot A
slot_at from_json now none = absent
slot_at from_json now (some (raw, expires_at)) =
    if leb_ℤ now expires_at then read_slot (from_json raw) else absent

-- What the store's own reading of an entry shows.
pub raw_slot-live :
    {A : Type 0} (from_json : Text → Result A) (now : ℤ) (entry : Option (Text × ℤ))
    → raw_slot from_json (live entry now) ≡ slot_at from_json now entry
unfolding live
raw_slot-live from_json now none = refl
raw_slot-live from_json now (some (raw, expires_at)) = ground arith

abbrev pub view_at : ℕ → ℤ → InMemoryStore → View
view_at depth now s = record {
  pending = λ sid. slot_at (PendingRecord.from_json depth) now (s.reg sid);
  binding = λ sid. slot_at (BindingRecord.from_json depth) now (s.bind sid);
}

pub view_ext :
    {v w : View}
    → ((sid : Text) → v.pending sid ≡ w.pending sid)
    → ((sid : Text) → v.binding sid ≡ w.binding sid)
    → v ≡ w
view_ext p q = λ i. record { pending = fun_ext p i; binding = fun_ext q i }

pub apply-update :
    {A B : Type 0} (f : A → B) (g : Text → A) (k : Text) (x : A) (y : B) (sid : Text)
    → f x ≡ y
    → f (update g k x sid) ≡ update (λ sid. f (g sid)) k y sid
apply-update f g k x y sid e =
    elim (text_eq k sid) as (λ b. f (if b then x else g sid) ≡ (if b then y else f (g sid))) [
      | true ↦ e
      | false ↦ refl
    ]

live_before :
    (raw : Text) (expires_at now : ℤ)
    → now ≤ℤ expires_at
    → live (some (raw, expires_at)) now ≡ some raw
unfolding live
live_before raw expires_at now h = ground arith

live_cases :
    (raw : Text) (expires_at now : ℤ)
    → (live (some (raw, expires_at)) now ≡ none) ⊎ now ≤ℤ expires_at
unfolding live
live_cases raw expires_at now = ground arith

pub slot_at-live :
    {A : Type 0} (from_json : Text → Result A) (now expires_at : ℤ) (raw : Text) (a : A)
    → now ≤ℤ expires_at
    → from_json raw ≡ ok a
    → slot_at from_json now (some (raw, expires_at)) ≡ present a
slot_at-live from_json now expires_at raw a h e =
    sym (raw_slot-live from_json now (some (raw, expires_at)))
    ∙ (ap (raw_slot from_json) (live_before raw expires_at now h) ∙ ap read_slot e)

-- An entry is the same at a later time, or it has expired.
slot_at-fades :
    {A : Type 0} (from_json : Text → Result A) (t t' : ℤ) (entry : Option (Text × ℤ))
    → t ≤ℤ t'
    → (slot_at from_json t' entry ≡ slot_at from_json t entry)
      ⊎ (slot_at from_json t' entry ≡ absent)
unfolding live
slot_at-fades from_json t t' none h = inl refl
slot_at-fades from_json t t' (some (raw, expires_at)) h = elim (live_cases raw expires_at t') [
  | inl e ↦
      inr (sym (raw_slot-live from_json t' (some (raw, expires_at))) ∙ ap (raw_slot from_json) e)
  | inr later ↦ inl (
      sym (raw_slot-live from_json t' (some (raw, expires_at)))
      ∙ (ap (raw_slot from_json) (
            live_before raw expires_at t' later
            ∙ sym (live_before raw expires_at t (omega (arith, h, later))))
          ∙ raw_slot-live from_json t (some (raw, expires_at))))
]

pub view_at-Fades :
    (depth : ℕ) (t t' : ℤ) (s : InMemoryStore)
    → t ≤ℤ t'
    → Fades (view_at depth t s) (view_at depth t' s)
view_at-Fades depth t t' s h = record {
  pending = λ sid. slot_at-fades (PendingRecord.from_json depth) t t' (s.reg sid) h;
  binding = λ sid. slot_at-fades (BindingRecord.from_json depth) t t' (s.bind sid) h;
}
