-- ===== src/Store/Memory/Calls.antt =====
-- What the in-memory store answers, and the slots that its writes leave.
use dbsc_python.Base.{◌≡◌, refl, ap, subst, ◌↔◌, Bool, true, false, Option, none, some, arith}
use dbsc_python.Base.Int.{ℤ, ◌+ℤ◌, ◌≤ℤ◌, +ℤ_parts}
use dbsc_python.Base.Text.{Text}
use dbsc_python.Exceptions.{Result, ok, raise, ◌>>=◌}
use dbsc_python.Json.Stored.{IsRead, valid, corrupt}
use dbsc_python.Store.{present, Reads, found, missing, Compares, same, differs}
use dbsc_python.Store.Memory.{live, decoded, still_equals}
use dbsc_python.Store.Memory.View.{read_slot, raw_slot, slot_at, raw_slot-live}

module _ {A : Type 0} {IsValid : A → Type 0} where
  decoded_of : (r : Result A) → IsRead IsValid r → Reads (read_slot r) (r >>= λ a. ok (some a))
  decoded_of (ok a) (valid b v) = found a
  decoded_of (raise e) (corrupt d k) = Reads.corrupt e k

  -- Every stored text is read as a valid record or raises `CorruptStateError`.
  module _ (from_json : Text → Result A)
      (reads : (raw : Text) → IsRead IsValid (from_json raw)) where
    decoded-Reads : (o : Option Text) → Reads (raw_slot from_json o) (decoded from_json o)
    unfolding decoded
    decoded-Reads none = missing
    decoded-Reads (some raw) = decoded_of (from_json raw) (reads raw)

    -- The answer of a read is what the slot shows at that time.
    pub decoded_live-Reads :
        (now : ℤ) (entry : Option (Text × ℤ))
        → Reads (slot_at from_json now entry) (decoded from_json (live entry now))
    decoded_live-Reads now entry =
        subst (λ x. Reads x (decoded from_json (live entry now)))
          (raw_slot-live from_json now entry) (decoded-Reads (live entry now))

equality :
    {A : Type 0} (eq : A → A → Bool) (a expected : A) (b : Bool)
    → (eq a expected ≡ true) ↔ (a ≡ expected)
    → eq a expected ≡ b
    → Compares expected (present a) (ok b)
equality eq a expected true eq_iff e = same (ap present (eq_iff.0 e))
equality eq a expected false eq_iff e =
    differs (λ p. let q : a ≡ expected = cc in let r : eq a expected ≡ true = eq_iff.1 q in cc)
      (λ p. cc)

module _ {A : Type 0} {IsValid : A → Type 0} (eq : A → A → Bool) where
  compared :
      (eq_iff : (a b : A) → (eq a b ≡ true) ↔ (a ≡ b)) (expected : A) (r : Result A)
      → IsRead IsValid r
      → Compares expected (read_slot r) (r >>= λ a. ok (eq a expected))
  compared eq_iff expected (ok a) (valid b v) =
      equality eq a expected (eq a expected) (eq_iff a expected) refl
  compared eq_iff expected (raise e) (corrupt d k) = Compares.corrupt e refl k

  still_equals-Compares :
      (eq_iff : (a b : A) → (eq a b ≡ true) ↔ (a ≡ b)) (from_json : Text → Result A) (expected : A)
      → ((raw : Text) → IsRead IsValid (from_json raw))
      → (o : Option Text)
      → Compares expected (raw_slot from_json o) (still_equals from_json eq expected o)
  unfolding still_equals
  still_equals-Compares eq_iff from_json expected reads none = differs (λ p. cc) (λ p. cc)
  still_equals-Compares eq_iff from_json expected reads (some raw) =
      compared eq_iff expected (from_json raw) (reads raw)

  -- And so is that of a conditional write.
  pub still_equals_live-Compares :
      (eq_iff : (a b : A) → (eq a b ≡ true) ↔ (a ≡ b)) (from_json : Text → Result A) (expected : A)
      → ((raw : Text) → IsRead IsValid (from_json raw))
      → (now : ℤ) (entry : Option (Text × ℤ))
      → Compares expected
          (slot_at from_json now entry)
          (still_equals from_json eq expected (live entry now))
  still_equals_live-Compares eq_iff from_json expected reads now entry =
      subst (λ x. Compares expected x (still_equals from_json eq expected (live entry now)))
        (raw_slot-live from_json now entry)
        (still_equals-Compares eq_iff from_json expected reads (live entry now))

pub later : (t t' ttl : ℤ) → t ≤ℤ t' → ℤ.pos 0 ≤ℤ ttl → t ≤ℤ (t' +ℤ ttl)
later t t' ttl h k = omega (arith, +ℤ_parts t' ttl)
