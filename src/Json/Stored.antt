-- ===== src/Json/Stored.antt =====
-- What the two `from_json` of src/dbsc share: required and optional members, and the constructor's
-- refusal as `CorruptStateError`.
use dbsc_python.Base.{◌≡◌, refl, sym, subst, Bool, false, Option, none, some, ◌++◌}
use dbsc_python.Base.Text.{Text}
use dbsc_python.Exceptions.{
  Exception, ExceptionClass, Result, ok, raise, error, value_error, unicode_encode_error,
  corrupt_state_error, ◌>>=◌,
}
use dbsc_python.Json.{Json, bool}

-- A required member; every one that lacks raises the same.
unfoldable pub required : {A : Type 0} → Text → Option A → Result A
required message (some a) = ok a
required message none = error corrupt_state_error message

-- `_or`
unfoldable pub or_default : {A : Type 0} → Option A → A → A
or_default (some a) default = a
or_default none default = default

-- data.get(name) is True
unfoldable pub is_true : Option Json → Bool
is_true (some (bool b)) = b
is_true _ = false

unfoldable pub corrupt_of : {A : Type 0} → Text → Exception → ExceptionClass → Result A
corrupt_of message e value_error = error corrupt_state_error (message ++ e.message)
-- its subclass
corrupt_of message e unicode_encode_error = error corrupt_state_error (message ++ e.message)
corrupt_of message e k = raise e

-- `except ValueError` around the constructor.
unfoldable pub or_corrupt : {A : Type 0} → Text → Result A → Result A
unfolding corrupt_of
or_corrupt message (ok a) = ok a
or_corrupt message (raise e) = corrupt_of message e e.kind

-- A valid value, or `CorruptStateError`.
pub data IsRead {A : Type 0} (IsValid : A → Type 0) : Result A → Type 0 where
  valid : (a : A) → IsValid a → IsRead IsValid (ok a)
  corrupt : (e : Exception) → e.kind ≡ corrupt_state_error → IsRead IsValid (raise e)

pub required-IsRead :
    {A B : Type 0} {IsValid : B → Type 0} (message : Text) (o : Option A) (f : A → Result B)
    → ((a : A) → IsRead IsValid (f a))
    → IsRead IsValid (required message o >>= f)
unfolding required
required-IsRead message (some a) f reads = reads a
required-IsRead message none f reads = corrupt _ refl

corrupt_of-IsRead :
    {A : Type 0} {IsValid : A → Type 0} (message : Text) (e : Exception) (k : ExceptionClass)
    → k ≡ value_error
    → IsRead IsValid (corrupt_of message e k)
unfolding corrupt_of
corrupt_of-IsRead {IsValid} message e k p =
    subst (λ k. IsRead IsValid (corrupt_of message e k)) (sym p) (corrupt _ refl)

-- A constructor that accepts valid values and raises nothing but `ValueError`.
pub or_corrupt-IsRead :
    {A : Type 0} {IsValid : A → Type 0} (message : Text) (r : Result A)
    → ((a : A) → r ≡ ok a → IsValid a)
    → ((e : Exception) → r ≡ raise e → e.kind ≡ value_error)
    → IsRead IsValid (or_corrupt message r)
unfolding or_corrupt
or_corrupt-IsRead message (ok a) accepts refuses = valid a (accepts a refl)
or_corrupt-IsRead message (raise e) accepts refuses =
    corrupt_of-IsRead message e e.kind (refuses e refl)
