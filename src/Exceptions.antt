-- ===== src/Exceptions.antt =====
-- src/dbsc/exceptions.py, and the built-in errors that can leave the code: an exception is its
-- class and its message, and code that may raise returns a `Result`.
use dbsc_python.Base.{◌≡◌, refl, ◌⊎◌, inl, inr, Bool, true, false, arith}
use dbsc_python.Base.Text.{Text}

pub data ExceptionClass : Type 0 where
  jwt_invalid_error challenge_expired_error challenge_mismatch_error : ExceptionClass
  missing_challenge_error session_not_found_error corrupt_state_error : ExceptionClass
  -- built in: `ValueError`, and its subclass `UnicodeEncodeError`
  value_error unicode_encode_error : ExceptionClass

pub record Exception : Type 0 where
  pub kind : ExceptionClass
  pub message : Text

-- isinstance(e, RetryableRefreshError)
unfoldable pub is_retryable : ExceptionClass → Bool
is_retryable challenge_expired_error = true
is_retryable challenge_mismatch_error = true
is_retryable missing_challenge_error = true
is_retryable _ = false

-- isinstance(e, DbscError)
unfoldable pub is_dbsc_error : ExceptionClass → Bool
unfolding is_retryable
is_dbsc_error jwt_invalid_error = true
is_dbsc_error session_not_found_error = true
is_dbsc_error corrupt_state_error = true
is_dbsc_error k = is_retryable k

pub data Result {ℓ} (A : Type ℓ) : Type ℓ where
  ok : A → Result A
  raise : Exception → Result A

abbrev pub error {ℓ} : {A : Type ℓ} → ExceptionClass → Text → Result A
error k m = raise (record { kind = k; message = m })

infixl 5 ◌>>=◌ ◌>>◌
abbrev pub ◌>>=◌ {ℓ κ} : {A : Type κ} {B : Type ℓ} → Result A → (A → Result B) → Result B
raise raised >>= next = raise raised
ok x >>= next = next x

abbrev pub ◌>>◌ {ℓ} : {A : Type ℓ} → Result (Unit {0}) → Result A → Result A
first >> second = first >>= λ _. second

pub Result-cases {ℓ} :
    {A : Type ℓ} (r : Result A) → ((a : A) × (r ≡ ok a)) ⊎ ((e : Exception) × (r ≡ raise e))
Result-cases (ok a) = inl (a, refl)
Result-cases (raise e) = inr (e, refl)

-- What a computation that ended well went through.
pub >>=-eq-ok {ℓ κ} :
    {B : Type ℓ} {A : Type κ} {last : B} (next : A → Result B) (first : Result A)
    → (first >>= next) ≡ ok last
    → (x : A) × (next x ≡ ok last) × (first ≡ ok x)
>>=-eq-ok next (ok x) e = (x, e, refl)
>>=-eq-ok next (raise x) e = absurd (cc)

pub >>=-eq-raise {ℓ κ} :
    {A : Type ℓ} {B : Type κ} (m : Result A) (f : A → Result B) {e : Exception}
    → (m >>= f) ≡ raise e
    → (m ≡ raise e) ⊎ ((a : A) × (m ≡ ok a) × (f a ≡ raise e))
>>=-eq-raise (ok a) f h = inr (a, refl, h)
>>=-eq-raise (raise x) f h = inl (ground arith)

pub ok_inj {ℓ} : {A : Type ℓ} {x y : A} → ok x ≡ ok y → x ≡ y
ok_inj e = cc
