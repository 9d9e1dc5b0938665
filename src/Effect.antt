-- ===== src/Effect.antt =====
-- The asynchronous code of the server as a program over atomic calls: a call of the store, a
-- reading of the clock, a draw of random bytes or a report to the audit logger. Between two calls
-- other requests may run; within one, nothing does (src/dbsc/store.py, `Store`).
pub mod Ensures
pub mod Under
pub mod Every
pub mod Inert
pub mod Points
use dbsc_python.Base.{ℕ, Bool, Option, none, some, List}
use dbsc_python.Base.Int.{ℤ}
use dbsc_python.Base.Text.{Text}
use dbsc_python.Exceptions.{Exception, Result, ok, raise}
use dbsc_python.Pending.{PendingRegistration}
use dbsc_python.Binding.{Binding}
use dbsc_python.Audit.{AuditEvent}

-- The methods of `Store`.
pub data StoreCall : Type 0 where
  put_pending_registration : Text → PendingRegistration → StoreCall
  get_pending_registration : Text → StoreCall
  delete_pending_registration : Text → StoreCall
  put_binding : Text → Binding → StoreCall
  get_binding : Text → StoreCall
  delete : Text → StoreCall
  commit_registration : Text → PendingRegistration → Binding → StoreCall
  replace_binding : Text → Binding → Binding → StoreCall

-- A read and a conditional write may raise. A put or a deletion is answered here; where one
-- raises, the run ends at that call (Effect.Points).
abbrev pub StoreAnswer : StoreCall → Type 0
StoreAnswer (get_pending_registration sid) = Result (Option PendingRegistration)
StoreAnswer (get_binding sid) = Result (Option Binding)
StoreAnswer (commit_registration sid offer b) = Result Bool
StoreAnswer (replace_binding sid expected new) = Result Bool
StoreAnswer _ = Unit {0}

pub data Call : Type 0 where
  store : StoreCall → Call
  -- int(self._clock())
  clock : Call
  -- the random bytes of `secrets.token_hex(n)`
  token_bytes : ℕ → Call
  audit : AuditEvent → Text → Text → Call

-- Nor does the clock, the random source or the audit logger raise here (Effect.Points).
abbrev pub Answer : Call → Type 0
Answer (store c) = StoreAnswer c
Answer clock = ℤ
Answer (token_bytes n) = List ℕ
Answer (audit event message user_id) = Unit {0}

pub data Program (A : Type 0) : Type 0 where
  done : Result A → Program A
  call : (c : Call) → (Answer c → Program A) → Program A

abbrev pub pure : {A : Type 0} → A → Program A
pure a = done (ok a)

abbrev pub lift : {A : Type 0} → Result A → Program A
lift r = done r

infixl 5 ◌>>=◌ ◌>>◌
abbrev pub ◌>>=◌ : {A B : Type 0} → Program A → (A → Program B) → Program B
done (ok a) >>= f = f a
done (raise e) >>= f = done (raise e)
call c k >>= f = call c (λ a. k a >>= f)

abbrev pub ◌>>◌ : {A B : Type 0} → Program A → Program B → Program B
m >> k = m >>= λ _. k

-- try: m; except Exception as e: handler e
abbrev pub try : {A : Type 0} → Program A → (Exception → Program A) → Program A
try (done (ok a)) handler = done (ok a)
try (done (raise e)) handler = handler e
try (call c k) handler = call c (λ a. try (k a) handler)

-- The end of a loop's round: return what the round has found, or go on.
abbrev pub or_again : {A : Type 0} → Option A → Program A → Program A
or_again (some a) next = pure a
or_again none next = next
