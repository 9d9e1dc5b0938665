-- ===== src/System.antt =====
-- Concurrent requests: any number of programs, whose calls interleave in any order, over a store
-- that keeps the contract.
pub mod Sessions
pub mod Offers
pub mod Deployed
pub mod InMemory
use Prim.Native.Nat.{compare, Ordering}
use dbsc_python.Base.{ℕ, ◌≡◌, ◌==◌, ◌∷◌, if◌then◌else◌}
use dbsc_python.Effect.{Call, Answer, store, clock, token_bytes, audit, Program, done, call}
use dbsc_python.Effect.Ensures.{History}
use dbsc_python.Response.{DbscResponse}
use dbsc_python.Exceptions.{Result}
use dbsc_python.Store.{View, Answers, after, Fades}

pub record System : Type 0 where
  pub view : View
  pub threads : ℕ → Program DbscResponse
  -- the calls made so far, the latest first
  pub events : History

abbrev pub set : (ℕ → Program DbscResponse) → ℕ → Program DbscResponse → ℕ → Program DbscResponse
set f i p j = if i == j then p else f j

-- The clock, the random bytes and the audit log answer as they like.
abbrev pub Permits : (c : Call) → Answer c → View → Type 0
Permits (store c) a v = Answers c a v
Permits _ a v = Unit

abbrev pub effect : (c : Call) → Answer c → View → View
effect (store c) a v = after c a v
effect _ a v = v

-- `Serves p` says which requests may arrive.
pub data Step (Serves : Program DbscResponse → Type 0) (s t : System) : Type 0 where
  -- one thread makes its next call
  advance :
      (i : ℕ) (c : Call) (k : Answer c → Program DbscResponse) (a : Answer c)
      → s.threads i ≡ call c k
      → Permits c a s.view
      → t ≡ record {
        view = effect c a s.view;
        threads = set s.threads i (k a);
        events = (c, a) ∷ s.events;
      }
      → Step Serves s t
  -- a finished thread takes up a request
  arrive :
      (i : ℕ) (r : Result DbscResponse) (p : Program DbscResponse)
      → s.threads i ≡ done r
      → Serves p
      → t ≡ record s { threads = set s.threads i p }
      → Step Serves s t
  expire : (v : View) → Fades s.view v → t ≡ record s { view = v } → Step Serves s t

pub data Reach (Serves : Program DbscResponse → Type 0) (s : System) : System → Type 0 where
  here : Reach Serves s s
  next : {t u : System} → Reach Serves s t → Step Serves t u → Reach Serves s u
