-- ===== src/System/Deployed.antt =====
-- The server over an implementation of the store: each call of the store reads the clock itself,
-- and what has expired at that time is gone (src/dbsc/store.py, src/dbsc/server.py).
use dbsc_python.Base.{ℕ, ◌≡◌, refl, sym, ap, subst, ◌∷◌}
use dbsc_python.Base.Int.{ℤ, ◌≤ℤ◌}
use dbsc_python.Effect.{
  Call, Answer, store, clock, token_bytes, audit, StoreCall, Program, done, call,
}
use dbsc_python.Effect.Ensures.{History}
use dbsc_python.Response.{DbscResponse}
use dbsc_python.Exceptions.{Result}
use dbsc_python.Store as Contract
use dbsc_python.Store.{View, Fades}
use dbsc_python.System.{System, set, advance, arrive, expire, Reach, here, next, Permits, effect}

abbrev IsOther : Call → Type 0
IsOther (store c) = ⊥
IsOther _ = Unit

other-Permits : (c : Call) (a : Answer c) (v : View) → IsOther c → Permits c a v
other-Permits (store c) a v o = elim o [ ]
other-Permits clock a v o = tt
other-Permits (token_bytes n) a v o = tt
other-Permits (audit event message user_id) a v o = tt

other-effect : (c : Call) (a : Answer c) (v : View) → IsOther c → effect c a v ≡ v
other-effect (store c) a v o = elim o [ ]
other-effect clock a v o = refl
other-effect (token_bytes n) a v o = refl
other-effect (audit event message user_id) a v o = refl

module _ (impl : Contract.Store) where
  pub record Deployment : Type 0 where
    pub state : impl.State
    -- the latest reading of the clock
    pub time : ℤ
    pub threads : ℕ → Program DbscResponse
    pub events : History

  pub data Move (Serves : Program DbscResponse → Type 0) (s t : Deployment) : Type 0 where
    -- one thread makes a call of the store, which reads the clock once or twice
    stores :
        (i : ℕ) (c : StoreCall) (k : Answer (store c) → Program DbscResponse) (readings : ℕ → ℤ)
        → s.threads i ≡ call (store c) k
        → s.time ≤ℤ readings 0
        → readings 0 ≤ℤ readings 1
        → impl.Storable c
        → t ≡ record {
          state = (impl.perform readings c s.state).1;
          time = readings 1;
          threads = set s.threads i (k (impl.perform readings c s.state).0);
          events = (store c, (impl.perform readings c s.state).0) ∷ s.events;
        }
        → Move Serves s t
    -- or any other call
    calls :
        (i : ℕ) (c : Call) (k : Answer c → Program DbscResponse) (a : Answer c)
        → s.threads i ≡ call c k
        → IsOther c
        → t ≡ record s { threads = set s.threads i (k a); events = (c, a) ∷ s.events }
        → Move Serves s t
    -- a finished thread takes up a request
    arrives :
        (i : ℕ) (r : Result DbscResponse) (p : Program DbscResponse)
        → s.threads i ≡ done r
        → Serves p
        → t ≡ record s { threads = set s.threads i p }
        → Move Serves s t

  pub data Run (Serves : Program DbscResponse → Type 0) (s : Deployment) : Deployment → Type 0 where
    start : Run Serves s s
    then : {t u : Deployment} → Run Serves s t → Move Serves t u → Run Serves s u

  -- The system that a deployment is, to the contract.
  abbrev pub as_system : Deployment → System
  as_system s = record {
    view = impl.view_at s.time s.state;
    threads = s.threads;
    events = s.events;
  }

  module _ (Serves : Program DbscResponse → Type 0) where
    extended :
        {s : System} (t u : Deployment)
        → Reach Serves s (as_system t)
        → Move Serves t u
        → Reach Serves s (as_system u)
    extended t u reach (stores i c k readings at later h storable e) =
        let performed = impl.perform readings c t.state in
        let (answers, left) = impl.acts readings c t.state h storable in
        let faded : Fades (effect (store c) performed.0 (impl.view_at (readings 0) t.state))
            (impl.view_at (readings 1) performed.1) =
          subst (λ v. Fades v (impl.view_at (readings 1) performed.1)) left
            (impl.fades (readings 0) (readings 1) performed.1 h) in
        rw e (
          next
            (next
              (next reach (
                expire (impl.view_at (readings 0) t.state)
                  (impl.fades t.time (readings 0) t.state later) refl))
              (advance i (store c) k performed.0 at answers refl))
            (expire (impl.view_at (readings 1) performed.1) faded refl))
    extended t u reach (calls i c k a at o e) =
        let v = impl.view_at t.time t.state in
        rw e (
          next reach (
            advance i c k a at (other-Permits c a v o) (
              ap
                (λ v. record {
                  view = v;
                  threads = set t.threads i (k a);
                  events = (c, a) ∷ t.events;
                })
                (sym (other-effect c a v o)))))
    extended t u reach (arrives i r p at serves e) = rw e (next reach (arrive i r p at serves refl))

    -- Every run of the server over an implementation of the contract is, at each moment, a run of
    -- the system over the contract itself.
    pub Run-Reach : {s t : Deployment} → Run Serves s t → Reach Serves (as_system s) (as_system t)
    Run-Reach start = here
    Run-Reach (then {t} {u} run move) = extended t u (Run-Reach run) move
