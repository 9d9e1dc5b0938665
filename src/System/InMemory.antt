-- ===== src/System/InMemory.antt =====
-- The server over `InMemoryStore` itself (src/dbsc/server.py, src/dbsc/store.py): the records that
-- it writes are storable, and its readings of the clock do not go back, as a `Run` over `memory`
-- says.
use dbsc_python.Base.{ℕ, ◌≡◌, ◌≤◌, [], arith}
use dbsc_python.Base.Int.{ℤ}
use dbsc_python.Base.Text.{Text}
use dbsc_python.Config.{Config}
use dbsc_python.Jwt.{JwtVerifier}
use dbsc_python.Effect.{Program}
use dbsc_python.Response.{DbscResponse}
use dbsc_python.Binding.{Binding}
use dbsc_python.Store.{Slot}
use dbsc_python.Store.Memory.{in_memory_store}
use dbsc_python.Store.Memory.View.{view_at}
use dbsc_python.Store.Memory.Contract.{memory}
use dbsc_python.Server.Requests.{IsQuietRequest, requests-Ages}
use dbsc_python.System.Sessions.{IsClosed, Ages}
use dbsc_python.System.Offers.{offers, commits, IsBounded, Reach-IsBounded}
use dbsc_python.System.Deployed.{Deployment, Run, as_system, Run-Reach}

module _ (depth : ℕ) (room : 1 ≤ depth) (sid : Text) where
  -- What the store holds of the session at the latest reading of the clock.
  abbrev pub held : Deployment (memory depth room) → Slot Binding
  held s = (view_at depth s.time s.state.0).binding sid

  -- Over the in-memory store, if every record that is written is valid and storable and the
  -- readings of the clock do not go back: in a session with no offer stored or under way, whatever
  -- the interleaving of any number of requests that make it no offer, an absent binding stays
  -- absent, and a present one is later absent or has the same user, session identifier, device
  -- key, algorithm and time of creation.
  pub memory-Ages :
      (config : Config) (verifier : JwtVerifier) {s t : Deployment (memory depth room)}
      → IsClosed sid (as_system (memory depth room) s)
      → Run (memory depth room) (IsQuietRequest sid config verifier) s t
      → Ages (held s) (held t)
  memory-Ages config verifier closed run =
      (requests-Ages sid config verifier closed
        (Run-Reach (memory depth room) (IsQuietRequest sid config verifier) run)).1

  fresh-IsBounded :
      (s : Deployment (memory depth room)) (ttl lifetime : ℤ)
      → s.state.0 ≡ in_memory_store ttl lifetime
      → s.events ≡ []
      → IsBounded sid (as_system (memory depth room) s)
  unfolding offers commits
  fresh-IsBounded s ttl lifetime fresh idle = record { bound = rw (fresh, idle) (omega arith) }

  -- From a new in-memory store, if every record that is written is valid and storable and the
  -- readings of the clock do not go back: whatever programs call it and however their calls
  -- interleave, a session never has more registrations committed than offers made to it.
  pub memory-offers_bind_once :
      (Serves : Program DbscResponse → Type 0) {s t : Deployment (memory depth room)}
      (ttl lifetime : ℤ)
      → s.state.0 ≡ in_memory_store ttl lifetime
      → s.events ≡ []
      → Run (memory depth room) Serves s t
      → commits sid t.events ≤ offers sid t.events
  memory-offers_bind_once Serves {s} {t} ttl lifetime fresh idle run =
      let bounded =
        Reach-IsBounded sid Serves (fresh-IsBounded s ttl lifetime fresh idle)
          (Run-Reach (memory depth room) Serves run) in
      omega (arith, bounded.bound)
