-- ===== src/Tests/Storing.antt =====
-- Stored bindings, and an in-memory store that holds one.
use dbsc_python.Base.{ℕ, ◌≡◌, ◌≤◌, refl, zero, suc, true, false, arith, [], ◌∷◌}
use dbsc_python.Base.Int.{ℤ, pos}
use dbsc_python.Base.Text.{codes}
use dbsc_python.Exceptions.{ok}
use dbsc_python.Json.Stored.{IsRead}
use dbsc_python.Json.Dumps.{decimal, dumps}
use dbsc_python.Binding.{IsValid}
use dbsc_python.Binding.Record.{to_json, from_json}
use dbsc_python.Binding.Stored.{is_storable, from_json-to_json, from_json-IsRead}
use dbsc_python.Effect.{
  Program, call, store, StoreCall, StoreAnswer, put_pending_registration, commit_registration,
  replace_binding, delete, pure,
}
use dbsc_python.Effect.Every.{Every}
use dbsc_python.Response.{DbscResponse, empty_response}
use dbsc_python.Store.{after, Answers}
use dbsc_python.Store.Memory.{in_memory_store, InMemoryStore, bound_at, perform}
use dbsc_python.Store.Memory.View.{view_at}
use dbsc_python.Store.Memory.Contract.{IsSound, perform_keeps_contract, memory}
use dbsc_python.Pending.{IsValid as PendingIsValid}
use dbsc_python.Pending.Stored.{is_storable as pending_is_storable}
use dbsc_python.Server.Gate.{revoke}
use dbsc_python.Server.Requests.{revoking}
use dbsc_python.System.{set}
use dbsc_python.System.Sessions.{Allowed, Ages}
use dbsc_python.System.Offers.{offers, commits}
use dbsc_python.System.Deployed.{Deployment, stores, arrives, start, then}
use dbsc_python.System.InMemory.{held, memory-Ages, memory-offers_bind_once}
use dbsc_python.Tests.Fixtures.{program, config, ctx, verifier, bound, offer}

bound-IsValid : IsValid bound
unfolding program
bound-IsValid = record {
  session_identifier = refl;
  challenge = refl;
  previous_challenge = refl;
  cookie_value = refl;
  previous_cookie_value = refl;
}

bound_is_storable : is_storable bound ≡ true
unfolding program is_storable decimal
bound_is_storable = refl

from_json-to_json_example : from_json 1 (to_json bound) ≡ ok bound
from_json-to_json_example = from_json-to_json bound 1 bound-IsValid bound_is_storable (omega arith)

from_json-IsRead_example : IsRead IsValid (from_json 1 (codes "{\"userId\":\"u1\"}"))
from_json-IsRead_example = from_json-IsRead 1 (codes "{\"userId\":\"u1\"}")

-- A store with a binding.
abbrev stored : InMemoryStore
stored = bound_at (pos 1000) (codes "s1") bound (in_memory_store (pos 900) (pos 64800))

stored-IsSound : IsSound stored
unfolding bound_at
stored-IsSound = record { challenge_ttl = omega arith; session_lifetime = omega arith }

abbrev readings : ℕ → ℤ
readings n = pos 1100

perform_keeps_contract_example :
    Answers
      (replace_binding (codes "s1") bound bound)
      (perform 1 readings (replace_binding (codes "s1") bound bound) stored).0
      (view_at 1 (pos 1100) stored)
    × (view_at 1 (pos 1100) (perform 1 readings (replace_binding (codes "s1") bound bound) stored).1
        ≡ after
            (replace_binding (codes "s1") bound bound)
            (perform 1 readings (replace_binding (codes "s1") bound bound) stored).0
            (view_at 1 (pos 1100) stored))
perform_keeps_contract_example =
    perform_keeps_contract 1 readings (replace_binding (codes "s1") bound bound) stored
      (omega arith) stored-IsSound (omega arith) (bound-IsValid, bound_is_storable)

replaced : (perform 1 readings (replace_binding (codes "s1") bound bound) stored).0 ≡ ok true
unfolding perform program bound_at dumps
replaced = refl

-- The deletion of the session by a logout, over that store.
room : 1 ≤ 1
room = omega arith

abbrev one_deletes : ℕ → Program DbscResponse
one_deletes zero = call (store (delete (codes "s1"))) (λ a. pure empty_response)
one_deletes (suc i) = pure empty_response

abbrev deleting : Deployment (memory 1 room)
deleting = record {
  state = (stored, stored-IsSound);
  time = pos 1000;
  threads = one_deletes;
  events = [];
}

abbrev deletion : StoreAnswer (delete (codes "s1")) × (memory 1 room).State
deletion = (memory 1 room).perform readings (delete (codes "s1")) deleting.state

abbrev deleted : Deployment (memory 1 room)
deleted = record {
  state = deletion.1;
  time = pos 1100;
  threads = set deleting.threads 0 (pure empty_response);
  events = (store (delete (codes "s1")), deletion.0) ∷ [];
}

-- Another logout arrives behind it.
abbrev logout : Program DbscResponse
logout = revoke config ctx false

abbrev logging_out : Deployment (memory 1 room)
logging_out = record deleted { threads = set deleted.threads 1 logout }

only_deletes : (i : ℕ) → Every (Allowed (codes "s1")) (one_deletes i)
only_deletes zero = (tt, λ a. tt)
only_deletes (suc i) = tt

memory-Ages_example :
    Ages (held 1 room (codes "s1") deleting) (held 1 room (codes "s1") logging_out)
unfolding bound_at
memory-Ages_example =
    memory-Ages 1 room (codes "s1") config verifier {s = deleting} {t = logging_out}
      (record { no_offer = refl; calls = only_deletes })
      (then
        (then start (
          stores 0 (delete (codes "s1")) (λ a. pure empty_response) readings refl (omega arith)
            (omega arith) tt refl))
        (arrives 1 (ok empty_response) logout refl (revoking ctx false) refl))

-- An offer made and used, on a new store.
abbrev new_store : InMemoryStore
new_store = in_memory_store (pos 900) (pos 64800)

new_store-IsSound : IsSound new_store
new_store-IsSound = record { challenge_ttl = omega arith; session_lifetime = omega arith }

abbrev binding_offer : StoreCall
binding_offer = put_pending_registration (codes "s1") offer

abbrev binding_commit : StoreCall
binding_commit = commit_registration (codes "s1") offer bound

abbrev committing : Program DbscResponse
committing = call (store binding_commit) (λ a. pure empty_response)

abbrev offering : Deployment (memory 1 room)
offering = record {
  state = (new_store, new_store-IsSound);
  time = pos 1000;
  threads = λ i. call (store binding_offer) (λ a. committing);
  events = [];
}

abbrev offering_done : StoreAnswer binding_offer × (memory 1 room).State
offering_done = (memory 1 room).perform readings binding_offer offering.state

abbrev offered : Deployment (memory 1 room)
offered = record {
  state = offering_done.1;
  time = pos 1100;
  threads = set offering.threads 0 committing;
  events = (store binding_offer, offering_done.0) ∷ [];
}

abbrev committing_done : StoreAnswer binding_commit × (memory 1 room).State
committing_done = (memory 1 room).perform readings binding_commit offered.state

abbrev committed : Deployment (memory 1 room)
committed = record {
  state = committing_done.1;
  time = pos 1100;
  threads = set offered.threads 0 (pure empty_response);
  events = (store binding_commit, committing_done.0) ∷ offered.events;
}

commit_won : committing_done.0 ≡ ok true
unfolding perform program bound_at dumps
commit_won = refl

offer_is_storable : pending_is_storable offer ≡ true
unfolding program pending_is_storable decimal
offer_is_storable = refl

offer-IsValid : PendingIsValid offer
unfolding program
offer-IsValid = record { challenge_safe = refl }

memory-offers_bind_once_example :
    commits (codes "s1") committed.events ≤ offers (codes "s1") committed.events
memory-offers_bind_once_example =
    memory-offers_bind_once 1 room (codes "s1") (λ p. Unit) {s = offering} {t = committed} (pos 900)
      (pos 64800) refl refl
      (then
        (then start (
          stores 0 binding_offer (λ a. committing) readings refl (omega arith) (omega arith)
            (offer-IsValid, offer_is_storable) refl))
        (stores 0 binding_commit (λ a. pure empty_response) readings refl (omega arith)
          (omega arith) (bound-IsValid, bound_is_storable) refl))
