-- ===== src/System/Sessions.antt =====
-- A session to which no new offer is made: a binding that is gone stays gone, and one that is
-- there keeps its device.
use dbsc_python.Base.{
  ℕ, ◌≡◌, ◌≢◌, refl, sym, ap, ◌∙◌, subst, inl, inr, ◌⊎◌, true, false, Bool-cases, ◌==◌, arith,
}
use dbsc_python.Base.Text.{Text, text_eq, text_eq_iff}
use dbsc_python.Exceptions.{ok, raise}
use dbsc_python.Pending.{PendingRegistration}
use dbsc_python.Binding.{Binding}
use dbsc_python.Response.{DbscResponse}
use dbsc_python.Effect.{
  Call, Answer, store, clock, token_bytes, audit, Program, call, put_pending_registration,
  get_pending_registration, delete_pending_registration, put_binding, get_binding, delete,
  commit_registration, replace_binding,
}
use dbsc_python.Effect.Every.{Every}
use dbsc_python.Store.{View, Slot, absent, unreadable, present, update, Compares, same}
use dbsc_python.System.{
  System, Permits, effect, set, Step, advance, arrive, expire, Reach, here, next,
}

-- What a registration fixes and no later write changes.
pub record SameDevice (b b' : Binding) : Type 0 where
  pub user : b'.user_id ≡ b.user_id
  pub identifier : b'.session_identifier ≡ b.session_identifier
  pub key : b'.public_key_pem ≡ b.public_key_pem
  pub algorithm : b'.algorithm ≡ b.algorithm
  pub created : b'.created_at ≡ b.created_at

-- The calls of the server's methods, none of which makes an offer to the session `sid`.
abbrev pub Allowed : Text → Call → Type 0
Allowed sid (store (put_pending_registration s p)) = s ≢ sid
Allowed sid (store (put_binding s b)) = ⊥
Allowed sid (store (replace_binding s expected new)) = SameDevice expected new
Allowed sid _ = Unit

-- From one slot to a later one: a device stays or goes, and none comes.
pub data Ages : Slot Binding → Slot Binding → Type 0 where
  gone : {x : Slot Binding} → Ages x absent
  broken : Ages unreadable unreadable
  kept : {b b' : Binding} → SameDevice b b' → Ages (present b) (present b')

SameDevice-refl : (b : Binding) → SameDevice b b
SameDevice-refl b = record {
  user = refl;
  identifier = refl;
  key = refl;
  algorithm = refl;
  created = refl;
}

SameDevice-trans : {b c d : Binding} → SameDevice b c → SameDevice c d → SameDevice b d
SameDevice-trans p q = record {
  user = q.user ∙ p.user;
  identifier = q.identifier ∙ p.identifier;
  key = q.key ∙ p.key;
  algorithm = q.algorithm ∙ p.algorithm;
  created = q.created ∙ p.created;
}

Ages-refl : (x : Slot Binding) → Ages x x
Ages-refl absent = gone
Ages-refl unreadable = broken
Ages-refl (present b) = kept (SameDevice-refl b)

Ages-trans : {x y z : Slot Binding} → Ages x y → Ages y z → Ages x z
Ages-trans p gone = gone
Ages-trans p broken = p
Ages-trans (kept p) (kept q) = kept (SameDevice-trans p q)

module _ (sid : Text) where
  -- No offer is stored, and none is under way.
  pub record IsClosed (s : System) : Type 0 where
    pub no_offer : s.view.pending sid ≡ absent
    pub calls : (i : ℕ) → Every (Allowed sid) (s.threads i)

  after-pending :
      (c : Call) (a : Answer c) (v : View)
      → Allowed sid c
      → v.pending sid ≡ absent
      → (effect c a v).pending sid ≡ absent
  after-pending (store (put_pending_registration s p)) a v ok_c h =
      ground (arith, text_eq_iff s sid)
  after-pending (store (get_pending_registration s)) a v ok_c h = h
  after-pending (store (delete_pending_registration s)) a v ok_c h = ground arith
  after-pending (store (put_binding s b)) a v ok_c h = h
  after-pending (store (get_binding s)) a v ok_c h = h
  after-pending (store (delete s)) a v ok_c h = ground arith
  after-pending (store (commit_registration s p b)) (ok true) v ok_c h = ground arith
  after-pending (store (commit_registration s p b)) (ok false) v ok_c h = h
  after-pending (store (commit_registration s p b)) (raise e) v ok_c h = h
  after-pending (store (replace_binding s b b')) (ok true) v ok_c h = h
  after-pending (store (replace_binding s b b')) (ok false) v ok_c h = h
  after-pending (store (replace_binding s b b')) (raise e) v ok_c h = h
  after-pending clock a v ok_c h = h
  after-pending (token_bytes n) a v ok_c h = h
  after-pending (audit event m u) a v ok_c h = h

  -- A write to the slot of `s`, seen at the slot of `sid`.
  Ages-update :
      (f : Text → Slot Binding) (s : Text) (x : Slot Binding)
      → (s ≡ sid → Ages (f sid) x)
      → Ages (f sid) (update f s x sid)
  Ages-update f s x here_case = elim (Bool-cases (text_eq s sid)) [
    | inl e ↦ rw e (here_case ((text_eq_iff s sid).0 e))
    | inr e ↦ rw e (Ages-refl (f sid))
  ]

  committed_elsewhere :
      (v : View) (s : Text) (p : PendingRegistration) (b : Binding)
      → Compares p (v.pending s) (ok true)
      → v.pending sid ≡ absent
      → s ≡ sid
      → Ages (v.binding sid) (present b)
  committed_elsewhere v s p b (same e) h q = absurd (cc (ap v.pending q))

  replaced_here :
      (v : View) (s : Text) (b b' : Binding)
      → Compares b (v.binding s) (ok true)
      → SameDevice b b'
      → s ≡ sid
      → Ages (v.binding sid) (present b')
  replaced_here v s b b' (same e) d q = rw (sym (ap v.binding q) ∙ e) (kept d)

  after-binding :
      (c : Call) (a : Answer c) (v : View)
      → Allowed sid c
      → v.pending sid ≡ absent
      → Permits c a v
      → Ages (v.binding sid) ((effect c a v).binding sid)
  after-binding (store (put_pending_registration s p)) a v ok_c h m = Ages-refl _
  after-binding (store (get_pending_registration s)) a v ok_c h m = Ages-refl _
  after-binding (store (delete_pending_registration s)) a v ok_c h m = Ages-refl _
  after-binding (store (put_binding s b)) a v ok_c h m = absurd ok_c
  after-binding (store (get_binding s)) a v ok_c h m = Ages-refl _
  after-binding (store (delete s)) a v ok_c h m = Ages-update v.binding s absent (λ _. gone)
  after-binding (store (commit_registration s p b)) (ok true) v ok_c h m =
      Ages-update v.binding s (present b) (committed_elsewhere v s p b m h)
  after-binding (store (commit_registration s p b)) (ok false) v ok_c h m = Ages-refl _
  after-binding (store (commit_registration s p b)) (raise e) v ok_c h m = Ages-refl _
  after-binding (store (replace_binding s b b')) (ok true) v ok_c h m =
      Ages-update v.binding s (present b') (replaced_here v s b b' m ok_c)
  after-binding (store (replace_binding s b b')) (ok false) v ok_c h m = Ages-refl _
  after-binding (store (replace_binding s b b')) (raise e) v ok_c h m = Ages-refl _
  after-binding clock a v ok_c h m = Ages-refl _
  after-binding (token_bytes n) a v ok_c h m = Ages-refl _
  after-binding (audit event message u) a v ok_c h m = Ages-refl _

  -- The first call of a thread, and what is left of it.
  Every-call :
      (c : Call) (k : Answer c → Program DbscResponse) (a : Answer c) {p : Program DbscResponse}
      → p ≡ call c k
      → Every (Allowed sid) p
      → Allowed sid c × Every (Allowed sid) (k a)
  Every-call c k a e h = let every = subst (Every (Allowed sid)) e h in (every.0, every.1 a)

  Every-set :
      (f : ℕ → Program DbscResponse) (i : ℕ) (p : Program DbscResponse)
      → ((j : ℕ) → Every (Allowed sid) (f j))
      → Every (Allowed sid) p
      → (j : ℕ) → Every (Allowed sid) (set f i p j)
  Every-set f i p all_f h j = elim (Bool-cases (i == j)) [ inl e ↦ rw e h | inr e ↦ rw e (all_f j) ]

  faded : (x y : Slot Binding) → (y ≡ x) ⊎ (y ≡ absent) → Ages x y
  faded x y (inl e) = rw e (Ages-refl x)
  faded x y (inr e) = rw e gone

  module _ (Serves : Program DbscResponse → Type 0)
      (quiet : (p : Program DbscResponse) → Serves p → Every (Allowed sid) p) where
    abbrev Outcome : System → System → Type 0
    Outcome s t = IsClosed t × Ages (s.view.binding sid) (t.view.binding sid)

    Step-Outcome : {s t : System} → IsClosed s → Step Serves s t → Outcome s t
    Step-Outcome {s} closed (advance i c k a at permits e) =
        let (ok_c, rest) = Every-call c k a at (closed.calls i) in
        rw e (
          record {
            no_offer = after-pending c a s.view ok_c closed.no_offer;
            calls = Every-set s.threads i (k a) closed.calls rest;
          },
          after-binding c a s.view ok_c closed.no_offer permits,
        )
    Step-Outcome {s} closed (arrive i r p at serves e) = rw e (
      record {
        no_offer = closed.no_offer;
        calls = Every-set s.threads i p closed.calls (quiet p serves);
      },
      Ages-refl _,
    )
    Step-Outcome {s} closed (expire v fades e) = rw e (
      record {
        no_offer = elim (fades.pending sid) [ inl q ↦ q ∙ closed.no_offer | inr q ↦ q ];
        calls = closed.calls;
      },
      faded _ _ (fades.binding sid),
    )

    -- In a session with no offer stored or under way, whatever the interleaving of requests that
    -- make none: no offer appears, a binding that is absent stays absent, and a binding that is
    -- present is later absent or has the same device.
    pub Reach-Ages :
        {s t : System}
        → IsClosed s
        → Reach Serves s t
        → IsClosed t × Ages (s.view.binding sid) (t.view.binding sid)
    Reach-Ages {s} closed here = (closed, Ages-refl (s.view.binding sid))
    Reach-Ages closed (next r st) =
        let (closed', aged) = Reach-Ages closed r in
        let (closed'', aged') = Step-Outcome closed' st in (closed'', Ages-trans aged aged')
