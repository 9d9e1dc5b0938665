-- ===== src/Server/Gate/Revocation.antt =====
-- What `revoke` of src/dbsc/server.py does, by the answer to its read, and its calls.
use dbsc_python.Base.{
  ◌≡◌, ◌≢◌, refl, subst, inl, inr, true, false, some, none, Option, [], ◌∷◌, Bool, if◌then◌else◌,
}
use dbsc_python.Base.Int.{pos}
use dbsc_python.Base.Text.{Text, codes}
use dbsc_python.Exceptions.{Exception, ExceptionClass, Result, ok, raise, corrupt_state_error}
use dbsc_python.Config.{Config}
use dbsc_python.Request.{RequestContext}
use dbsc_python.Response.{DbscResponse, deletion}
use dbsc_python.Binding.{Binding}
use dbsc_python.Audit.{AuditEvent, enforcement_terminated, revoked}
use dbsc_python.Effect.{
  Call, Program, call, store, audit, get_binding, delete, pure, lift, try, ◌>>=◌, ◌>>◌,
}
use dbsc_python.Effect.Ensures.{History, Ensures}
use dbsc_python.Effect.Points.{AtCalls, Made, Ensures-AtCalls}
use dbsc_python.Server.Gate.{revocation, is_bound, corrupt_is_bound, revoke}
use dbsc_python.Server.Messages.{log}

-- Does the answer to the read show a record, readable or not?
abbrev pub ShowsRecord : Result (Option Binding) → Type 0
ShowsRecord (ok none) = ⊥
ShowsRecord (ok (some b)) = Unit
ShowsRecord (raise e) = e.kind ≡ corrupt_state_error

-- The response that deletes the bound cookie and stands for nothing else.
abbrev deletes_cookie : Config → DbscResponse
deletes_cookie config = record {
  headers = (codes "Cache-Control", codes "no-store") ∷ [];
  cookies =
      record {
        name = config.cookie_name;
        value = [];
        expires_at = pos 0;
        delete = true;
        path = codes "/";
        secure = true;
        http_only = true;
        same_site = codes "Lax";
      }
      ∷ [];
  status = none;
  body = none;
  content_type = none;
}

module _ (config : Config) (ctx : RequestContext) (terminated : Bool) where
  abbrev event : AuditEvent
  event = if terminated then enforcement_terminated else revoked

  -- A run of `revoke`, by the answer to its read.
  pub data IsRevoked (before : History) (r : Result DbscResponse) (h : History) : Type 0 where
    -- a record was there: the state is deleted, and the revocation is reported
    torn_down :
        (read : Result (Option Binding)) (message : Text)
        → ShowsRecord read
        → r ≡ ok (deletes_cookie config)
        → h
          ≡ (audit event message ctx.user_id, tt)
            ∷ (store (delete ctx.session_id), tt)
            ∷ (store (get_binding ctx.session_id), read)
            ∷ before
        → IsRevoked before r h
    -- no record: the state is deleted all the same, and nothing is reported
    nothing_bound :
        r ≡ ok (revocation config)
        → h
          ≡ (store (delete ctx.session_id), tt)
            ∷ (store (get_binding ctx.session_id), ok none)
            ∷ before
        → IsRevoked before r h
    -- any other exception of the store passes, and nothing is deleted
    failed :
        (e : Exception)
        → e.kind ≢ corrupt_state_error
        → r ≡ raise e
        → h ≡ (store (get_binding ctx.session_id), raise e) ∷ before
        → IsRevoked before r h

  reported :
      (read : Result (Option Binding)) (h : History) (flag : Bool)
      → terminated ≡ flag
      → ShowsRecord read
      → Ensures
          (IsRevoked h)
          ((if flag
              then log enforcement_terminated
                  (codes "DBSC enforcement terminated session (cookie missing or mismatched).")
                  ctx
              else log revoked (codes "DBSC session revoked.") ctx)
            >> pure (revocation config))
          ((store (delete ctx.session_id), tt) ∷ (store (get_binding ctx.session_id), read) ∷ h)
  unfolding revocation deletion
  reported read h true p shows = λ _.
      torn_down read (codes "DBSC enforcement terminated session (cookie missing or mismatched).")
        shows refl (rw p)
  reported read h false p shows =
      λ _. torn_down read (codes "DBSC session revoked.") shows refl (rw p)

  -- The handler, and the rest of `revoke` behind it.
  abbrev rest : Bool → Program DbscResponse
  rest bound = call (store (delete ctx.session_id)) λ _.
      (if bound
        then if terminated
          then log enforcement_terminated
              (codes "DBSC enforcement terminated session (cookie missing or mismatched).") ctx
          else log revoked (codes "DBSC session revoked.") ctx
        else pure tt)
      >> pure (revocation config)

  after_exception :
      (e : Exception) (k : ExceptionClass) (h : History)
      → e.kind ≡ k
      → Ensures
          (IsRevoked h)
          (corrupt_is_bound e k >>= rest)
          ((store (get_binding ctx.session_id), raise e) ∷ h)
  unfolding corrupt_is_bound
  after_exception e corrupt_state_error h p = λ _. reported (raise e) h terminated refl p
  after_exception e _ h p = failed e (λ q. cc) refl refl

  after_read :
      (h : History) (read : Result (Option Binding))
      → Ensures
          (IsRevoked h)
          (try (lift read >>= λ found. pure (is_bound found)) (λ e. corrupt_is_bound e e.kind)
            >>= rest)
          ((store (get_binding ctx.session_id), read) ∷ h)
  unfolding is_bound revocation deletion
  after_read h (ok none) = λ _. nothing_bound refl refl
  after_read h (ok (some b)) = λ _. reported (ok (some b)) h terminated refl tt
  after_read h (raise e) = after_exception e e.kind h refl

  revoke-Ensures : (h : History) → Ensures (IsRevoked h) (revoke config ctx terminated) h
  unfolding revoke
  revoke-Ensures h = λ read. after_read h read

  -- The calls of a run, each with the history before it.
  pub data RevokesAt (c : Call) (h : History) : Type 0 where
    reads : c ≡ store (get_binding ctx.session_id) → h ≡ [] → RevokesAt c h
    deletes :
        (read : Result (Option Binding))
        → c ≡ store (delete ctx.session_id)
        → h ≡ (store (get_binding ctx.session_id), read) ∷ []
        → RevokesAt c h
    reports :
        (read : Result (Option Binding)) (message : Text)
        → ShowsRecord read
        → c ≡ audit event message ctx.user_id
        → h ≡ (store (delete ctx.session_id), tt) ∷ (store (get_binding ctx.session_id), read) ∷ []
        → RevokesAt c h

  torn_down_at :
      (read : Result (Option Binding)) (message : Text) (c : Call) (h : History)
      → ShowsRecord read
      → Made c h (
          (audit event message ctx.user_id, tt)
          ∷ (store (delete ctx.session_id), tt)
          ∷ (store (get_binding ctx.session_id), read)
          ∷ [])
      → RevokesAt c h
  torn_down_at read message c h shows (inl (p, q)) = reports read message shows p q
  torn_down_at read message c h shows (inr (inl (p, q))) = deletes read p q
  torn_down_at read message c h shows (inr (inr (inl (p, q)))) = reads p q
  torn_down_at read message c h shows (inr (inr (inr made))) = elim made [ ]

  nothing_bound_at :
      (c : Call) (h : History)
      → Made c h
          ((store (delete ctx.session_id), tt) ∷ (store (get_binding ctx.session_id), ok none) ∷ [])
      → RevokesAt c h
  nothing_bound_at c h (inl (p, q)) = deletes (ok none) p q
  nothing_bound_at c h (inr (inl (p, q))) = reads p q
  nothing_bound_at c h (inr (inr made)) = elim made [ ]

  failed_at :
      (e : Exception) (c : Call) (h : History)
      → Made c h ((store (get_binding ctx.session_id), raise e) ∷ [])
      → RevokesAt c h
  failed_at e c h (inl (p, q)) = reads p q
  failed_at e c h (inr made) = elim made [ ]

  IsRevoked-RevokesAt :
      (r : Result DbscResponse) (end : History)
      → IsRevoked [] r end
      → (c : Call) (h : History) → Made c h end
      → RevokesAt c h
  IsRevoked-RevokesAt r end (torn_down read message shows p q) c h made =
      torn_down_at read message c h shows (subst (Made c h) q made)
  IsRevoked-RevokesAt r end (nothing_bound p q) c h made =
      nothing_bound_at c h (subst (Made c h) q made)
  IsRevoked-RevokesAt r end (failed e k p q) c h made = failed_at e c h (subst (Made c h) q made)

  -- If the store's deletion and the audit logger raise nothing, then whatever the read answers:
  -- `revoke` deletes the session's state and returns the deletion of the bound cookie, with a
  -- report of the right kind exactly if the read showed a record, a corrupt one included, or it
  -- raises what the read raised, other than `CorruptStateError`, with nothing deleted. A run calls
  -- nothing but the read, the deletion after it and the report after that, so that one which the
  -- audit logger ends has deleted the state.
  pub revoke-IsRevoked :
      (h : History)
      → Ensures (IsRevoked h) (revoke config ctx terminated) h
        × AtCalls RevokesAt (revoke config ctx terminated) []
  revoke-IsRevoked h = (
    revoke-Ensures h,
    Ensures-AtCalls (IsRevoked []) RevokesAt (revoke config ctx terminated) [] (revoke-Ensures [])
        IsRevoked-RevokesAt,
  )
