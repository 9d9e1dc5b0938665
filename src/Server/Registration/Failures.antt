-- ===== src/Server/Registration/Failures.antt =====
-- How `register` of src/dbsc/server.py fails, and where a run of it may stop short.
use dbsc_python.Base.{◌≡◌, refl, ap, inr, true, false, some, none, Option, ◌∷◌, Bool, if◌then◌else◌}
use dbsc_python.Base.Int.{ℤ, ◌-ℤ◌, ltb_ℤ}
use dbsc_python.Base.Text.{Text, codes}
use dbsc_python.Exceptions.{
  Exception, ExceptionClass, Result, ok, raise, jwt_invalid_error, is_dbsc_error,
  unicode_encode_error,
}
use dbsc_python.Encoding.{constant_time_equals, encode?}
use dbsc_python.Encoding.Injective.{constant_time_equals-surrogate, constant_time_equals-eq-raise}
use dbsc_python.Jwt.{JwtVerifier, RegistrationResult}
use dbsc_python.Config.{Config}
use dbsc_python.Request.{RequestContext}
use dbsc_python.Response.{DbscResponse}
use dbsc_python.Pending.{PendingRegistration}
use dbsc_python.Binding.{Binding, post_init}
use dbsc_python.Audit.{AuditEvent, registered, registration_failed}
use dbsc_python.Effect.{
  get_pending_registration, commit_registration, store, clock, audit, Program, lift, ◌>>=◌,
}
use dbsc_python.Effect.Inert.{AllInert}
use dbsc_python.Effect.Points.{AtCalls, Ends, refused, won, StopsAt, Ends-StopsShort}
use dbsc_python.Effect.Ensures.{
  Event, History, Ensures, Ensures-if, Ensures-lift, Keeps-then, OnRaise,
}
use dbsc_python.Server.Messages.{same_user, hex, fail}
use dbsc_python.Server.Registration.{
  new_binding, commit_offer, verify_registration, rethrow, or_invalid_jwt, check_offer, register,
}

rethrow-AllInert :
    (A : Type 0) (event : AuditEvent) (ctx : RequestContext) (e : Exception) (k : ExceptionClass)
    (h : History)
    → AllInert h
    → Ensures (λ _. AllInert) (rethrow {A = A} event ctx e k) h
unfolding rethrow
rethrow-AllInert A event ctx e jwt_invalid_error h i = λ _. (tt, i)
rethrow-AllInert A event ctx e _ h i = i

pub or_invalid_jwt-AllInert :
    {A : Type 0} (event : AuditEvent) (ctx : RequestContext) (r : Result A) (h : History)
    → AllInert h
    → Ensures (λ _. AllInert) (or_invalid_jwt event ctx r) h
unfolding or_invalid_jwt
or_invalid_jwt-AllInert event ctx (ok a) h i = i
or_invalid_jwt-AllInert {A} event ctx (raise e) h i = rethrow-AllInert A event ctx e e.kind h i

module _ (config : Config) (verifier : JwtVerifier) (jwt : Text) (ctx : RequestContext) where
  check_offer-AllInert :
      (found : Option PendingRegistration) (h : History)
      → AllInert h
      → Ensures (λ _. AllInert) (check_offer config verifier jwt ctx found) h
  unfolding check_offer
  check_offer-AllInert none h i = λ _. (tt, i)
  check_offer-AllInert (some p) h i =
      Ensures-if _ (same_user p.user_id ctx.user_id) _ _ _
        (λ _ t.
          Ensures-if _ (ltb_ℤ config.challenge_ttl_seconds (t -ℤ p.reg_challenge_time)) _ _ _
            (λ _ _. (tt, (tt, i)))
            (λ _.
              Keeps-then AllInert _
                (or_invalid_jwt registration_failed ctx (verify_registration verifier jwt)) _
                ((clock, t) ∷ h)
                (or_invalid_jwt-AllInert registration_failed ctx (verify_registration verifier jwt)
                  ((clock, t) ∷ h) (tt, i))
                (λ result h₁ i₁.
                  Ensures-lift _ (constant_time_equals p.reg_challenge result.challenge) _ _
                    (λ matches _. Ensures-if _ matches _ _ _ (λ _. i₁) (λ _ _. (tt, i₁)))
                    (λ _ _. i₁))
                (λ _ _ i₁. i₁)))
        (λ _ _. (tt, i))

  -- The win of a registration: the commit of a binding on an offer.
  abbrev pub IsCommit : Event → Type 0
  IsCommit e =
      (p : PendingRegistration) × (b : Binding) × (e
        ≡ (store (commit_registration ctx.session_id p b), ok true))

  -- Its report.
  abbrev pub registration : Event
  registration = (audit registered (codes "DBSC session registered.") ctx.user_id, tt)

  abbrev Ended : {A : Type 0} → Result A → History → Type 0
  Ended = Ends IsCommit registration

  refused_commit :
      (p : PendingRegistration) (b : Binding) (written : Result Bool) (message : Text)
      (kind : ExceptionClass) (raised : Text) (granted : Program DbscResponse) (h : History)
      → AllInert h
      → Ensures Ended granted ((store (commit_registration ctx.session_id p b), ok true) ∷ h)
      → Ensures Ended
          (lift written >>= λ committed.
            if committed then granted else fail registration_failed message ctx kind raised)
          ((store (commit_registration ctx.session_id p b), written) ∷ h)
  refused_commit p b (ok true) message kind raised granted h i k = k
  refused_commit p b (ok false) message kind raised granted h i k =
      λ _. refused _ refl (tt, (tt, i))
  refused_commit p b (raise e) message kind raised granted h i k = refused e refl (tt, i)

  commit_offer-Ended :
      (p : PendingRegistration) (result : RegistrationResult) (h : History)
      → AllInert h
      → Ensures Ended (commit_offer config ctx p result) h
  unfolding commit_offer
  commit_offer-Ended p result h i = λ time id_bytes cookie_bytes challenge_bytes.
      Ensures-lift _
        (post_init
          (new_binding p ctx result (hex id_bytes) (hex cookie_bytes) (hex challenge_bytes) time))
        _ _
        (λ b _ written.
          refused_commit p b written _ _ _ _ _ (tt, (tt, (tt, (tt, i))))
            (λ _ issued. won _ _ _ _ refl (p, b, refl) refl (tt, (tt, (tt, (tt, i)))) refl))
        (λ e _. refused e refl (tt, (tt, (tt, (tt, i)))))

  after_read :
      (read : Result (Option PendingRegistration)) (h : History)
      → AllInert h
      → Ensures Ended
          (lift read >>= λ pending. check_offer config verifier jwt ctx pending >>= λ found.
            commit_offer config ctx found.0 found.1)
          ((store (get_pending_registration ctx.session_id), read) ∷ h)
  after_read (raise e) h i = refused e refl (tt, i)
  after_read (ok pending) h i =
      Keeps-then AllInert _ (check_offer config verifier jwt ctx pending) _ _
        (check_offer-AllInert pending _ (tt, i))
        (λ found h₁ i₁. commit_offer-Ended found.0 found.1 h₁ i₁) (λ e _ i₁. refused e refl i₁)

  -- From a history that has changed nothing in the store, whatever the calls answer: a
  -- registration that raises has changed nothing, so that the offer stays for the browser that it
  -- was made to; and if the host's clock, random source or audit logger raises at one of its
  -- calls, nothing has changed either, except at the report of a commit that was won and at the
  -- reading of the clock behind that report.
  pub register-AllInert :
      (h : History)
      → AllInert h
      → Ensures (OnRaise (λ _. AllInert)) (register config verifier jwt ctx) h
        × AtCalls (StopsAt IsCommit registration) (register config verifier jwt ctx) h
  unfolding register
  register-AllInert h i =
      Ends-StopsShort IsCommit registration (register config verifier jwt ctx) h
        (λ read. after_read read h i)

  -- The run reads the clock and ends there: past the TTL by a report, or else on an exception
  -- that is no `DbscError`, with no report.
  pub data IsEscape (p : PendingRegistration) (h : History)
      (r : Result (PendingRegistration × RegistrationResult)) (h' : History) : Type 0 where
    expired :
        (t : ℤ) (message : Text)
        → ltb_ℤ config.challenge_ttl_seconds (t -ℤ p.reg_challenge_time) ≡ true
        → h' ≡ (audit registration_failed message ctx.user_id, tt) ∷ (clock, t) ∷ h
        → IsEscape p h r h'
    escaped :
        (t : ℤ) (e : Exception)
        → r ≡ raise e
        → is_dbsc_error e.kind ≡ false
        → h' ≡ (clock, t) ∷ h
        → IsEscape p h r h'

  -- A JWT that verifies under its own key, with a lone surrogate in its `jti`, makes the check of
  -- an offer to the same user raise an exception that is no `DbscError` and is not reported,
  -- unless the offer has expired.
  pub register_surrogate :
      (p : PendingRegistration) (result : RegistrationResult) (h : History)
      → same_user p.user_id ctx.user_id ≡ true
      → verify_registration verifier jwt ≡ ok result
      → encode? result.challenge ≡ none
      → Ensures (IsEscape p h) (check_offer config verifier jwt ctx (some p)) h
  unfolding check_offer is_dbsc_error
  register_surrogate p result h user signed bad =
      Ensures-if _ (same_user p.user_id ctx.user_id) _ _ _
        (λ _ t.
          Ensures-if _ (ltb_ℤ config.challenge_ttl_seconds (t -ℤ p.reg_challenge_time)) _ _ _
            (λ late _. expired t _ late refl)
            (λ _. rw signed (
              Ensures-lift _ (constant_time_equals p.reg_challenge result.challenge) _ _
                (λ m e. absurd (cc (raised.1, e)))
                (λ e q.
                  escaped t e refl (ap is_dbsc_error (constant_time_equals-eq-raise _ _ e q))
                    refl))))
        (λ other. absurd (cc user))
    where
      raised :
          (x : Exception) × (constant_time_equals p.reg_challenge result.challenge ≡ raise x)
          × (x.kind ≡ unicode_encode_error)
      raised = constant_time_equals-surrogate _ _ (inr bad)
