-- ===== src/Server/Refresh/Audits.antt =====
-- How `refresh` fails: what an exception says, and what the audit log says of it.
use dbsc_python.Base.{
  ◌≡◌, refl, ap, [], inl, inr, zero, suc, ℕ, true, false, some, none, Option, ◌∷◌, Bool,
}
use dbsc_python.Base.Int.{◌-ℤ◌, ltb_ℤ, leb_ℤ}
use dbsc_python.Base.Text.{Text, is_empty}
use dbsc_python.Exceptions.{
  Exception, ExceptionClass, Result, ok, raise, is_retryable, is_dbsc_error, jwt_invalid_error,
  >>=-eq-raise,
}
use dbsc_python.Encoding.{constant_time_equals}
use dbsc_python.Encoding.Injective.{constant_time_equals-eq-raise}
use dbsc_python.Jwt.{JwtVerifier, RaisesJwtInvalid}
use dbsc_python.Config.{Config}
use dbsc_python.Request.{RequestContext, header}
use dbsc_python.Response.{DbscResponse}
use dbsc_python.Binding.{Binding, post_init, with_rotated_cookie_and_challenge}
use dbsc_python.Binding.Laws.{post_init-eq-raise}
use dbsc_python.Audit.{refresh_failed, refresh_retryable}
use dbsc_python.Effect.{Program, clock, store, audit, get_binding, replace_binding, lift, ◌>>=◌}
use dbsc_python.Effect.Ensures.{
  History, Ensures, Ensures-if, Ensures-lift, Ensures-or_again, OnRaise, OnRaise-intro, Raises-then,
}
use dbsc_python.Server.Messages.{header_session_id, same_user}
use dbsc_python.Server.Refresh.Response.{rotation}
use dbsc_python.Server.Registration.{rethrow, or_invalid_jwt}
use dbsc_python.Server.Refresh.{
  session_matches, verify_refresh, challenge_matches, check_proof, check_binding, binding_proved_by,
  rotate, refresh_loop, refresh,
}

-- Where an exception of `refresh` comes from, with the call that the run ended on.
pub data Cause (ctx : RequestContext) (e : Exception) (h : History) : Type 0 where
  -- the store raised it
  by_read :
      (before : History)
      → h ≡ (store (get_binding ctx.session_id), raise e) ∷ before
      → Cause ctx e h
  by_write :
      (b b' : Binding) (before : History)
      → h ≡ (store (replace_binding ctx.session_id b b'), raise e) ∷ before
      → Cause ctx e h
  -- benign, and reported as such
  benign :
      (message : Text) (before : History)
      → is_retryable e.kind ≡ true
      → h ≡ (audit refresh_retryable message ctx.user_id, tt) ∷ before
      → Cause ctx e h
  -- terminal, and reported as a failure
  terminal :
      (message : Text) (before : History)
      → is_retryable e.kind ≡ false
      → h ≡ (audit refresh_failed message ctx.user_id, tt) ∷ before
      → Cause ctx e h
  -- no `DbscError`
  unexpected : is_dbsc_error e.kind ≡ false → Cause ctx e h

module _ (config : Config) (verifier : JwtVerifier) (only : RaisesJwtInvalid verifier) (jwt : Text)
    (ctx : RequestContext) where
  verify_refresh-eq-raise :
      (pem : Text) (e : Exception)
      → verify_refresh verifier jwt pem ≡ raise e
      → e.kind ≡ jwt_invalid_error
  unfolding verify_refresh
  verify_refresh-eq-raise pem e h = elim (>>=-eq-raise (verifier.parse jwt) _ h) [
    | inl p ↦ only.parse jwt e p
    | inr (parsed, p, q) ↦ only.refresh jwt parsed pem e p q
  ]

  rethrow-Cause :
      (A : Type 0) (e : Exception) (k : ExceptionClass) (h : History)
      → k ≡ jwt_invalid_error
      → e.kind ≡ k
      → Ensures (OnRaise (Cause ctx)) (rethrow {A = A} refresh_failed ctx e k) h
  unfolding rethrow is_retryable
  rethrow-Cause A e jwt_invalid_error h _ p = λ _. terminal _ h (ap is_retryable p) refl
  rethrow-Cause A e _ h q p = absurd (cc)

  or_invalid_jwt-Cause :
      {A : Type 0} (r : Result A) (h : History)
      → ((e : Exception) → r ≡ raise e → e.kind ≡ jwt_invalid_error)
      → Ensures (OnRaise (Cause ctx)) (or_invalid_jwt refresh_failed ctx r) h
  unfolding or_invalid_jwt
  or_invalid_jwt-Cause (ok a) h k = tt
  or_invalid_jwt-Cause {A} (raise e) h k = rethrow-Cause A e e.kind h (k e refl) refl

  unicode :
      (s t : Text) (h : History) (e : Exception)
      → constant_time_equals s t ≡ raise e
      → Cause ctx e h
  unfolding is_dbsc_error
  unicode s t h e r = unexpected (ap is_dbsc_error (constant_time_equals-eq-raise s t e r))

  challenge_matches-Cause :
      (b : Binding) (jti : Text) (h : History)
      → Ensures (OnRaise (Cause ctx)) (challenge_matches config verifier b jti) h
  unfolding challenge_matches
  challenge_matches-Cause b jti h =
      Ensures-lift _ (constant_time_equals b.challenge jti) _ _
        (λ current _.
          Ensures-if _ current _ _ _ (λ _. tt)
            (λ _.
              Ensures-if _ (is_empty b.previous_challenge) _ _ _ (λ _. tt)
                (λ _. λ t'.
                  Ensures-if _
                    (leb_ℤ (t' -ℤ b.previous_challenge_time) config.challenge_ttl_seconds) _ _ _
                    (λ _.
                      OnRaise-intro _ (constant_time_equals b.previous_challenge jti) _
                        (unicode b.previous_challenge jti _))
                    (λ _. tt))))
        (unicode b.challenge jti h)

  check_proof-Cause :
      (b : Binding) (h : History)
      → Ensures (OnRaise (Cause ctx)) (check_proof config verifier jwt ctx b) h
  unfolding check_proof is_retryable
  check_proof-Cause b h =
      Ensures-if _ (is_empty b.challenge) _ _ _ (λ _ _. benign _ h refl refl)
        (λ _ t.
          Ensures-if _ (ltb_ℤ config.challenge_ttl_seconds (t -ℤ b.challenge_time)) _ _ _
            (λ _ _. benign _ _ refl refl)
            (λ _.
              Raises-then _
                (or_invalid_jwt refresh_failed ctx (verify_refresh verifier jwt b.public_key_pem)) _
                ((clock, t) ∷ h)
                (or_invalid_jwt-Cause (verify_refresh verifier jwt b.public_key_pem) _
                  (verify_refresh-eq-raise b.public_key_pem))
                (λ jti h₁.
                  Raises-then _ (challenge_matches config verifier b jti) _ h₁
                    (challenge_matches-Cause b jti h₁)
                    (λ matches h₂.
                      Ensures-if _ matches _ _ _ (λ _. tt) (λ _ _. benign _ h₂ refl refl)))))

  session_matches-eq-raise :
      (b : Binding) (presented : Option Text) (h : History) (e : Exception)
      → session_matches b presented ≡ raise e
      → Cause ctx e h
  unfolding session_matches
  session_matches-eq-raise b none h e r = absurd (cc)
  session_matches-eq-raise b (some []) h e r = absurd (cc)
  session_matches-eq-raise b (some (c ∷ s)) h e r = unicode b.session_identifier (c ∷ s) h e r

  check_binding-Cause :
      (found : Option Binding) (h : History)
      → Ensures (OnRaise (Cause ctx)) (check_binding config verifier jwt ctx found) h
  unfolding check_binding is_retryable
  check_binding-Cause none h = λ _. terminal _ h refl refl
  check_binding-Cause (some b) h =
      Ensures-if _ (same_user b.user_id ctx.user_id) _ _ _
        (λ _.
          Ensures-lift _ (session_matches b (header ctx header_session_id)) _ _
            (λ matches _.
              Ensures-if _ matches _ _ _ (λ _. check_proof-Cause b h)
                (λ _ _. terminal _ h refl refl))
            (session_matches-eq-raise b (header ctx header_session_id) h))
        (λ _ _. terminal _ h refl refl)

  binding_proved_by-Cause :
      (h : History) → Ensures (OnRaise (Cause ctx)) (binding_proved_by config verifier jwt ctx) h
  unfolding binding_proved_by
  binding_proved_by-Cause h (raise e) = by_read h refl
  binding_proved_by-Cause h (ok found) = check_binding-Cause found _

  write-Cause :
      (b b' : Binding) (won : Result Bool) (f : Bool → Program (Option DbscResponse)) (h : History)
      → ((replaced : Bool)
          → Ensures
              (OnRaise (Cause ctx))
              (f replaced)
              ((store (replace_binding ctx.session_id b b'), won) ∷ h))
      → Ensures
          (OnRaise (Cause ctx))
          (lift won >>= f)
          ((store (replace_binding ctx.session_id b b'), won) ∷ h)
  write-Cause b b' (ok replaced) f h k = k replaced
  write-Cause b b' (raise e) f h k = by_write b b' h refl

  rotate-Cause : (b : Binding) (h : History) → Ensures (OnRaise (Cause ctx)) (rotate config ctx b) h
  unfolding rotate with_rotated_cookie_and_challenge is_dbsc_error
  rotate-Cause b h = λ time cookie_bytes challenge_bytes.
      let new = rotation config ctx b cookie_bytes challenge_bytes time in
      Ensures-lift _ (post_init new) _ _
        (λ rotated e. λ (won : Result Bool).
          write-Cause b rotated won _ _
            (λ replaced. Ensures-if _ replaced _ _ _ (λ _ _ _. tt) (λ _. tt)))
        (λ e r. unexpected (ap is_dbsc_error (post_init-eq-raise new e r)))

  refresh_loop-Cause :
      (attempts : ℕ) (h : History)
      → Ensures (OnRaise (Cause ctx)) (refresh_loop config verifier attempts jwt ctx) h
  unfolding refresh_loop is_retryable
  refresh_loop-Cause zero h = λ _. benign _ h refl refl
  refresh_loop-Cause (suc attempts) h =
      Raises-then _ (binding_proved_by config verifier jwt ctx) _ h (binding_proved_by-Cause h)
        (λ b h₁. Raises-then _ (rotate config ctx b) _ h₁ (rotate-Cause b h₁) (λ answered h₂.
          Ensures-or_again _ answered _ h₂ (λ _ _. tt) (λ _. refresh_loop-Cause attempts h₂)))

  -- Whatever the calls answer, an exception of `refresh` was raised by the store, or is retryable
  -- and the run ends with the report REFRESH_RETRYABLE, or is not retryable and the run ends with
  -- the report REFRESH_FAILED, or is no `DbscError`, if the verifier raises only
  -- `JwtInvalidError`.
  pub refresh-Cause :
      (h : History) → Ensures (OnRaise (Cause ctx)) (refresh config verifier jwt ctx) h
  unfolding refresh
  refresh-Cause h = refresh_loop-Cause 3 h
