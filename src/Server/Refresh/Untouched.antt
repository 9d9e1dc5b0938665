-- ===== src/Server/Refresh/Untouched.antt =====
-- How `refresh` of src/dbsc/server.py fails, and where a run of it may stop short.
use dbsc_python.Base.{
  ◌≡◌, refl, true, false, none, some, Option, zero, suc, ℕ, ◌∷◌, Bool, if◌then◌else◌,
}
use dbsc_python.Base.Int.{◌-ℤ◌, ltb_ℤ, leb_ℤ}
use dbsc_python.Base.Text.{Text, codes, is_empty}
use dbsc_python.Exceptions.{Result, ok, raise}
use dbsc_python.Encoding.{constant_time_equals}
use dbsc_python.Jwt.{JwtVerifier}
use dbsc_python.Config.{Config}
use dbsc_python.Request.{RequestContext, header}
use dbsc_python.Response.{DbscResponse}
use dbsc_python.Binding.{Binding, post_init, with_rotated_cookie_and_challenge}
use dbsc_python.Audit.{refreshed, refresh_failed}
use dbsc_python.Effect.{
  Program, clock, audit, store, get_binding, replace_binding, lift, pure, or_again, ◌>>=◌,
}
use dbsc_python.Effect.Ensures.{
  Event, History, Ensures, Ensures-if, Ensures-lift, Ensures-bind, Keeps-then, Continue, OnRaise,
}
use dbsc_python.Effect.Inert.{AllInert}
use dbsc_python.Effect.Points.{AtCalls, Ends, refused, won, StopsAt, Ends-StopsShort}
use dbsc_python.Server.Messages.{header_session_id, same_user}
use dbsc_python.Server.Registration.{or_invalid_jwt}
use dbsc_python.Server.Registration.Failures.{or_invalid_jwt-AllInert}
use dbsc_python.Server.Refresh.{
  session_matches, verify_refresh, challenge_matches, check_proof, check_binding, binding_proved_by,
  rotate, refresh_loop, refresh,
}
use dbsc_python.Server.Refresh.Response.{rotation}

module _ (config : Config) (verifier : JwtVerifier) (jwt : Text) (ctx : RequestContext) where
  challenge_matches-AllInert :
      (b : Binding) (jti : Text) (h : History)
      → AllInert h
      → Ensures (λ _. AllInert) (challenge_matches config verifier b jti) h
  unfolding challenge_matches
  challenge_matches-AllInert b jti h i =
      Ensures-lift _ (constant_time_equals b.challenge jti) _ _
        (λ current _.
          Ensures-if _ current _ _ _ (λ _. i)
            (λ _.
              Ensures-if _ (is_empty b.previous_challenge) _ _ _ (λ _. i)
                (λ _ t.
                  Ensures-if _ (leb_ℤ (t -ℤ b.previous_challenge_time) config.challenge_ttl_seconds)
                    _ _ _ (λ _. (tt, i)) (λ _. (tt, i)))))
        (λ _ _. i)

  check_proof-AllInert :
      (b : Binding) (h : History)
      → AllInert h
      → Ensures (λ _. AllInert) (check_proof config verifier jwt ctx b) h
  unfolding check_proof
  check_proof-AllInert b h i =
      Ensures-if _ (is_empty b.challenge) _ _ _ (λ _ _. (tt, i))
        (λ _ t.
          Ensures-if _ (ltb_ℤ config.challenge_ttl_seconds (t -ℤ b.challenge_time)) _ _ _
            (λ _ _. (tt, (tt, i)))
            (λ _.
              Keeps-then AllInert _
                (or_invalid_jwt refresh_failed ctx (verify_refresh verifier jwt b.public_key_pem)) _
                ((clock, t) ∷ h)
                (or_invalid_jwt-AllInert refresh_failed ctx
                  (verify_refresh verifier jwt b.public_key_pem) _ (tt, i))
                (λ jti h₁ i₁.
                  Keeps-then AllInert _ (challenge_matches config verifier b jti) _ h₁
                    (challenge_matches-AllInert b jti h₁ i₁)
                    (λ matches h₂ i₂. Ensures-if _ matches _ _ _ (λ _. i₂) (λ _ _. (tt, i₂)))
                    (λ _ _ i₂. i₂))
                (λ _ _ i₁. i₁)))

  check_binding-AllInert :
      (found : Option Binding) (h : History)
      → AllInert h
      → Ensures (λ _. AllInert) (check_binding config verifier jwt ctx found) h
  unfolding check_binding
  check_binding-AllInert none h i = λ _. (tt, i)
  check_binding-AllInert (some b) h i =
      Ensures-if _ (same_user b.user_id ctx.user_id) _ _ _
        (λ _.
          Ensures-lift _ (session_matches b (header ctx header_session_id)) _ _
            (λ matches _.
              Ensures-if _ matches _ _ _ (λ _. check_proof-AllInert b h i) (λ _ _. (tt, i)))
            (λ _ _. i))
        (λ _ _. (tt, i))

  after_read :
      (read : Result (Option Binding)) (h : History)
      → AllInert h
      → Ensures
          (λ _. AllInert)
          (lift read >>= λ found. check_binding config verifier jwt ctx found)
          ((store (get_binding ctx.session_id), read) ∷ h)
  after_read (raise e) h i = (tt, i)
  after_read (ok found) h i = check_binding-AllInert found _ (tt, i)

  binding_proved_by-AllInert :
      (h : History)
      → AllInert h
      → Ensures (λ _. AllInert) (binding_proved_by config verifier jwt ctx) h
  unfolding binding_proved_by
  binding_proved_by-AllInert h i = λ read. after_read read h i

  -- The win of a refresh: the write of a binding over the one that was read.
  abbrev pub IsReplacement : Event → Type 0
  IsReplacement e =
      (b : Binding) × (b' : Binding) × (e ≡ (store (replace_binding ctx.session_id b b'), ok true))

  -- Its report.
  abbrev pub refreshing : Event
  refreshing = (audit refreshed (codes "DBSC cookie refreshed.") ctx.user_id, tt)

  abbrev Ended : Result DbscResponse → History → Type 0
  Ended = Ends IsReplacement refreshing

  -- A round ends the refresh, or goes on with nothing changed.
  abbrev Lost : Result (Option DbscResponse) → History → Type 0
  Lost (ok (some response)) h = Ended (ok response) h
  Lost (ok none) h = AllInert h
  Lost (raise e) h = AllInert h

  write-Lost :
      (b b' : Binding) (written : Result Bool) (granted : Program (Option DbscResponse))
      (h : History)
      → AllInert h
      → Ensures Lost granted ((store (replace_binding ctx.session_id b b'), ok true) ∷ h)
      → Ensures Lost
          (lift written >>= λ replaced. if replaced then granted else pure none)
          ((store (replace_binding ctx.session_id b b'), written) ∷ h)
  write-Lost b b' (ok true) granted h i k = k
  write-Lost b b' (ok false) granted h i k = (tt, i)
  write-Lost b b' (raise e) granted h i k = (tt, i)

  rotate-Lost : (b : Binding) (h : History) → AllInert h → Ensures Lost (rotate config ctx b) h
  unfolding rotate with_rotated_cookie_and_challenge
  rotate-Lost b h i = λ time cookie_bytes challenge_bytes.
      Ensures-lift _ (post_init (rotation config ctx b cookie_bytes challenge_bytes time)) _ _
        (λ rotated _ written.
          write-Lost b rotated written _ _ (tt, (tt, (tt, i)))
            (λ _ issued. won _ _ _ _ refl (b, rotated, refl) refl (tt, (tt, (tt, i))) refl))
        (λ _ _. (tt, (tt, (tt, i))))

  again :
      (next : Program DbscResponse)
      → ((h : History) → AllInert h → Ensures Ended next h)
      → (r : Result (Option DbscResponse)) (h : History) → Lost r h
      → Continue Ended (λ answered. or_again answered next) r h
  again next k (ok (some response)) h l = l
  again next k (ok none) h l = k h l
  again next k (raise e) h l = refused e refl l

  refresh_loop-Ended :
      (attempts : ℕ) (h : History)
      → AllInert h
      → Ensures Ended (refresh_loop config verifier attempts jwt ctx) h
  unfolding refresh_loop
  refresh_loop-Ended zero h i = λ _. refused _ refl (tt, i)
  refresh_loop-Ended (suc attempts) h i =
      Keeps-then AllInert _ (binding_proved_by config verifier jwt ctx) _ h
        (binding_proved_by-AllInert h i)
        (λ b h₁ i₁.
          Ensures-bind Lost _ (rotate config ctx b) _ h₁ (rotate-Lost b h₁ i₁)
            (again _ (λ h₂ i₂. refresh_loop-Ended attempts h₂ i₂)))
        (λ e _ i₁. refused e refl i₁)

  -- From a history that has changed nothing in the store, whatever the calls answer: a refresh
  -- that raises has changed nothing; and if the host's clock, random source or audit logger raises
  -- at one of its calls, nothing has changed either, except at the report of a write that was won
  -- and at the reading of the clock behind that report.
  pub refresh-AllInert :
      (h : History)
      → AllInert h
      → Ensures (OnRaise (λ _. AllInert)) (refresh config verifier jwt ctx) h
        × AtCalls (StopsAt IsReplacement refreshing) (refresh config verifier jwt ctx) h
  unfolding refresh
  refresh-AllInert h i =
      Ends-StopsShort IsReplacement refreshing (refresh config verifier jwt ctx) h
        (refresh_loop-Ended 3 h i)
