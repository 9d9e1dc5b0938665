-- ===== src/Server/Refresh/Proved.antt =====
-- What a binding that `_binding_proved_by` returns has been checked for.
use mathlib.Core.Bool.{false≢true}
use dbsc_python.Base.{
  ◌≡◌, ◌≢◌, refl, sym, ap, ◌∙◌, ◌⊎◌, inl, inr, true, false, some, none, Option, [], if◌then◌else◌,
  ◌∷◌, arith,
}
use dbsc_python.Base.Int.{ℤ, ◌-ℤ◌, ◌≤ℤ◌, ltb_ℤ, leb_ℤ, leb_ℤ→≤ℤ, not-ltb_ℤ→≤ℤ}
use dbsc_python.Base.Text.{Text, codes, is_empty}
use dbsc_python.Exceptions.{Result, ok, raise, challenge_mismatch_error, Result-cases, >>=-eq-ok}
use dbsc_python.Encoding.{constant_time_equals}
use dbsc_python.Encoding.Injective.{constant_time_equals_sound}
use dbsc_python.Jwt.{JwtVerifier, ParsedJwt}
use dbsc_python.Config.{Config}
use dbsc_python.Request.{RequestContext, header}
use dbsc_python.Binding.{Binding}
use dbsc_python.Audit.{refresh_failed, refresh_retryable}
use dbsc_python.Effect.{clock, store, get_binding, lift, pure, ◌>>=◌}
use dbsc_python.Effect.Ensures.{
  History, Ensures, Ensures-if, Ensures-lift, Ensures-then, Ensures-weaken, OnOk,
}
use dbsc_python.Server.Messages.{header_session_id, same_user, fail}
use dbsc_python.Server.Registration.{or_invalid_jwt}
use dbsc_python.Server.Registration.Response.{or_invalid_jwt-Ensures}
use dbsc_python.Server.Refresh.{
  session_matches, verify_refresh, challenge_matches, check_proof, check_binding, binding_proved_by,
}

-- The signed challenge is the current one, or the previous one at a reading within its own TTL.
-- `h` is the history before the checks of the challenge, `h'` the one behind them.
abbrev pub Challenged : Config → Binding → Text → ℤ → History → History → Type 0
Challenged config b jti t h h' =
    ((jti ≡ b.challenge) × (h' ≡ (clock, t) ∷ h))
    ⊎ ((t' : ℤ) × (jti ≡ b.previous_challenge)
        × (b.previous_challenge ≢ [])
        × (t' -ℤ b.previous_challenge_time ≤ℤ config.challenge_ttl_seconds)
        × (h' ≡ (clock, t') ∷ (clock, t) ∷ h))

module _ (config : Config) (verifier : JwtVerifier) (jwt : Text) (ctx : RequestContext) where
  -- The JWT proves the device key of `b`: the request is the user's and the session's, the
  -- current challenge was within its TTL at the reading `t`, and the signature verifies under the
  -- stored key.
  pub record IsProof (b : Binding) (h h' : History) : Type 0 where
    pub user : same_user b.user_id ctx.user_id ≡ true
    pub session :
        (id : Text)
        → header ctx header_session_id ≡ some id
        → (id ≡ []) ⊎ (b.session_identifier ≡ id)
    pub has_challenge : b.challenge ≢ []
    pub read_at : ℤ
    pub live : read_at -ℤ b.challenge_time ≤ℤ config.challenge_ttl_seconds
    pub parsed : ParsedJwt
    pub parses : verifier.parse jwt ≡ ok parsed
    pub jti : Text
    pub signed : verifier.verify_refresh_jwt parsed b.public_key_pem ≡ ok jti
    pub challenged : Challenged config b jti read_at h h'

  -- Inside the TTL test of the previous challenge.
  previous-Ensures :
      (b : Binding) (jti : Text) (t t' : ℤ) (h : History)
      → is_empty b.previous_challenge ≡ false
      → leb_ℤ (t' -ℤ b.previous_challenge_time) config.challenge_ttl_seconds ≡ true
      → Ensures
          (OnOk (λ m h'. m ≡ true → Challenged config b jti t h h'))
          (lift (constant_time_equals b.previous_challenge jti))
          ((clock, t') ∷ (clock, t) ∷ h)
  previous-Ensures b jti t t' h present within =
      elim (Result-cases (constant_time_equals b.previous_challenge jti)) [
        | inl (m, e) ↦ rw e λ yes_m. inr (
          t',
          sym (constant_time_equals_sound _ _ (rw (← yes_m) e)),
          λ none_left. false≢true (sym present ∙ ap is_empty none_left),
          leb_ℤ→≤ℤ (t' -ℤ b.previous_challenge_time) config.challenge_ttl_seconds within,
          refl,
        )
        | inr (x, e) ↦ rw e tt
      ]

  pub challenge_matches-Ensures :
      (b : Binding) (jti : Text) (t : ℤ) (h : History)
      → Ensures
          (OnOk (λ m h'. m ≡ true → Challenged config b jti t h h'))
          (challenge_matches config verifier b jti)
          ((clock, t) ∷ h)
  unfolding challenge_matches
  challenge_matches-Ensures b jti t h =
      Ensures-lift _ (constant_time_equals b.challenge jti) _ _
        (λ current e.
          Ensures-if _ current _ _ _
            (λ p q. inl (sym (constant_time_equals_sound _ _ (rw (← p) e)), refl))
            (λ _.
              Ensures-if _ (is_empty b.previous_challenge) _ _ _ (λ _. λ q. cc)
                (λ present. λ t'.
                  Ensures-if _
                    (leb_ℤ (t' -ℤ b.previous_challenge_time) config.challenge_ttl_seconds) _ _ _
                    (previous-Ensures b jti t t' h present) (λ _ q. cc))))
        (λ _ _. tt)

  abbrev verified : Binding → Result Text
  verified b = verify_refresh verifier jwt b.public_key_pem

  -- The end of `check_proof`, behind the signature.
  check_jti :
      (b : Binding) (h : History) (t : ℤ) (jti : Text)
      → same_user b.user_id ctx.user_id ≡ true
      → ((id : Text)
          → header ctx header_session_id ≡ some id
          → (id ≡ []) ⊎ (b.session_identifier ≡ id))
      → is_empty b.challenge ≡ false
      → ltb_ℤ config.challenge_ttl_seconds (t -ℤ b.challenge_time) ≡ false
      → verified b ≡ ok jti
      → Ensures
          (OnOk (λ b' h'. (b' ≡ b) × IsProof b h h'))
          (do
            matches ← challenge_matches config verifier b jti
            if matches
                then pure b
                else fail refresh_retryable
                    (codes "Challenge mismatch.")
                    ctx
                    challenge_mismatch_error
                    (codes "Challenge mismatch"))
          ((clock, t) ∷ h)
  unfolding verify_refresh
  check_jti b h t jti user session present live signed =
      let (parsed, verifies, parses) = >>=-eq-ok _ (verifier.parse jwt) signed in
      Ensures-then _ _ (challenge_matches config verifier b jti) _ ((clock, t) ∷ h)
        (challenge_matches-Ensures b jti t h)
        (λ matches h₂ found.
          Ensures-if _ matches _ _ _
            (λ p. (
              refl,
              record {
                user = user;
                session = session;
                has_challenge = λ e. false≢true (sym present ∙ ap is_empty e);
                read_at = t;
                live = not-ltb_ℤ→≤ℤ config.challenge_ttl_seconds (t -ℤ b.challenge_time) live;
                parsed = parsed;
                parses = parses;
                jti = jti;
                signed = verifies;
                challenged = found p;
              },
            ))
            (λ _ _. tt))

  check_proof-Ensures :
      (b : Binding) (h : History)
      → same_user b.user_id ctx.user_id ≡ true
      → ((id : Text)
          → header ctx header_session_id ≡ some id
          → (id ≡ []) ⊎ (b.session_identifier ≡ id))
      → Ensures
          (OnOk (λ b' h'. (b' ≡ b) × IsProof b h h'))
          (check_proof config verifier jwt ctx b)
          h
  unfolding check_proof
  check_proof-Ensures b h user session =
      Ensures-if _ (is_empty b.challenge) _ _ _ (λ _ _. tt)
        (λ present t.
          Ensures-if _ (ltb_ℤ config.challenge_ttl_seconds (t -ℤ b.challenge_time)) _ _ _
            (λ _ _. tt)
            (λ live.
              Ensures-then _ _ (or_invalid_jwt refresh_failed ctx (verified b)) _ ((clock, t) ∷ h)
                (or_invalid_jwt-Ensures refresh_failed ctx (verified b) ((clock, t) ∷ h))
                (λ jti h₁ r. rw r.1 (check_jti b h t jti user session present live r.0))))

  session_matches_sound :
      (b : Binding) (presented : Option Text)
      → session_matches b presented ≡ ok true
      → (id : Text) → presented ≡ some id
      → (id ≡ []) ⊎ (b.session_identifier ≡ id)
  unfolding session_matches
  session_matches_sound b none p id e = cc
  session_matches_sound b (some []) p id e = inl (ground arith)
  session_matches_sound b (some (c ∷ s)) p id e = inr (constant_time_equals_sound _ _ p ∙ cc)

  check_binding-Ensures :
      (b : Binding) (h : History)
      → Ensures
          (OnOk (λ b' h'. (b' ≡ b) × IsProof b h h'))
          (check_binding config verifier jwt ctx (some b))
          h
  unfolding check_binding
  check_binding-Ensures b h =
      Ensures-if _ (same_user b.user_id ctx.user_id) _ _ _
        (λ user.
          Ensures-lift _ (session_matches b (header ctx header_session_id)) _ _
            (λ matches e.
              Ensures-if _ matches _ _ _
                (λ p.
                  check_proof-Ensures b h user
                    (session_matches_sound b (header ctx header_session_id) (rw (← p) e)))
                (λ _ _. tt))
            (λ _ _. tt))
        (λ _ _. tt)

  abbrev IsReadProof : History → Binding → History → Type 0
  IsReadProof h b h' = IsProof b ((store (get_binding ctx.session_id), ok (some b)) ∷ h) h'

  same_binding :
      (b : Binding) (h : History) (r : Result Binding) (h' : History)
      → OnOk
          (λ b' h'. (b' ≡ b) × IsProof b ((store (get_binding ctx.session_id), ok (some b)) ∷ h) h')
          r
          h'
      → OnOk (IsReadProof h) r h'
  same_binding b h (ok b') h' (e, proof) = rw e proof
  same_binding b h (raise e) h' _ = tt

  -- A binding that `_binding_proved_by` returns was read from the store by its first call, and
  -- the JWT is a proof for that binding.
  pub binding_proved_by-Ensures :
      (h : History)
      → Ensures
          (OnOk (λ b h'. IsProof b ((store (get_binding ctx.session_id), ok (some b)) ∷ h) h'))
          (binding_proved_by config verifier jwt ctx)
          h
  unfolding binding_proved_by
  binding_proved_by-Ensures h (raise e) = tt
  binding_proved_by-Ensures h (ok none) = λ _. tt
  binding_proved_by-Ensures h (ok (some b)) =
      Ensures-weaken _ _ (check_binding config verifier jwt ctx (some b)) _
        (check_binding-Ensures b _) (same_binding b h)
