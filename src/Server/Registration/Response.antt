-- ===== src/Server/Registration/Response.antt =====
-- What stands behind a successful response of `register`.
use dbsc_python.Base.{
  ◌≡◌, refl, sym, ℕ, true, false, some, none, List, [], ◌∷◌, Bool, if◌then◌else◌,
}
use dbsc_python.Base.Int.{ℤ, pos, ◌+ℤ◌, ◌-ℤ◌, ◌≤ℤ◌, ltb_ℤ, not-ltb_ℤ→≤ℤ}
use dbsc_python.Base.Text.{Text, codes, is_empty}
use dbsc_python.Exceptions.{
  Exception, ExceptionClass, Result, ok, raise, jwt_invalid_error, >>=-eq-ok,
}
use dbsc_python.Encoding.{constant_time_equals}
use dbsc_python.Encoding.Injective.{constant_time_equals_sound}
use dbsc_python.Jwt.{JwtVerifier, ParsedJwt, RegistrationResult}
use dbsc_python.Config.{Config}
use dbsc_python.Request.{RequestContext}
use dbsc_python.Response.{DbscResponse}
use dbsc_python.Pending.{PendingRegistration}
use dbsc_python.Binding.{Binding, post_init}
use dbsc_python.Binding.Laws.{post_init-eq-ok}
use dbsc_python.Audit.{AuditEvent, registered, registration_failed}
use dbsc_python.Effect.{
  clock, store, audit, token_bytes, get_pending_registration, commit_registration, pure, lift,
  ◌>>=◌,
}
use dbsc_python.Effect.Ensures.{
  History, Ensures, Ensures-if, Ensures-lift, Ensures-then, Ensures-weaken, OnOk,
}
use dbsc_python.Server.Messages.{hex, same_user, fail, bound_cookie_at}
use dbsc_python.Server.Instructions.{instructions_json}
use dbsc_python.Server.Registration.{
  new_binding, registered_response, commit_offer, verify_registration, rethrow, or_invalid_jwt,
  check_offer, register,
}

rethrow-Ensures :
    {A : Type 0} (P : A → History → Type 0) (event : AuditEvent) (ctx : RequestContext)
    (e : Exception) (k : ExceptionClass) (h : History)
    → Ensures (OnOk P) (rethrow event ctx e k) h
unfolding rethrow
rethrow-Ensures P event ctx e jwt_invalid_error h = λ _. tt
rethrow-Ensures P event ctx e _ h = tt

pub or_invalid_jwt-Ensures :
    {A : Type 0} (event : AuditEvent) (ctx : RequestContext) (r : Result A) (h : History)
    → Ensures (OnOk (λ a h'. (r ≡ ok a) × (h' ≡ h))) (or_invalid_jwt event ctx r) h
unfolding or_invalid_jwt
or_invalid_jwt-Ensures event ctx (ok a) h = (refl, refl)
or_invalid_jwt-Ensures event ctx (raise e) h = rethrow-Ensures _ event ctx e e.kind h

module _ (config : Config) (verifier : JwtVerifier) (jwt : Text) (ctx : RequestContext) where
  -- The JWT answers the offer `p`: it is the user's, it was within its TTL at a reading of the
  -- clock, and the JWT verifies under its own key and signs the offered challenge.
  pub record IsAnswer (p : PendingRegistration) (result : RegistrationResult) (h h' : History)
      : Type 0 where
    pub user : same_user p.user_id ctx.user_id ≡ true
    pub read_at : ℤ
    pub live : read_at -ℤ p.reg_challenge_time ≤ℤ config.challenge_ttl_seconds
    pub parsed : ParsedJwt
    pub parses : verifier.parse jwt ≡ ok parsed
    pub verifies : verifier.verify_registration_jwt parsed ≡ ok result
    pub challenge : result.challenge ≡ p.reg_challenge
    pub reading : h' ≡ (clock, read_at) ∷ h

  abbrev Answers :
      PendingRegistration → History → PendingRegistration × RegistrationResult → History → Type 0
  Answers p h (p', result) h' = (p' ≡ p) × IsAnswer p result h h'

  check_result :
      (p : PendingRegistration) (result : RegistrationResult) (t : ℤ) (h : History)
      → same_user p.user_id ctx.user_id ≡ true
      → ltb_ℤ config.challenge_ttl_seconds (t -ℤ p.reg_challenge_time) ≡ false
      → verify_registration verifier jwt ≡ ok result
      → Ensures
          (OnOk (Answers p h))
          (do
            matches ← lift (constant_time_equals p.reg_challenge result.challenge)
            if matches
                then pure (p, result)
                else fail registration_failed
                    (codes "Challenge mismatch.")
                    ctx
                    jwt_invalid_error
                    (codes "Challenge mismatch"))
          ((clock, t) ∷ h)
  unfolding verify_registration
  check_result p result t h user live signed =
      let (parsed, verifies, parses) = >>=-eq-ok _ (verifier.parse jwt) signed in
      Ensures-lift _ (constant_time_equals p.reg_challenge result.challenge) _ _
        (λ matches e.
          Ensures-if _ matches _ _ _
            (λ q. (
              refl,
              record {
                user = user;
                read_at = t;
                live = not-ltb_ℤ→≤ℤ config.challenge_ttl_seconds (t -ℤ p.reg_challenge_time) live;
                parsed = parsed;
                parses = parses;
                verifies = verifies;
                challenge = sym (constant_time_equals_sound _ _ (rw (← q) e));
                reading = refl;
              },
            ))
            (λ _ _. tt))
        (λ _ _. tt)

  check_offer-Ensures :
      (p : PendingRegistration) (h : History)
      → Ensures (OnOk (Answers p h)) (check_offer config verifier jwt ctx (some p)) h
  unfolding check_offer
  check_offer-Ensures p h =
      Ensures-if _ (same_user p.user_id ctx.user_id) _ _ _
        (λ user t.
          Ensures-if _ (ltb_ℤ config.challenge_ttl_seconds (t -ℤ p.reg_challenge_time)) _ _ _
            (λ _ _. tt)
            (λ live.
              Ensures-then _ _
                (or_invalid_jwt registration_failed ctx (verify_registration verifier jwt)) _
                ((clock, t) ∷ h)
                (or_invalid_jwt-Ensures registration_failed ctx (verify_registration verifier jwt)
                  ((clock, t) ∷ h))
                (λ result h₁ r. rw r.1 (check_result p result t h user live r.0))))
        (λ _ _. tt)

  -- The binding that a registration stores: the offer's user, or else the request's, the key that
  -- the JWT verified under, and the random values and the reading of the clock of this run.
  abbrev bound_to :
      PendingRegistration → RegistrationResult → List ℕ → List ℕ → List ℕ → ℤ → Binding
  bound_to p result id_bytes cookie_bytes challenge_bytes time = record {
    user_id = if is_empty p.user_id then ctx.user_id else p.user_id;
    session_identifier = hex id_bytes;
    cookie_value = hex cookie_bytes;
    public_key_pem = result.public_key_pem;
    algorithm = result.algorithm;
    challenge = hex challenge_bytes;
    challenge_time = time;
    created_at = time;
    cookie_issued_at = time;
    previous_cookie_value = [];
    previous_cookie_expires_at = pos 0;
    has_refreshed = false;
    previous_challenge = [];
    previous_challenge_time = pos 0;
    challenge_advertised = false;
  }

  -- The end of the history of a registration that was committed on the offer `p`.
  pub record IsCommit (p : PendingRegistration) (result : RegistrationResult) (checked : History)
      (response : DbscResponse) (h : History) : Type 0 where
    pub time : ℤ
    pub id_bytes : List ℕ
    pub cookie_bytes : List ℕ
    pub challenge_bytes : List ℕ
    pub issued : ℤ
    pub history :
        h
        ≡ (clock, issued)
          ∷ (audit registered (codes "DBSC session registered.") ctx.user_id, tt)
          ∷ (
            store (
                commit_registration ctx.session_id p
                  (bound_to p result id_bytes cookie_bytes challenge_bytes time)),
            ok true,
          )
          ∷ (token_bytes 32, challenge_bytes)
          ∷ (token_bytes 32, cookie_bytes)
          ∷ (token_bytes 32, id_bytes)
          ∷ (clock, time)
          ∷ checked
    pub shown : response ≡ record {
      headers =
          (codes "Sec-Secure-Session-Id", hex id_bytes)
          ∷ (codes "Cache-Control", codes "no-store")
          ∷ [];
      cookies =
          record {
            name = config.cookie_name;
            value = hex cookie_bytes;
            expires_at = issued +ℤ config.cookie_max_age_seconds;
            delete = false;
            path = codes "/";
            secure = true;
            http_only = true;
            same_site = config.cookie_same_site;
          }
          ∷ [];
      status = some 200;
      body = some (instructions_json config (hex id_bytes) ctx);
      content_type = some (codes "application/json");
    }

  commit_offer-Ensures :
      (p : PendingRegistration) (result : RegistrationResult) (h : History)
      → Ensures (OnOk (IsCommit p result h)) (commit_offer config ctx p result) h
  unfolding commit_offer new_binding registered_response bound_cookie_at
  commit_offer-Ensures p result h = λ time id_bytes cookie_bytes challenge_bytes.
      let new = bound_to p result id_bytes cookie_bytes challenge_bytes time in
      Ensures-lift _ (post_init new) _ _
        (λ b e. rw (post_init-eq-ok new b e).0 (λ (won : Result Bool).
          Ensures-lift _ won _ _
            (λ committed q.
              Ensures-if _ committed _ _ _
                (λ yes_c. λ _ issued. record {
                  time = time;
                  id_bytes = id_bytes;
                  cookie_bytes = cookie_bytes;
                  challenge_bytes = challenge_bytes;
                  issued = issued;
                  history = rw (q, yes_c);
                  shown = refl;
                })
                (λ _ _. tt))
            (λ _ _. tt)))
        (λ _ _. tt)

  -- A registration that succeeds.
  pub record IsRegistered (response : DbscResponse) (before h : History) : Type 0 where
    pub offer : PendingRegistration
    pub result : RegistrationResult
    pub checked : History
    pub answer :
        IsAnswer offer result
          ((store (get_pending_registration ctx.session_id), ok (some offer)) ∷ before)
          checked
    pub commit : IsCommit offer result checked response h

  committed :
      (p : PendingRegistration) (result : RegistrationResult) (before checked : History)
      → IsAnswer p result
          ((store (get_pending_registration ctx.session_id), ok (some p)) ∷ before)
          checked
      → (r : Result DbscResponse) (h : History) → OnOk (IsCommit p result checked) r h
      → OnOk (λ response. IsRegistered response before) r h
  committed p result before checked answer (ok response) h commit = record {
    offer = p;
    result = result;
    checked = checked;
    answer = answer;
    commit = commit;
  }
  committed p result before checked answer (raise e) h _ = tt

  -- Whatever the calls answer, a response of `register` has behind it an offer read from the
  -- store, a JWT that verifies under its own key and signs that offer's challenge within the TTL,
  -- and a commit that found the offer still stored. The commit stores the key that the JWT
  -- verified under with fresh random values, and the response carries these: the session
  -- identifier, and the cookie, whose age is counted from the last reading of the clock.
  pub register-IsRegistered :
      (h : History)
      → Ensures (OnOk (λ response. IsRegistered response h)) (register config verifier jwt ctx) h
  unfolding register check_offer
  register-IsRegistered h (raise e) = tt
  register-IsRegistered h (ok none) = λ _. tt
  register-IsRegistered h (ok (some p)) =
      Ensures-then _ _ (check_offer config verifier jwt ctx (some p)) _ _
        (check_offer-Ensures p ((store (get_pending_registration ctx.session_id), ok (some p)) ∷ h))
        (λ found checked r. rw r.0 (
          Ensures-weaken _ _ (commit_offer config ctx p found.1) checked
            (commit_offer-Ensures p found.1 checked)
            (λ result h' c. committed p found.1 h checked r.1 result h' c)))
