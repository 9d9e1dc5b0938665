-- ===== src/Server/Registration.antt =====
-- The offer and the registration: `build_registration_header_response` and `register`.
pub mod Response
pub mod Failures
pub mod Offer
use dbsc_python.Base.{false, none, some, Option, [], ◌∷◌, ◌++◌, if◌then◌else◌}
use dbsc_python.Base.Int.{ℤ, pos, ◌-ℤ◌, ltb_ℤ}
use dbsc_python.Base.Text.{Text, codes, is_empty}
use dbsc_python.Exceptions.{
  Exception, ExceptionClass, Result, ok, raise, jwt_invalid_error, challenge_expired_error,
  missing_challenge_error, session_not_found_error,
}
use dbsc_python.Encoding.{constant_time_equals}
use dbsc_python.Jwt.{JwtVerifier, RegistrationResult}
use dbsc_python.Config.{Config}
use dbsc_python.Request.{RequestContext}
use dbsc_python.Response.{DbscResponse}
use dbsc_python.Pending.{PendingRegistration, pending_registration}
use dbsc_python.Binding.{Binding, post_init}
use dbsc_python.Audit.{AuditEvent, registration_failed, registered}
use dbsc_python.Effect.{
  Program, call, store, put_pending_registration, get_pending_registration, commit_registration,
  pure, lift, ◌>>=◌, ◌>>◌,
}
use dbsc_python.Exceptions
use dbsc_python.Server.Messages.{
  header_registration, header_session_id, no_store, nonce, now, log, fail, same_user, quoted,
  bound_cookie_at,
}
use dbsc_python.Server.Instructions.{instructions_json}

unfoldable pub registration_value : Config → Text → Text
registration_value config challenge =
    codes "(ES256); path="
    ++ quoted config.register_path
    ++ codes "; challenge="
    ++ quoted challenge

unfoldable pub build_registration_header_response : Config → RequestContext → Program DbscResponse
unfolding registration_value
build_registration_header_response config ctx = do
  challenge ← nonce
  time ← now
  pending ← lift (pending_registration ctx.user_id challenge time)
  call (store (put_pending_registration ctx.session_id pending)) λ _. pure (record {
    headers = (header_registration, registration_value config challenge) ∷ no_store;
    cookies = [];
    status = none;
    body = none;
    content_type = none;
  })

-- `self._jwt_verifier.verify_registration_jwt(self._jwt_verifier.parse(jwt))`
unfoldable pub verify_registration : JwtVerifier → Text → Result RegistrationResult
verify_registration verifier jwt =
    Exceptions.◌>>=◌ (verifier.parse jwt) verifier.verify_registration_jwt

-- The handler of an exception of this class; only `JwtInvalidError` is caught and reported.
unfoldable pub rethrow :
    {A : Type 0} → AuditEvent → RequestContext → Exception → ExceptionClass → Program A
rethrow event ctx e jwt_invalid_error =
    log event (codes "Invalid JWT: " ++ e.message) ctx >> lift (raise e)
rethrow event ctx e _ = lift (raise e)

-- `except JwtInvalidError as e`: audit and raise again; any other exception passes.
unfoldable pub or_invalid_jwt : {A : Type 0} → AuditEvent → RequestContext → Result A → Program A
unfolding rethrow
or_invalid_jwt event ctx (ok a) = pure a
or_invalid_jwt event ctx (raise e) = rethrow event ctx e e.kind

-- The binding that a verified registration stores.
unfoldable pub new_binding :
    PendingRegistration → RequestContext → RegistrationResult → Text → Text → Text → ℤ → Binding
new_binding pending ctx result session_identifier cookie_value challenge time = record {
  user_id = if is_empty pending.user_id then ctx.user_id else pending.user_id;
  session_identifier = session_identifier;
  cookie_value = cookie_value;
  public_key_pem = result.public_key_pem;
  algorithm = result.algorithm;
  challenge = challenge;
  challenge_time = time;
  created_at = time;
  cookie_issued_at = time;
  previous_cookie_value = [];
  previous_cookie_expires_at = pos 0;
  has_refreshed = false;
  previous_challenge = [];
  previous_challenge_time = pos 0;
  challenge_advertised = false;
}

module _ (config : Config) where
  -- The 200 of a registration; the cookie's expiry is counted from `issued`.
  unfoldable pub registered_response : RequestContext → Text → Text → ℤ → DbscResponse
  registered_response ctx session_identifier cookie_value issued = record {
    headers = (header_session_id, session_identifier) ∷ no_store;
    cookies = bound_cookie_at config cookie_value issued ∷ [];
    status = some 200;
    body = some (instructions_json config session_identifier ctx);
    content_type = some (codes "application/json");
  }

  -- What `register` does once the offer and the JWT agree.
  unfoldable pub commit_offer :
      RequestContext → PendingRegistration → RegistrationResult → Program DbscResponse
  unfolding new_binding registered_response
  commit_offer ctx pending result = do
    time ← now
    session_identifier ← nonce
    cookie_value ← nonce
    challenge ← nonce
    binding ←
        lift (
          post_init (new_binding pending ctx result session_identifier cookie_value challenge time))
    committed ← call (store (commit_registration ctx.session_id pending binding)) lift
    if committed
        then (do
          log registered (codes "DBSC session registered.") ctx
          issued ← now
          pure (registered_response ctx session_identifier cookie_value issued))
        else fail registration_failed (codes "Offer withdrawn or used concurrently.") ctx
            missing_challenge_error (codes "Registration offer is no longer live")

module _ (config : Config) (verifier : JwtVerifier) where
  -- The checks of `register` on the offer that was read.
  unfoldable pub check_offer :
      Text
      → RequestContext
      → Option PendingRegistration
      → Program (PendingRegistration × RegistrationResult)
  unfolding same_user verify_registration or_invalid_jwt
  check_offer jwt ctx none =
      fail registration_failed (codes "No pending registration challenge.") ctx
        missing_challenge_error (codes "No pending registration challenge")
  check_offer jwt ctx (some pending) =
      if same_user pending.user_id ctx.user_id
      then (do
        time ← now
        if ltb_ℤ config.challenge_ttl_seconds (time -ℤ pending.reg_challenge_time)
            then fail registration_failed (codes "Registration challenge expired.") ctx
                challenge_expired_error (codes "Registration challenge expired")
            else do
              result ← or_invalid_jwt registration_failed ctx (verify_registration verifier jwt)
              matches ← lift (constant_time_equals pending.reg_challenge result.challenge)
              if matches
                  then pure (pending, result)
                  else fail registration_failed (codes "Challenge mismatch.") ctx jwt_invalid_error
                      (codes "Challenge mismatch"))
      else fail registration_failed (codes "Offer was made to a different user.") ctx
          session_not_found_error (codes "Registration offer belongs to a different user")

  unfoldable pub register : Text → RequestContext → Program DbscResponse
  unfolding check_offer commit_offer
  register jwt ctx = do
    pending ← call (store (get_pending_registration ctx.session_id)) lift
    (offer, result) ← check_offer jwt ctx pending
    commit_offer config ctx offer result
