-- ===== src/Server/Refresh.antt =====
-- `_binding_proved_by` and `refresh`.
pub mod Proved
pub mod Response
pub mod Audits
pub mod Overlap
pub mod Untouched
use dbsc_python.Base.{
  ℕ, zero, suc, Bool, true, false, none, some, Option, [], ◌∷◌, ◌++◌, if◌then◌else◌,
}
use dbsc_python.Base.Int.{ℤ, ◌-ℤ◌, ltb_ℤ, leb_ℤ}
use dbsc_python.Base.Text.{Text, codes, is_empty}
use dbsc_python.Exceptions
use dbsc_python.Exceptions.{
  Result, ok, challenge_expired_error, challenge_mismatch_error, missing_challenge_error,
  session_not_found_error,
}
use dbsc_python.Encoding.{constant_time_equals}
use dbsc_python.Jwt.{JwtVerifier}
use dbsc_python.Config.{Config}
use dbsc_python.Request.{RequestContext, header}
use dbsc_python.Response.{DbscResponse}
use dbsc_python.Binding.{Binding, with_rotated_cookie_and_challenge}
use dbsc_python.Audit.{refreshed, refresh_failed, refresh_retryable}
use dbsc_python.Effect.{
  Program, call, store, get_binding, replace_binding, pure, lift, or_again, ◌>>=◌, ◌>>◌,
}
use dbsc_python.Server.Messages.{
  header_session_id, no_store, nonce, now, log, fail, same_user, challenge_headers, bound_cookie_at,
}
use dbsc_python.Server.Instructions.{instructions_json}
use dbsc_python.Server.Registration.{or_invalid_jwt}
use dbsc_python.Server.Challenge.{max_update_attempts}

-- Does the presented `Sec-Secure-Session-Id`, if any, name this session?
unfoldable pub session_matches : Binding → Option Text → Result Bool
session_matches binding none = ok true
session_matches binding (some presented) =
    if is_empty presented
    then ok true
    else constant_time_equals binding.session_identifier presented

-- `parse`, then `verify_refresh_jwt` under the key of the binding
unfoldable pub verify_refresh : JwtVerifier → Text → Text → Result Text
verify_refresh verifier jwt pem =
    Exceptions.◌>>=◌ (verifier.parse jwt) (λ parsed. verifier.verify_refresh_jwt parsed pem)

module _ (config : Config) where
  -- The 200 of a refresh; the cookie's expiry is counted from `issued`.
  unfoldable pub refreshed_response : RequestContext → Binding → Text → Text → ℤ → DbscResponse
  refreshed_response ctx rotated new_cookie new_challenge issued = record {
    headers = challenge_headers rotated.session_identifier new_challenge ++ no_store;
    cookies = bound_cookie_at config new_cookie issued ∷ [];
    status = some 200;
    body = some (instructions_json config rotated.session_identifier ctx);
    content_type = some (codes "application/json");
  }

  -- The rest of a round of `refresh`: the response, or `none` if another request won the write.
  unfoldable pub rotate : RequestContext → Binding → Program (Option DbscResponse)
  unfolding refreshed_response
  rotate ctx binding = do
    time ← now
    new_cookie ← nonce
    new_challenge ← nonce
    rotated ← lift (
        with_rotated_cookie_and_challenge binding new_cookie new_challenge time time
          config.cookie_max_age_seconds)
    replaced ← call (store (replace_binding ctx.session_id binding rotated)) lift
    if replaced
        then (do
          log refreshed (codes "DBSC cookie refreshed.") ctx
          issued ← now
          pure (some (refreshed_response ctx rotated new_cookie new_challenge issued)))
        else pure none

module _ (config : Config) (verifier : JwtVerifier) where
  -- `challenge_matches`: the current challenge, or the previous one until its own TTL
  unfoldable pub challenge_matches : Binding → Text → Program Bool
  challenge_matches binding jti = do
    current ← lift (constant_time_equals binding.challenge jti)
    if current then pure true else if is_empty binding.previous_challenge then pure false else do
      time ← now
      if leb_ℤ (time -ℤ binding.previous_challenge_time) config.challenge_ttl_seconds
          then lift (constant_time_equals binding.previous_challenge jti)
          else pure false

  -- The checks that follow the session's.
  unfoldable pub check_proof : Text → RequestContext → Binding → Program Binding
  unfolding challenge_matches verify_refresh or_invalid_jwt
  check_proof jwt ctx binding =
      if is_empty binding.challenge
      then fail refresh_retryable (codes "No pending challenge.") ctx missing_challenge_error
          (codes "No pending challenge")
      else do
        time ← now
        if ltb_ℤ config.challenge_ttl_seconds (time -ℤ binding.challenge_time)
            then fail refresh_retryable (codes "Challenge expired.") ctx challenge_expired_error
                (codes "Challenge expired")
            else do
              jti ←
                  or_invalid_jwt refresh_failed ctx
                    (verify_refresh verifier jwt binding.public_key_pem)
              matches ← challenge_matches binding jti
              if matches
                  then pure binding
                  else fail refresh_retryable (codes "Challenge mismatch.") ctx
                      challenge_mismatch_error (codes "Challenge mismatch")

  -- The checks of `_binding_proved_by` on the binding that was read.
  unfoldable pub check_binding : Text → RequestContext → Option Binding → Program Binding
  unfolding same_user session_matches check_proof
  check_binding jwt ctx none =
      fail refresh_failed (codes "No DBSC session bound.") ctx session_not_found_error
        (codes "No DBSC session bound to this user")
  check_binding jwt ctx (some binding) =
      if same_user binding.user_id ctx.user_id
      then (do
        matches ← lift (session_matches binding (header ctx header_session_id))
        if matches
            then check_proof jwt ctx binding
            else fail refresh_failed (codes "Session identifier mismatch.") ctx
                session_not_found_error (codes "DBSC session identifier mismatch"))
      else fail refresh_failed (codes "Binding belongs to a different user.") ctx
          session_not_found_error (codes "DBSC session belongs to a different user")

  -- `_binding_proved_by`
  unfoldable pub binding_proved_by : Text → RequestContext → Program Binding
  unfolding check_binding
  binding_proved_by jwt ctx = do
    found ← call (store (get_binding ctx.session_id)) lift
    check_binding jwt ctx found

  -- The loop with `attempts` rounds left, and what follows it.
  unfoldable pub refresh_loop : ℕ → Text → RequestContext → Program DbscResponse
  unfolding binding_proved_by rotate
  refresh_loop zero jwt ctx =
      fail refresh_retryable (codes "Binding changed concurrently.") ctx challenge_mismatch_error
        (codes "Binding changed concurrently")
  refresh_loop (suc attempts) jwt ctx = do
    binding ← binding_proved_by jwt ctx
    answered ← rotate config ctx binding
    or_again answered (refresh_loop attempts jwt ctx)

  unfoldable pub refresh : Text → RequestContext → Program DbscResponse
  unfolding refresh_loop
  refresh jwt ctx = refresh_loop max_update_attempts jwt ctx
