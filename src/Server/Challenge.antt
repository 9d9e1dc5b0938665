-- ===== src/Server/Challenge.antt =====
-- `issue_refresh_challenge` and `advertise_refresh_challenge`.
pub mod Emission
use dbsc_python.Base.{ℕ, zero, suc, Bool, ◌||◌, not, none, some, Option, ◌++◌, if◌then◌else◌}
use dbsc_python.Base.Int.{◌-ℤ◌, ltb_ℤ}
use dbsc_python.Base.Text.{is_empty}
use dbsc_python.Config.{Config}
use dbsc_python.Request.{RequestContext}
use dbsc_python.Response.{DbscResponse, empty_response}
use dbsc_python.Binding.{Binding, with_challenge, mark_challenge_advertised}
use dbsc_python.Effect.{
  Program, call, store, get_binding, replace_binding, pure, lift, or_again, ◌>>=◌,
}
use dbsc_python.Server.Messages.{
  no_store, nonce, now, same_user, challenge_headers, challenge_403, bare_403,
}

-- `_MAX_UPDATE_ATTEMPTS`
abbrev pub max_update_attempts : ℕ
max_update_attempts = 3

-- `return` of the loop's body is `some`, its end is `none`.
unfoldable pub rotate_challenge : RequestContext → Option Binding → Program (Option DbscResponse)
rotate_challenge ctx none = pure (some bare_403)
rotate_challenge ctx (some binding) = do
  challenge ← nonce
  time ← now
  rotated ← lift (with_challenge binding challenge time)
  replaced ← call (store (replace_binding ctx.session_id binding rotated)) lift
  pure (if replaced then some (challenge_403 rotated.session_identifier challenge) else none)

unfoldable pub unrotated_403 : Option Binding → DbscResponse
unrotated_403 none = bare_403
unrotated_403 (some binding) = challenge_403 binding.session_identifier binding.challenge

-- The loop with `attempts` rounds left, and what follows it.
unfoldable pub issue_loop : ℕ → RequestContext → Program DbscResponse
unfolding rotate_challenge unrotated_403
issue_loop zero ctx = do
  found ← call (store (get_binding ctx.session_id)) lift
  pure (unrotated_403 found)
issue_loop (suc attempts) ctx = do
  found ← call (store (get_binding ctx.session_id)) lift
  answered ← rotate_challenge ctx found
  or_again answered (issue_loop attempts ctx)

unfoldable pub issue_refresh_challenge : RequestContext → Program DbscResponse
unfolding issue_loop
issue_refresh_challenge ctx = issue_loop max_update_attempts ctx

module _ (config : Config) where
  -- The conditions of `advertise_refresh_challenge` that need no clock; it reads the clock last.
  unfoldable pub nothing_to_advertise : Binding → RequestContext → Bool
  unfolding same_user
  nothing_to_advertise binding ctx =
      not (same_user binding.user_id ctx.user_id)
      || binding.challenge_advertised
      || binding.has_refreshed
      || is_empty binding.challenge

  unfoldable pub advertise_refresh_challenge : Binding → RequestContext → Program DbscResponse
  unfolding nothing_to_advertise
  advertise_refresh_challenge binding ctx =
      if nothing_to_advertise binding ctx then pure empty_response else do
        time ← now
        if ltb_ℤ config.challenge_ttl_seconds (time -ℤ binding.challenge_time)
            then pure empty_response
            else do
              marked ← lift (mark_challenge_advertised binding)
              replaced ← call (store (replace_binding ctx.session_id binding marked)) lift
              pure (
                  if replaced
                  then record empty_response {
                    headers =
                        challenge_headers binding.session_identifier binding.challenge ++ no_store;
                  }
                  else empty_response)
