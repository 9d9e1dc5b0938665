-- ===== src/Server/Requests/Handlers.antt =====
-- The calls that registrations and refreshes can make.
use dbsc_python.Base.{ℕ, zero, suc, none, some, Option}
use dbsc_python.Base.Int.{◌-ℤ◌, ltb_ℤ, leb_ℤ}
use dbsc_python.Base.Text.{Text, is_empty}
use dbsc_python.Encoding.{constant_time_equals}
use dbsc_python.Jwt.{JwtVerifier, RegistrationResult}
use dbsc_python.Config.{Config}
use dbsc_python.Request.{RequestContext, header}
use dbsc_python.Pending.{PendingRegistration}
use dbsc_python.Binding.{Binding, post_init, fully_rotated, with_rotated_cookie_and_challenge}
use dbsc_python.Audit.{registration_failed, refresh_failed}
use dbsc_python.Effect.Every.{Every-bind, Every-lift, Every-if, Every-or_again}
use dbsc_python.Server.Messages.{header_session_id, same_user, hex}
use dbsc_python.Server.Registration.{
  new_binding, verify_registration, or_invalid_jwt, check_offer, commit_offer, register,
}
use dbsc_python.Server.Refresh.{
  session_matches, verify_refresh, challenge_matches, check_proof, check_binding, binding_proved_by,
  rotate, refresh_loop,
}
use dbsc_python.Server.Requests.Quiet.{
  Quiet, rotation-SameDevice, built-SameDevice, or_invalid_jwt-Quiet,
}

module _ (sid : Text) (config : Config) (verifier : JwtVerifier) where
  check_offer-Quiet :
      (jwt : Text) (ctx : RequestContext) (found : Option PendingRegistration)
      → Quiet sid (check_offer config verifier jwt ctx found)
  unfolding check_offer
  check_offer-Quiet jwt ctx none = (tt, λ _. tt)
  check_offer-Quiet jwt ctx (some p) =
      Every-if _ (same_user p.user_id ctx.user_id) _ _
        (
          tt,
          λ t.
              Every-if _ (ltb_ℤ config.challenge_ttl_seconds (t -ℤ p.reg_challenge_time)) _ _
                (tt, λ _. tt)
                (Every-bind _
                  (or_invalid_jwt registration_failed ctx (verify_registration verifier jwt)) _
                  (or_invalid_jwt-Quiet sid registration_failed ctx
                    (verify_registration verifier jwt))
                  (λ result.
                    Every-lift _ (constant_time_equals p.reg_challenge result.challenge) _
                      (λ matches _. Every-if _ matches _ _ tt (tt, λ _. tt)))),
        )
        (tt, λ _. tt)

  commit_offer-Quiet :
      (ctx : RequestContext) (p : PendingRegistration) (result : RegistrationResult)
      → Quiet sid (commit_offer config ctx p result)
  unfolding commit_offer
  commit_offer-Quiet ctx p result = (
    tt,
    λ time. (
      tt,
      λ ids. (
        tt,
        λ cookies. (
          tt,
          λ challenges.
              Every-lift _
                (post_init (new_binding p ctx result (hex ids) (hex cookies) (hex challenges) time))
                _
                (λ b _. (
                  tt,
                  λ won. Every-lift _ won _ (λ committed _.
                      Every-if _ committed _ _ (tt, λ _. (tt, λ _. tt)) (tt, λ _. tt)),
                )),
        ),
      ),
    ),
  )

  pub register-Quiet :
      (jwt : Text) (ctx : RequestContext) → Quiet sid (register config verifier jwt ctx)
  unfolding register
  register-Quiet jwt ctx = (
    tt,
    λ read. Every-lift _ read _ (λ found _.
        Every-bind _ (check_offer config verifier jwt ctx found) _ (check_offer-Quiet jwt ctx found)
          (λ checked. commit_offer-Quiet ctx checked.0 checked.1)),
  )

  challenge_matches-Quiet :
      (b : Binding) (jti : Text) → Quiet sid (challenge_matches config verifier b jti)
  unfolding challenge_matches
  challenge_matches-Quiet b jti =
      Every-lift _ (constant_time_equals b.challenge jti) _ (λ current _.
        Every-if _ current _ _ tt (
          Every-if _ (is_empty b.previous_challenge) _ _ tt (
            tt,
            λ t.
                Every-if _ (leb_ℤ (t -ℤ b.previous_challenge_time) config.challenge_ttl_seconds) _ _
                  tt tt,
          )))

  check_proof-Quiet :
      (jwt : Text) (ctx : RequestContext) (b : Binding)
      → Quiet sid (check_proof config verifier jwt ctx b)
  unfolding check_proof
  check_proof-Quiet jwt ctx b =
      Every-if _ (is_empty b.challenge) _ _ (tt, λ _. tt)
        (
          tt,
          λ t.
              Every-if _ (ltb_ℤ config.challenge_ttl_seconds (t -ℤ b.challenge_time)) _ _
                (tt, λ _. tt)
                (Every-bind _
                  (or_invalid_jwt refresh_failed ctx (verify_refresh verifier jwt b.public_key_pem))
                  _
                  (or_invalid_jwt-Quiet sid refresh_failed ctx
                    (verify_refresh verifier jwt b.public_key_pem))
                  (λ jti.
                    Every-bind _ (challenge_matches config verifier b jti) _
                      (challenge_matches-Quiet b jti)
                      (λ matches. Every-if _ matches _ _ tt (tt, λ _. tt)))),
        )

  check_binding-Quiet :
      (jwt : Text) (ctx : RequestContext) (found : Option Binding)
      → Quiet sid (check_binding config verifier jwt ctx found)
  unfolding check_binding
  check_binding-Quiet jwt ctx none = (tt, λ _. tt)
  check_binding-Quiet jwt ctx (some b) =
      Every-if _ (same_user b.user_id ctx.user_id) _ _
        (Every-lift _ (session_matches b (header ctx header_session_id)) _
          (λ matches _. Every-if _ matches _ _ (check_proof-Quiet jwt ctx b) (tt, λ _. tt)))
        (tt, λ _. tt)

  rotate-Quiet : (ctx : RequestContext) (b : Binding) → Quiet sid (rotate config ctx b)
  unfolding rotate with_rotated_cookie_and_challenge
  rotate-Quiet ctx b = (
    tt,
    λ time. (
      tt,
      λ cookies. (
        tt,
        λ challenges.
            Every-lift _
              (post_init (
                fully_rotated b (hex cookies) (hex challenges) time time
                  config.cookie_max_age_seconds))
              _
              (λ rotated e. (
                built-SameDevice b _ rotated (rotation-SameDevice b _ _ time time _) e,
                λ won.
                    Every-lift _ won _
                      (λ replaced _. Every-if _ replaced _ _ (tt, λ _. (tt, λ _. tt)) tt),
              )),
      ),
    ),
  )

  pub refresh_loop-Quiet :
      (attempts : ℕ) (jwt : Text) (ctx : RequestContext)
      → Quiet sid (refresh_loop config verifier attempts jwt ctx)
  unfolding refresh_loop binding_proved_by
  refresh_loop-Quiet zero jwt ctx = (tt, λ _. tt)
  refresh_loop-Quiet (suc attempts) jwt ctx =
      Every-bind _ (binding_proved_by config verifier jwt ctx) _
        (tt, λ read. Every-lift _ read _ (λ found _. check_binding-Quiet jwt ctx found))
        (λ b.
          Every-bind _ (rotate config ctx b) _ (rotate-Quiet ctx b)
            (λ answered. Every-or_again _ answered _ (refresh_loop-Quiet attempts jwt ctx)))
