-- ===== src/Server/Requests.antt =====
-- The requests that a host makes of `DbscServer`, and what they leave of a session.
pub mod Quiet
pub mod Handlers
use dbsc_python.Base.{
  ℕ, ◌≡◌, ◌≢◌, refl, zero, suc, none, some, Option, Bool, true, false, if◌then◌else◌,
}
use dbsc_python.Base.Int.{ℤ, ◌-ℤ◌, ltb_ℤ, leb_ℤ}
use dbsc_python.Base.Text.{Text, codes, is_empty}
use dbsc_python.Exceptions.{
  Exception, ExceptionClass, Result, ok, raise, jwt_invalid_error, corrupt_state_error,
}
use dbsc_python.Encoding.{constant_time_equals}
use dbsc_python.Jwt.{JwtVerifier, RegistrationResult}
use dbsc_python.Config.{Config}
use dbsc_python.Request.{RequestContext, header}
use dbsc_python.Response.{DbscResponse}
use dbsc_python.Pending.{PendingRegistration, pending_registration}
use dbsc_python.Binding.{
  Binding, post_init, challenge_rotated, with_challenge, mark_challenge_advertised, fully_rotated,
  with_rotated_cookie_and_challenge,
}
use dbsc_python.Binding.Laws.{post_init-eq-ok}
use dbsc_python.Audit.{
  AuditEvent, registration_failed, refresh_failed, enforcement_terminated, revoked,
}
use dbsc_python.Effect.{Program, pure, lift, try, ◌>>=◌, ◌>>◌}
use dbsc_python.Effect.Every.{Every, Every-bind, Every-try, Every-lift, Every-if, Every-or_again}
use dbsc_python.System.{System, Reach}
use dbsc_python.System.Sessions.{Allowed, SameDevice, IsClosed, Ages, Reach-Ages}
use dbsc_python.Server.Messages.{header_session_id, same_user, hex, log}
use dbsc_python.Server.Registration.{
  build_registration_header_response, new_binding, verify_registration, rethrow, or_invalid_jwt,
  check_offer, commit_offer, register,
}
use dbsc_python.Server.Challenge.{
  rotate_challenge, issue_loop, issue_refresh_challenge, nothing_to_advertise,
  advertise_refresh_challenge,
}
use dbsc_python.Server.Refresh.{
  session_matches, verify_refresh, challenge_matches, check_proof, check_binding, binding_proved_by,
  rotate, refresh_loop, refresh,
}
use dbsc_python.Server.Gate.{is_bound, corrupt_is_bound, was_bound, revocation, revoke}
use dbsc_python.Server.Requests.Quiet.{issue_loop-Quiet, revoke-Quiet, advertise-Quiet}
use dbsc_python.Server.Requests.Handlers.{register-Quiet, refresh_loop-Quiet}

module _ (sid : Text) (config : Config) (verifier : JwtVerifier) where
  -- A request other than an offer to this session.
  pub data IsQuietRequest : Program DbscResponse → Type 0 where
    elsewhere :
        (ctx : RequestContext)
        → ctx.session_id ≢ sid
        → IsQuietRequest (build_registration_header_response config ctx)
    registering :
        (jwt : Text) (ctx : RequestContext) → IsQuietRequest (register config verifier jwt ctx)
    challenging : (ctx : RequestContext) → IsQuietRequest (issue_refresh_challenge ctx)
    refreshing :
        (jwt : Text) (ctx : RequestContext) → IsQuietRequest (refresh config verifier jwt ctx)
    revoking :
        (ctx : RequestContext) (terminated : Bool) → IsQuietRequest (revoke config ctx terminated)
    advertising :
        (b : Binding) (ctx : RequestContext)
        → IsQuietRequest (advertise_refresh_challenge config b ctx)

  pub quiet-Every : (p : Program DbscResponse) → IsQuietRequest p → Every (Allowed sid) p
  unfolding build_registration_header_response issue_refresh_challenge refresh
  quiet-Every p (elsewhere ctx d) = (
    tt,
    λ bytes. (
      tt,
      λ time.
          Every-lift _ (pending_registration ctx.user_id (hex bytes) time) _ (λ _ _. (d, λ _. tt)),
    ),
  )
  quiet-Every p (registering jwt ctx) = register-Quiet sid config verifier jwt ctx
  quiet-Every p (challenging ctx) = issue_loop-Quiet sid 3 ctx
  quiet-Every p (refreshing jwt ctx) = refresh_loop-Quiet sid config verifier 3 jwt ctx
  quiet-Every p (revoking ctx terminated) = revoke-Quiet sid config ctx terminated
  quiet-Every p (advertising b ctx) = advertise-Quiet sid config b ctx

  -- In a session with no offer stored or under way, whatever the interleaving of any number of
  -- requests that make it no offer, and whatever expires: no offer appears, an absent binding
  -- stays absent, and a present one is later absent or has the same user, session identifier,
  -- device key, algorithm and time of creation.
  pub requests-Ages :
      {s t : System}
      → IsClosed sid s
      → Reach IsQuietRequest s t
      → IsClosed sid t × Ages (s.view.binding sid) (t.view.binding sid)
  requests-Ages = Reach-Ages sid IsQuietRequest quiet-Every
