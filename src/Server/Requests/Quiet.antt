-- ===== src/Server/Requests/Quiet.antt =====
-- The calls that revocations and challenges can make: no offer, and no binding but one of the
-- same device over an existing one.
use dbsc_python.Base.{ℕ, ◌≡◌, refl, zero, suc, none, some, Option, Bool, true, false, if◌then◌else◌}
use dbsc_python.Base.Int.{ℤ, ◌-ℤ◌, ltb_ℤ}
use dbsc_python.Base.Text.{Text, codes}
use dbsc_python.Exceptions.{
  Exception, ExceptionClass, Result, ok, raise, jwt_invalid_error, corrupt_state_error,
}
use dbsc_python.Config.{Config}
use dbsc_python.Request.{RequestContext}
use dbsc_python.Binding.{
  Binding, post_init, challenge_rotated, with_challenge, mark_challenge_advertised, fully_rotated,
}
use dbsc_python.Binding.Laws.{post_init-eq-ok}
use dbsc_python.Audit.{AuditEvent, enforcement_terminated, revoked}
use dbsc_python.Effect.{Program, pure, lift, try, ◌>>=◌, ◌>>◌}
use dbsc_python.Effect.Every.{Every, Every-bind, Every-try, Every-lift, Every-if, Every-or_again}
use dbsc_python.System.Sessions.{Allowed, SameDevice}
use dbsc_python.Server.Messages.{hex, log}
use dbsc_python.Server.Registration.{rethrow, or_invalid_jwt}
use dbsc_python.Server.Challenge.{
  rotate_challenge, issue_loop, nothing_to_advertise, advertise_refresh_challenge,
}
use dbsc_python.Server.Gate.{is_bound, corrupt_is_bound, was_bound, revocation, revoke}

pub rotation-SameDevice :
    (b : Binding) (cookie_value challenge : Text) (t n age : ℤ)
    → SameDevice b (fully_rotated b cookie_value challenge t n age)
unfolding fully_rotated
rotation-SameDevice b c ch t n age = record {
  user = refl;
  identifier = refl;
  key = refl;
  algorithm = refl;
  created = refl;
}

challenge_rotated-SameDevice :
    (b : Binding) (challenge : Text) (time : ℤ) → SameDevice b (challenge_rotated b challenge time)
unfolding challenge_rotated
challenge_rotated-SameDevice b c t = record {
  user = refl;
  identifier = refl;
  key = refl;
  algorithm = refl;
  created = refl;
}

-- What the constructor returns has the device of what it was given.
pub built-SameDevice :
    (b new built : Binding) → SameDevice b new → post_init new ≡ ok built → SameDevice b built
built-SameDevice b new built d e = rw (post_init-eq-ok new built e).0 d

module _ (sid : Text) where
  abbrev pub Quiet : {A : Type 0} → Program A → Type 0
  Quiet p = Every (Allowed sid) p

  rethrow-Quiet :
      (A : Type 0) (event : AuditEvent) (ctx : RequestContext) (e : Exception) (k : ExceptionClass)
      → Quiet (rethrow {A = A} event ctx e k)
  unfolding rethrow
  rethrow-Quiet A event ctx e jwt_invalid_error = (tt, λ _. tt)
  rethrow-Quiet A event ctx e _ = tt

  pub or_invalid_jwt-Quiet :
      {A : Type 0} (event : AuditEvent) (ctx : RequestContext) (r : Result A)
      → Quiet (or_invalid_jwt event ctx r)
  unfolding or_invalid_jwt
  or_invalid_jwt-Quiet event ctx (ok a) = tt
  or_invalid_jwt-Quiet {A} event ctx (raise e) = rethrow-Quiet A event ctx e e.kind

  corrupt_is_bound-Quiet : (e : Exception) (k : ExceptionClass) → Quiet (corrupt_is_bound e k)
  unfolding corrupt_is_bound
  corrupt_is_bound-Quiet e corrupt_state_error = tt
  corrupt_is_bound-Quiet e _ = tt

  pub revoke-Quiet :
      (config : Config) (ctx : RequestContext) (terminated : Bool)
      → Quiet (revoke config ctx terminated)
  unfolding revoke was_bound
  revoke-Quiet config ctx terminated = (
    tt,
    λ read.
        Every-bind _
          (try (lift read >>= λ found. pure (is_bound found)) (λ e. corrupt_is_bound e e.kind)) _
          (Every-try _ (lift read >>= λ found. pure (is_bound found)) _
            (Every-lift _ read (λ found. pure (is_bound found)) (λ _ _. tt))
            (λ e. corrupt_is_bound-Quiet e e.kind))
          (λ bound. (tt, λ _. report-Quiet bound)),
  )
    where
      report-Quiet :
          (bound : Bool)
          → Quiet (
              (if bound
                then if terminated
                  then log enforcement_terminated
                      (codes "DBSC enforcement terminated session (cookie missing or mismatched).")
                      ctx
                  else log revoked (codes "DBSC session revoked.") ctx
                else pure tt)
              >> pure (revocation config))
      report-Quiet true =
          Every-bind _
            (if terminated
              then log enforcement_terminated
                  (codes "DBSC enforcement terminated session (cookie missing or mismatched).") ctx
              else log revoked (codes "DBSC session revoked.") ctx)
            _ (Every-if _ terminated _ _ (tt, λ _. tt) (tt, λ _. tt)) (λ _. tt)
      report-Quiet false = tt

  rotate_challenge-Quiet :
      (ctx : RequestContext) (found : Option Binding) → Quiet (rotate_challenge ctx found)
  unfolding rotate_challenge with_challenge
  rotate_challenge-Quiet ctx none = tt
  rotate_challenge-Quiet ctx (some b) = (
    tt,
    λ bytes. (
      tt,
      λ time. Every-lift _ (post_init (challenge_rotated b (hex bytes) time)) _ (λ rotated e. (
        built-SameDevice b _ rotated (challenge_rotated-SameDevice b (hex bytes) time) e,
        λ won. Every-lift _ won _ (λ _ _. tt),
      )),
    ),
  )

  pub issue_loop-Quiet : (attempts : ℕ) (ctx : RequestContext) → Quiet (issue_loop attempts ctx)
  unfolding issue_loop
  issue_loop-Quiet zero ctx = (tt, λ read. Every-lift _ read _ (λ _ _. tt))
  issue_loop-Quiet (suc attempts) ctx = (
    tt,
    λ read. Every-lift _ read _ (λ found _.
        Every-bind _ (rotate_challenge ctx found) _ (rotate_challenge-Quiet ctx found)
          (λ answered. Every-or_again _ answered _ (issue_loop-Quiet attempts ctx))),
  )

  pub advertise-Quiet :
      (config : Config) (b : Binding) (ctx : RequestContext)
      → Quiet (advertise_refresh_challenge config b ctx)
  unfolding advertise_refresh_challenge mark_challenge_advertised
  advertise-Quiet config b ctx = Every-if _ (nothing_to_advertise config b ctx) _ _ tt (
    tt,
    λ time. Every-if _ (ltb_ℤ config.challenge_ttl_seconds (time -ℤ b.challenge_time)) _ _ tt (
        Every-lift _ (post_init (record b { challenge_advertised = true })) _ (λ marked e. (
          built-SameDevice b _ marked
              (record {
                user = refl;
                identifier = refl;
                key = refl;
                algorithm = refl;
                created = refl;
              })
              e,
          λ won. Every-lift _ won _ (λ _ _. tt),
        ))),
  )
