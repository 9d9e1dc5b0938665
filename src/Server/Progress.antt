-- ===== src/Server/Progress.antt =====
-- When `register` and `refresh` do succeed.
use dbsc_python.Base.{◌≡◌, refl, true, false, some, List, ℕ}
use dbsc_python.Base.Int.{ℤ, ◌-ℤ◌, ltb_ℤ}
use dbsc_python.Base.Text.{Text, is_empty, text_eq_self}
use dbsc_python.Exceptions.{Result, ok}
use dbsc_python.Encoding.{constant_time_equals}
use dbsc_python.Encoding.Injective.{constant_time_equals-eq-text_eq}
use dbsc_python.Validate.{is_sf_string_safe, is_cookie_value}
use dbsc_python.Server.Refresh.Overlap.{sf_string-IsEncodable}
use dbsc_python.Jwt.{JwtVerifier, RegistrationResult}
use dbsc_python.Config.{Config}
use dbsc_python.Request.{RequestContext, header}
use dbsc_python.Response.{DbscResponse}
use dbsc_python.Pending.{PendingRegistration}
use dbsc_python.Binding.{
  Binding, IsValid, fully_rotated, with_rotated_cookie_and_challenge, post_init,
}
use dbsc_python.Binding.Laws.{post_init_of_IsValid}
use dbsc_python.Effect.{
  Call, Answer, store, clock, get_binding, get_pending_registration, commit_registration,
  replace_binding,
}
use dbsc_python.Effect.Ensures.{History}
use dbsc_python.Effect.Under.{Under}
use dbsc_python.Server.Messages.{same_user, header_session_id, hex}
use dbsc_python.Server.Tokens.{hex-safe, hex-cookie}
use dbsc_python.Server.Registration.{
  register, check_offer, commit_offer, verify_registration, new_binding,
}
use dbsc_python.Server.Refresh.{refresh, session_matches, verify_refresh}

-- A response with this status is returned.
pub record IsAnswered (r : Result DbscResponse) : Type 0 where
  pub response : DbscResponse
  pub returned : r ≡ ok response
  pub status : response.status ≡ some 200

accepted : (s : Text) → is_sf_string_safe s ≡ true → constant_time_equals s s ≡ ok true
accepted s safe = rw (
  constant_time_equals-eq-text_eq s s (sf_string-IsEncodable s safe) (sf_string-IsEncodable s safe),
  text_eq_self s,
)

module _ (config : Config) (verifier : JwtVerifier) (jwt : Text) (ctx : RequestContext) where
  module _ (b : Binding) where
    -- The store holds `b` and takes the write, and the challenge of `b` is within its TTL.
    abbrev pub Favours : (c : Call) → Answer c → Type 0
    Favours (store (get_binding sid)) a = a ≡ ok (some b)
    Favours (store (replace_binding sid expected new)) a = a ≡ ok true
    Favours clock t = ltb_ℤ config.challenge_ttl_seconds (t -ℤ b.challenge_time) ≡ false
    Favours _ a = Unit

    -- The request is for `b`, and its JWT proves the challenge.
    pub record IsProvedBy : Type 0 where
      pub valid : IsValid b
      pub user : same_user b.user_id ctx.user_id ≡ true
      pub session : session_matches b (header ctx header_session_id) ≡ ok true
      pub challenged : is_empty b.challenge ≡ false
      pub signed : verify_refresh verifier jwt b.public_key_pem ≡ ok b.challenge

    rotated :
        (bytes bytes' : List ℕ) (t : ℤ)
        → IsValid b
        → with_rotated_cookie_and_challenge b
            (hex bytes)
            (hex bytes')
            t
            t
            config.cookie_max_age_seconds
          ≡ ok (fully_rotated b (hex bytes) (hex bytes') t t config.cookie_max_age_seconds)
    unfolding with_rotated_cookie_and_challenge fully_rotated is_sf_string_safe
    rotated bytes bytes' t valid =
        post_init_of_IsValid
          (fully_rotated b (hex bytes) (hex bytes') t t config.cookie_max_age_seconds)
          (record {
            session_identifier = valid.session_identifier;
            challenge = hex-safe bytes';
            previous_challenge = refl;
            cookie_value = hex-cookie bytes;
            previous_cookie_value = valid.cookie_value;
          })

    -- A proof of the current challenge within its TTL is answered, whatever the random bytes, if
    -- the store holds the binding and takes the write.
    pub refresh-IsAnswered :
        IsProvedBy
        → (h : History) → Under Favours (λ r h'. IsAnswered r) (refresh config verifier jwt ctx) h
    unfolding refresh
    refresh-IsAnswered proved h = λ read held.
        rw (held, proved.user, proved.session, proved.challenged)
          (λ time live.
            rw (live, proved.signed, accepted b.challenge proved.valid.challenge)
              (λ t live'. λ bytes _. λ bytes' _.
                rw (rotated bytes bytes' t proved.valid) (λ won taken.
                  rw taken
                    (λ _ _. λ issued _. record { response = _; returned = refl; status = refl }))))

  module _ (p : PendingRegistration) (result : RegistrationResult) where
    -- The store holds `p` and commits it, and the challenge of `p` is within its TTL.
    abbrev pub Commits : (c : Call) → Answer c → Type 0
    Commits (store (get_pending_registration sid)) a = a ≡ ok (some p)
    Commits (store (commit_registration sid offer b)) a = a ≡ ok true
    Commits clock t = ltb_ℤ config.challenge_ttl_seconds (t -ℤ p.reg_challenge_time) ≡ false
    Commits _ a = Unit

    -- The request is for `p`, and its JWT verifies and signs the challenge.
    pub record IsSignedFor : Type 0 where
      pub safe : is_sf_string_safe p.reg_challenge ≡ true
      pub user : same_user p.user_id ctx.user_id ≡ true
      pub signed : verify_registration verifier jwt ≡ ok result
      pub challenge : result.challenge ≡ p.reg_challenge

    registered :
        (id bytes bytes' : List ℕ) (t : ℤ)
        → post_init (new_binding p ctx result (hex id) (hex bytes) (hex bytes') t)
          ≡ ok (new_binding p ctx result (hex id) (hex bytes) (hex bytes') t)
    unfolding new_binding is_sf_string_safe is_cookie_value
    registered id bytes bytes' t =
        post_init_of_IsValid (new_binding p ctx result (hex id) (hex bytes) (hex bytes') t)
          (record {
            session_identifier = hex-safe id;
            challenge = hex-safe bytes';
            previous_challenge = refl;
            cookie_value = hex-cookie bytes;
            previous_cookie_value = refl;
          })

    matching : IsSignedFor → constant_time_equals p.reg_challenge result.challenge ≡ ok true
    matching s = rw s.challenge (accepted p.reg_challenge s.safe)

    -- A JWT that signs the challenge of the offer within its TTL is answered, whatever the random
    -- bytes, if the store holds the offer and commits the registration.
    pub register-IsAnswered :
        IsSignedFor
        → (h : History) → Under Commits (λ r h'. IsAnswered r) (register config verifier jwt ctx) h
    unfolding register check_offer commit_offer
    register-IsAnswered s h = λ read held.
        rw (held, s.user)
          (λ time live.
            rw (live, s.signed, matching s)
              (λ t live'. λ id _. λ bytes _. λ bytes' _.
                rw (registered id bytes bytes' t) (λ won taken.
                  rw taken
                    (λ _ _. λ issued _. record { response = _; returned = refl; status = refl }))))
