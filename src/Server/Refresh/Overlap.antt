-- ===== src/Server/Refresh/Overlap.antt =====
-- Which challenge a refresh may sign: the overlap of a rotation by a 403, and its absence behind
-- a refresh.
use dbsc_python.Base.{ℕ, ◌≡◌, ◌≢◌, ◌<◌, refl, sym, inl, inr, true, false, ◌∷◌, Bool, arith}
use dbsc_python.Base.Int.{ℤ, ◌-ℤ◌, leb_ℤ}
use dbsc_python.Base.Text.{Text, is_empty, text_eq, text_eq_self}
use dbsc_python.Exceptions.{Result, ok, raise}
use dbsc_python.Encoding.{constant_time_equals}
use dbsc_python.Encoding.Injective.{
  IsEncodable, constant_time_equals_sound, constant_time_equals-eq-text_eq, ascii-IsEncodable,
}
use dbsc_python.Validate.{sf_string_char, is_sf_string_safe}
use dbsc_python.Jwt.{JwtVerifier}
use dbsc_python.Config.{Config}
use dbsc_python.Request.{RequestContext}
use dbsc_python.Binding.{Binding, challenge_rotated, fully_rotated}
use dbsc_python.Effect.{clock}
use dbsc_python.Effect.Ensures.{History, Ensures, Ensures-if, Ensures-lift, Ensures-weaken, OnOk}
use dbsc_python.Server.Refresh.{challenge_matches}
use dbsc_python.Server.Refresh.Proved.{Challenged, challenge_matches-Ensures}

sf_string_char-lt : (c : ℕ) → sf_string_char c ≡ true → c < 128
unfolding sf_string_char
sf_string_char-lt c h = ground arith

pub sf_string-IsEncodable : (s : Text) → is_sf_string_safe s ≡ true → IsEncodable s
unfolding is_sf_string_safe
sf_string-IsEncodable s h = ascii-IsEncodable sf_string_char s sf_string_char-lt h

module _ (config : Config) (verifier : JwtVerifier) (b : Binding) (challenge : Text)
    (time : ℤ) where
  -- The run answers by one reading of the clock: true exactly up to the TTL of the demoted value.
  abbrev pub WithinTtl : History → Result Bool → History → Type 0
  WithinTtl h r h' =
      (t : ℤ) × (r ≡ ok (leb_ℤ (t -ℤ b.challenge_time) config.challenge_ttl_seconds))
      × (h' ≡ (clock, t) ∷ h)

  -- After a 403 has rotated the challenge, the demoted challenge is accepted exactly while it is
  -- within its own TTL, if it is not empty, both are safe in a structured field and they differ.
  pub challenge_overlap :
      (h : History)
      → is_sf_string_safe b.challenge ≡ true
      → is_sf_string_safe challenge ≡ true
      → is_empty b.challenge ≡ false
      → challenge ≢ b.challenge
      → Ensures
          (WithinTtl h)
          (challenge_matches config verifier (challenge_rotated b challenge time) b.challenge)
          h
  unfolding challenge_matches challenge_rotated
  challenge_overlap h valid valid' present differs =
      Ensures-lift _ (constant_time_equals challenge b.challenge) _ _
        (λ current e.
          Ensures-if _ current _ _ _
            (λ p. absurd (differs (constant_time_equals_sound _ _ (rw (← p) e))))
            (λ _.
              Ensures-if _ (is_empty b.challenge) _ _ _ (λ q. absurd (cc present))
                (λ _ t.
                  Ensures-if _ (leb_ℤ (t -ℤ b.challenge_time) config.challenge_ttl_seconds) _ _ _
                    (λ within. (t, rw (accepted, within), refl)) (λ late. (t, rw late, refl)))))
        (λ x e. absurd (cc (decided, e)))
    where
      enc : IsEncodable b.challenge
      enc = sf_string-IsEncodable b.challenge valid

      decided : constant_time_equals challenge b.challenge ≡ ok (text_eq challenge b.challenge)
      decided =
          constant_time_equals-eq-text_eq challenge b.challenge
            (sf_string-IsEncodable challenge valid') enc

      accepted : constant_time_equals b.challenge b.challenge ≡ ok true
      accepted = rw (constant_time_equals-eq-text_eq _ _ enc enc, text_eq_self b.challenge)

  -- The challenge that a refresh has spent is not accepted again: no later check of it against
  -- the rotated binding succeeds, if the new challenge differs.
  pub spent_challenge :
      (jwt : Text) (ctx : RequestContext) (cookie_value : Text) (now age t : ℤ) (h : History)
      → challenge ≢ b.challenge
      → Ensures
          (OnOk (λ m h'. m ≡ false))
          (challenge_matches config verifier
            (fully_rotated b cookie_value challenge time now age)
            b.challenge)
          ((clock, t) ∷ h)
  unfolding fully_rotated
  spent_challenge jwt ctx cookie_value now age t h differs =
      Ensures-weaken _ _ (challenge_matches config verifier _ b.challenge) _
        (challenge_matches-Ensures config verifier jwt ctx new b.challenge t h) refused
    where
      new : Binding
      new = fully_rotated b cookie_value challenge time now age

      refused :
          (r : Result Bool) (h' : History)
          → OnOk (λ m h''. m ≡ true → Challenged config new b.challenge t h h'') r h'
          → OnOk (λ m h''. m ≡ false) r h'
      refused (ok false) h' k = refl
      refused (ok true) h' k = elim (k refl) [
        | inl (e, _) ↦ absurd (differs (sym e))
        | inr (_, _, none_left, _, _) ↦ absurd (none_left refl)
      ]
      refused (raise e) h' k = tt
