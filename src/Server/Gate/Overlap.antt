-- ===== src/Server/Gate/Overlap.antt =====
-- Which cookies vouch for a session, and for how long: the overlap of rotations.
use dbsc_python.Base.{
  ℕ, ◌≡◌, ◌≢◌, refl, ◌<◌, ◌⊎◌, inl, inr, true, false, some, none, Option, ◌∷◌, Bool, arith,
}
use dbsc_python.Base.Int.{ℤ, ◌+ℤ◌, ltb_ℤ}
use dbsc_python.Base.Text.{Text, is_empty, text_eq, text_eq_iff, text_eq_self}
use dbsc_python.Exceptions.{Result, ok, raise}
use dbsc_python.Encoding.{constant_time_equals}
use dbsc_python.Encoding.Injective.{
  IsEncodable, constant_time_equals_sound, constant_time_equals-eq-text_eq, ascii-IsEncodable,
}
use dbsc_python.Validate.{cookie_char, is_cookie_value}
use dbsc_python.Config.{Config}
use dbsc_python.Request.{RequestContext, cookie}
use dbsc_python.Binding.{Binding, fully_rotated}
use dbsc_python.Effect.{clock}
use dbsc_python.Effect.Ensures.{
  History, Ensures, Ensures-if, Ensures-lift, Ensures-weaken, OnOk, OnOk-intro,
}
use dbsc_python.Server.Messages.{same_user}
use dbsc_python.Server.Gate.{
  previous_cookie_matches, presented_cookie_matches, cookie_matches, bound_cookie_matches,
}

cookie_char-lt : (c : ℕ) → cookie_char c ≡ true → c < 128
unfolding cookie_char
cookie_char-lt c h = ground arith

cookie_value-IsEncodable : (s : Text) → is_cookie_value s ≡ true → IsEncodable s
unfolding is_cookie_value
cookie_value-IsEncodable s h = ascii-IsEncodable cookie_char s cookie_char-lt h

text_eq_ne : (s t : Text) → s ≢ t → text_eq s t ≡ false
text_eq_ne s t d = ground (arith, text_eq_iff s t)

-- The presented value is the current one, or the previous one read before its expiry.
abbrev pub Vouches : Binding → Text → History → History → Type 0
Vouches b presented h h' =
    (b.cookie_value ≡ presented)
    ⊎ ((t : ℤ) × (b.previous_cookie_value ≡ presented)
        × (ltb_ℤ t b.previous_cookie_expires_at ≡ true)
        × (h' ≡ (clock, t) ∷ h))

previous_cookie_matches_sound :
    (b : Binding) (presented : Text) (h : History)
    → Ensures
        (OnOk (λ m h'. m ≡ true → Vouches b presented h h'))
        (previous_cookie_matches b presented)
        h
unfolding previous_cookie_matches
previous_cookie_matches_sound b presented h =
    Ensures-if _ (is_empty b.previous_cookie_value) _ _ _ (λ _ q. absurd (cc))
      (λ _ t.
        Ensures-if _ (ltb_ℤ t b.previous_cookie_expires_at) _ _ _
          (λ before.
            OnOk-intro _ (constant_time_equals b.previous_cookie_value presented) _
              (λ m e p. inr (t, constant_time_equals_sound _ _ (rw (← p) e), before, refl)))
          (λ _ q. absurd (cc)))

presented_cookie_matches_sound :
    (b : Binding) (presented : Text) (h : History)
    → Ensures
        (OnOk (λ m h'. m ≡ true → (is_empty presented ≡ false) × Vouches b presented h h'))
        (presented_cookie_matches b presented)
        h
unfolding presented_cookie_matches
presented_cookie_matches_sound b presented h =
    Ensures-if _ (is_empty presented) _ _ _ (λ _ q. absurd (cc))
      (λ present.
        Ensures-if _ (is_empty b.cookie_value) _ _ _ (λ _. previous present)
          (λ _.
            Ensures-lift _ (constant_time_equals b.cookie_value presented) _ _
              (λ current e.
                Ensures-if _ current _ _ _
                  (λ p _. (present, inl (constant_time_equals_sound _ _ (rw (← p) e))))
                  (λ _. previous present))
              (λ _ _. tt)))
  where
    both :
        is_empty presented ≡ false
        → (r : Result Bool) (h' : History)
        → OnOk (λ m h''. m ≡ true → Vouches b presented h h'') r h'
        → OnOk (λ m h''. m ≡ true → (is_empty presented ≡ false) × Vouches b presented h h'') r h'
    both present (ok m) h' k = λ q. (present, k q)
    both present (raise e) h' k = tt

    previous :
        is_empty presented ≡ false
        → Ensures
            (OnOk (λ m h'. m ≡ true → (is_empty presented ≡ false) × Vouches b presented h h'))
            (previous_cookie_matches b presented)
            h
    previous present =
        Ensures-weaken _ _ (previous_cookie_matches b presented) h
          (previous_cookie_matches_sound b presented h) (both present)

module _ (config : Config) (b : Binding) (ctx : RequestContext) where
  -- The request carries a cookie that vouches for `b`, and is not another user's.
  pub record IsVouched (h h' : History) : Type 0 where
    pub user : same_user b.user_id ctx.user_id ≡ true
    pub presented : Text
    pub carried : cookie ctx config.cookie_name ≡ some presented
    pub nonempty : is_empty presented ≡ false
    pub vouches : Vouches b presented h h'

  found_cookie :
      (found : Option Text) (h : History)
      → same_user b.user_id ctx.user_id ≡ true
      → cookie ctx config.cookie_name ≡ found
      → Ensures (OnOk (λ m h'. m ≡ true → IsVouched h h')) (cookie_matches b found) h
  unfolding cookie_matches
  found_cookie none h user carried = λ q. absurd (cc)
  found_cookie (some presented) h user carried =
      Ensures-weaken _ _ (presented_cookie_matches b presented) h
        (presented_cookie_matches_sound b presented h) vouched
    where
      vouched :
          (r : Result Bool) (h' : History)
          → OnOk (λ m h''. m ≡ true → (is_empty presented ≡ false) × Vouches b presented h h'') r h'
          → OnOk (λ m h''. m ≡ true → IsVouched h h'') r h'
      vouched (ok m) h' k = λ q. record {
        user = user;
        presented = presented;
        carried = carried;
        nonempty = (k q).0;
        vouches = (k q).1;
      }
      vouched (raise e) h' k = tt

  -- If `bound_cookie_matches` returns true, the request is not another user's and carries a
  -- non-empty cookie that is the current value, or the previous value at a reading of the clock
  -- before its expiry.
  pub bound_cookie_matches-IsVouched :
      (h : History)
      → Ensures (OnOk (λ m h'. m ≡ true → IsVouched h h')) (bound_cookie_matches config b ctx) h
  unfolding bound_cookie_matches
  bound_cookie_matches-IsVouched h =
      Ensures-if _ (same_user b.user_id ctx.user_id) _ _ _
        (λ user. found_cookie (cookie ctx config.cookie_name) h user refl) (λ _ q. absurd (cc))

-- The run answers by one reading of the clock: true exactly before `expiry`.
abbrev pub UntilExpiry : ℤ → History → Result Bool → History → Type 0
UntilExpiry expiry h r h' = (t : ℤ) × (r ≡ ok (ltb_ℤ t expiry)) × (h' ≡ (clock, t) ∷ h)

module _ (b : Binding) (c ch : Text) (t n age : ℤ) where
  abbrev next : Binding
  next = fully_rotated b c ch t n age

  demoted-Ensures :
      (h : History)
      → is_cookie_value b.cookie_value ≡ true
      → is_empty b.cookie_value ≡ false
      → Ensures
          (UntilExpiry (b.cookie_issued_at +ℤ age) h)
          (previous_cookie_matches next b.cookie_value)
          h
  unfolding previous_cookie_matches fully_rotated
  demoted-Ensures h valid present = rw present λ τ.
      Ensures-if _ (ltb_ℤ τ (b.cookie_issued_at +ℤ age)) _ _ _
        (λ before. (
          τ,
          rw (constant_time_equals-eq-text_eq _ _ enc enc, text_eq_self b.cookie_value, before),
          refl,
        ))
        (λ after. (τ, rw after, refl))
    where
      enc : IsEncodable b.cookie_value
      enc = cookie_value-IsEncodable b.cookie_value valid

  -- After a refresh has rotated the cookie, the demoted value is accepted at a reading of the
  -- clock before its own expiry, its issuance plus the maximal age, and refused from then on, if
  -- it is not empty, both values are valid cookie values and the new one differs from it.
  pub rotation_overlap :
      (h : History)
      → is_cookie_value b.cookie_value ≡ true
      → is_cookie_value c ≡ true
      → is_empty b.cookie_value ≡ false
      → c ≢ b.cookie_value
      → Ensures
          (UntilExpiry (b.cookie_issued_at +ℤ age) h)
          (presented_cookie_matches (fully_rotated b c ch t n age) b.cookie_value)
          h
  unfolding presented_cookie_matches fully_rotated
  rotation_overlap h valid valid_c present differs =
      Ensures-if _ (is_empty b.cookie_value) _ _ _ (λ e. absurd (cc present))
        (λ _.
          Ensures-if _ (is_empty c) _ _ _ (λ _. demoted-Ensures h valid present)
            (λ _.
              Ensures-lift _ (constant_time_equals c b.cookie_value) _ _
                (λ current e.
                  Ensures-if _ current _ _ _
                    (λ p. absurd (differs (constant_time_equals_sound _ _ (rw (← p) e))))
                    (λ _. demoted-Ensures h valid present))
                (λ x e. absurd (cc (decided, e)))))
    where
      decided : constant_time_equals c b.cookie_value ≡ ok (text_eq c b.cookie_value)
      decided =
          constant_time_equals-eq-text_eq c b.cookie_value (cookie_value-IsEncodable c valid_c)
            (cookie_value-IsEncodable b.cookie_value valid)

  -- A value from before two refreshes is refused: no run accepts it, if it differs from both
  -- later values.
  pub rotation_single_depth :
      (c₂ ch₂ : Text) (t₂ n₂ : ℤ) (h : History)
      → c ≢ b.cookie_value
      → c₂ ≢ b.cookie_value
      → Ensures
          (OnOk (λ m h'. m ≡ false))
          (presented_cookie_matches
            (fully_rotated (fully_rotated b c ch t n age) c₂ ch₂ t₂ n₂ age)
            b.cookie_value)
          h
  unfolding fully_rotated
  rotation_single_depth c₂ ch₂ t₂ n₂ h d d₂ =
      Ensures-weaken _ _ (presented_cookie_matches _ b.cookie_value) h
        (presented_cookie_matches_sound
          (fully_rotated (fully_rotated b c ch t n age) c₂ ch₂ t₂ n₂ age) b.cookie_value h)
        refused
    where
      refused :
          (r : Result Bool) (h' : History)
          → OnOk
              (λ m h''.
                m ≡ true
                → (is_empty b.cookie_value ≡ false)
                  × Vouches
                      (fully_rotated (fully_rotated b c ch t n age) c₂ ch₂ t₂ n₂ age)
                      b.cookie_value
                      h
                      h'')
              r
              h'
          → OnOk (λ m h''. m ≡ false) r h'
      refused (ok false) h' k = refl
      refused (ok true) h' k = absurd (ground (arith, k refl))
      refused (raise e) h' k = tt
