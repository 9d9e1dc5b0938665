-- ===== src/Binding/Equality.antt =====
-- The generated `__eq__` of a binding, and equality.
use dbsc_python.Base.{◌≡◌, refl, ◌↔◌, Bool, true, false, arith, ◌&&◌, &&-eq-true}
use dbsc_python.Base.Int.{eqb_ℤ_iff}
use dbsc_python.Base.Text.{text_eq_iff, text_eq_self}
use dbsc_python.Binding.{Binding, bool_eq, binding_eq}

bool_eq_iff : (a b : Bool) → (bool_eq a b ≡ true) ↔ (a ≡ b)
bool_eq_iff true b = ground arith
bool_eq_iff false true = ground arith
bool_eq_iff false false = ground arith

tested : {x y : Bool} {P : Type 0} → (y ≡ true) ↔ P → (x && y) ≡ true → (x ≡ true) × P
tested {x} {y} iff h = let (p, q) = &&-eq-true x y h in (p, iff.0 q)

-- The generated `__eq__` of a binding is equality of all its fields.
pub binding_eq_iff : (a b : Binding) → (binding_eq a b ≡ true) ↔ (a ≡ b)
unfolding binding_eq
binding_eq_iff a b = (
  λ h.
      let (h14, challenge_advertised) =
        tested (bool_eq_iff a.challenge_advertised b.challenge_advertised) h in
      let (h13, previous_challenge_time) =
        tested (eqb_ℤ_iff a.previous_challenge_time b.previous_challenge_time) h14 in
      let (h12, previous_challenge) =
        tested (text_eq_iff a.previous_challenge b.previous_challenge) h13 in
      let (h11, has_refreshed) = tested (bool_eq_iff a.has_refreshed b.has_refreshed) h12 in
      let (h10, previous_cookie_expires_at) =
        tested (eqb_ℤ_iff a.previous_cookie_expires_at b.previous_cookie_expires_at) h11 in
      let (h9, previous_cookie_value) =
        tested (text_eq_iff a.previous_cookie_value b.previous_cookie_value) h10 in
      let (h8, cookie_issued_at) = tested (eqb_ℤ_iff a.cookie_issued_at b.cookie_issued_at) h9 in
      let (h7, created_at) = tested (eqb_ℤ_iff a.created_at b.created_at) h8 in
      let (h6, challenge_time) = tested (eqb_ℤ_iff a.challenge_time b.challenge_time) h7 in
      let (h5, challenge) = tested (text_eq_iff a.challenge b.challenge) h6 in
      let (h4, algorithm) = tested (text_eq_iff a.algorithm b.algorithm) h5 in
      let (h3, public_key_pem) = tested (text_eq_iff a.public_key_pem b.public_key_pem) h4 in
      let (h2, cookie_value) = tested (text_eq_iff a.cookie_value b.cookie_value) h3 in
      let (h1, session_identifier) =
        tested (text_eq_iff a.session_identifier b.session_identifier) h2 in
      let user_id = (text_eq_iff a.user_id b.user_id).0 h1 in
      λ i. record {
        user_id = user_id i;
        session_identifier = session_identifier i;
        cookie_value = cookie_value i;
        public_key_pem = public_key_pem i;
        algorithm = algorithm i;
        challenge = challenge i;
        challenge_time = challenge_time i;
        created_at = created_at i;
        cookie_issued_at = cookie_issued_at i;
        previous_cookie_value = previous_cookie_value i;
        previous_cookie_expires_at = previous_cookie_expires_at i;
        has_refreshed = has_refreshed i;
        previous_challenge = previous_challenge i;
        previous_challenge_time = previous_challenge_time i;
        challenge_advertised = challenge_advertised i;
      },
  λ e. rw e (
      rw
        (
          text_eq_self b.user_id,
          text_eq_self b.session_identifier,
          text_eq_self b.cookie_value,
          text_eq_self b.public_key_pem,
          text_eq_self b.algorithm,
          text_eq_self b.challenge,
          (eqb_ℤ_iff b.challenge_time b.challenge_time).1 refl,
          (eqb_ℤ_iff b.created_at b.created_at).1 refl,
          (eqb_ℤ_iff b.cookie_issued_at b.cookie_issued_at).1 refl,
          text_eq_self b.previous_cookie_value,
          (eqb_ℤ_iff b.previous_cookie_expires_at b.previous_cookie_expires_at).1 refl,
          (bool_eq_iff b.has_refreshed b.has_refreshed).1 refl,
          text_eq_self b.previous_challenge,
          (eqb_ℤ_iff b.previous_challenge_time b.previous_challenge_time).1 refl,
          (bool_eq_iff b.challenge_advertised b.challenge_advertised).1 refl,
        )
        refl),
)
