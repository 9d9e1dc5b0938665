-- ===== src/Pending/Equality.antt =====
-- The generated `__eq__` of an offer, and equality.
use dbsc_python.Base.{◌≡◌, refl, ◌↔◌, true, arith}
use dbsc_python.Base.Int.{eqb_ℤ_iff}
use dbsc_python.Base.Text.{text_eq_iff, text_eq_self}
use dbsc_python.Pending.{PendingRegistration, pending_eq}

pub pending_eq_iff : (p q : PendingRegistration) → (pending_eq p q ≡ true) ↔ (p ≡ q)
unfolding pending_eq
pending_eq_iff p q = (
  λ h.
      let parts : (p.user_id ≡ q.user_id)
          × (p.reg_challenge ≡ q.reg_challenge)
          × (p.reg_challenge_time ≡ q.reg_challenge_time) =
        ground (
          arith,
          text_eq_iff p.user_id q.user_id,
          text_eq_iff p.reg_challenge q.reg_challenge,
          eqb_ℤ_iff p.reg_challenge_time q.reg_challenge_time,
        ) in
      λ i. record {
        user_id = parts.0 i;
        reg_challenge = parts.1 i;
        reg_challenge_time = parts.2 i;
      },
  λ e. rw e (
      rw
        (
          text_eq_self q.user_id,
          text_eq_self q.reg_challenge,
          (eqb_ℤ_iff q.reg_challenge_time q.reg_challenge_time).1 refl,
        )
        refl),
)
