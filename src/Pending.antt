-- ===== src/Pending.antt =====
-- src/dbsc/pending.py: the registration offer.
pub mod Record
pub mod Stored
pub mod Equality
use dbsc_python.Base.{◌≡◌, Bool, true, ◌&&◌}
use dbsc_python.Base.Int.{ℤ, eqb_ℤ}
use dbsc_python.Base.Text.{Text, codes, text_eq}
use dbsc_python.Exceptions.{Result, ok, ◌>>◌}
use dbsc_python.Validate.{require, is_sf_string_safe}

pub record PendingRegistration : Type 0 where
  pub user_id : Text
  pub reg_challenge : Text
  pub reg_challenge_time : ℤ

-- The constructor: `__post_init__` refuses an unsafe challenge.
unfoldable pub pending_registration : Text → Text → ℤ → Result PendingRegistration
pending_registration user_id reg_challenge reg_challenge_time = do
  require (is_sf_string_safe reg_challenge) (codes "PendingRegistration.reg_challenge is unsafe.")
  ok (record {
    user_id = user_id;
    reg_challenge = reg_challenge;
    reg_challenge_time = reg_challenge_time;
  })

-- The generated `__eq__`.
unfoldable pub pending_eq : PendingRegistration → PendingRegistration → Bool
pending_eq p q =
    text_eq p.user_id q.user_id
    && text_eq p.reg_challenge q.reg_challenge
    && eqb_ℤ p.reg_challenge_time q.reg_challenge_time

pub record IsValid (p : PendingRegistration) : Type 0 where
  pub challenge_safe : is_sf_string_safe p.reg_challenge ≡ true
