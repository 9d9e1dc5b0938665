-- ===== src/Binding.antt =====
-- src/dbsc/binding.py: the record of a bound session, and its rotations. Every value is built by
-- the constructor, whose `__post_init__` refuses what is not safe in a header or a cookie.
pub mod Laws
pub mod Record
pub mod Stored
pub mod Equality
use dbsc_python.Base.{◌≡◌, Bool, true, false, ◌&&◌, [], ◌++◌}
use dbsc_python.Base.Int.{ℤ, pos, ◌+ℤ◌, eqb_ℤ}
use dbsc_python.Base.Text.{Text, codes, text_eq}
use dbsc_python.Exceptions.{Result, ok, ◌>>◌}
use dbsc_python.Validate.{require, is_sf_string_safe, is_cookie_value}

pub record Binding : Type 0 where
  pub user_id : Text
  pub session_identifier : Text
  pub cookie_value : Text
  pub public_key_pem : Text
  pub algorithm : Text
  pub challenge : Text
  pub challenge_time : ℤ
  pub created_at : ℤ
  pub cookie_issued_at : ℤ
  pub previous_cookie_value : Text
  pub previous_cookie_expires_at : ℤ
  pub has_refreshed : Bool
  pub previous_challenge : Text
  pub previous_challenge_time : ℤ
  pub challenge_advertised : Bool

abbrev header_message : Text → Text
header_message name = codes "Binding." ++ name ++ codes " is not header-safe."

abbrev cookie_message : Text → Text
cookie_message name = codes "Binding." ++ name ++ codes " is not cookie-safe."

-- `__post_init__`: the value, or `ValueError`.
unfoldable pub post_init : Binding → Result Binding
post_init b = do
  require (is_sf_string_safe b.session_identifier) (header_message (codes "session_identifier"))
  require (is_sf_string_safe b.challenge) (header_message (codes "challenge"))
  require (is_sf_string_safe b.previous_challenge) (header_message (codes "previous_challenge"))
  require (is_cookie_value b.cookie_value) (cookie_message (codes "cookie_value"))
  require (is_cookie_value b.previous_cookie_value) (cookie_message (codes "previous_cookie_value"))
  ok b

pub record IsValid (b : Binding) : Type 0 where
  pub session_identifier : is_sf_string_safe b.session_identifier ≡ true
  pub challenge : is_sf_string_safe b.challenge ≡ true
  pub previous_challenge : is_sf_string_safe b.previous_challenge ≡ true
  pub cookie_value : is_cookie_value b.cookie_value ≡ true
  pub previous_cookie_value : is_cookie_value b.previous_cookie_value ≡ true

-- The record that `with_challenge` passes to the constructor.
unfoldable pub challenge_rotated : Binding → Text → ℤ → Binding
challenge_rotated b challenge challenge_time = record b {
  challenge = challenge;
  challenge_time = challenge_time;
  previous_challenge = b.challenge;
  previous_challenge_time = b.challenge_time;
}

unfoldable pub with_challenge : Binding → Text → ℤ → Result Binding
unfolding challenge_rotated post_init
with_challenge b challenge challenge_time = post_init (challenge_rotated b challenge challenge_time)

unfoldable pub mark_challenge_advertised : Binding → Result Binding
unfolding post_init
mark_challenge_advertised b = post_init (record b { challenge_advertised = true })

-- The record that `with_rotated_cookie_and_challenge` passes to the constructor.
unfoldable pub fully_rotated : Binding → Text → Text → ℤ → ℤ → ℤ → Binding
fully_rotated b cookie_value challenge challenge_time now cookie_max_age_seconds = record b {
  cookie_value = cookie_value;
  challenge = challenge;
  challenge_time = challenge_time;
  cookie_issued_at = now;
  previous_cookie_value = b.cookie_value;
  previous_cookie_expires_at = b.cookie_issued_at +ℤ cookie_max_age_seconds;
  has_refreshed = true;
  previous_challenge = [];
  previous_challenge_time = pos 0;
}

unfoldable pub with_rotated_cookie_and_challenge :
    Binding → Text → Text → ℤ → ℤ → ℤ → Result Binding
unfolding fully_rotated post_init
with_rotated_cookie_and_challenge b cookie_value challenge challenge_time now max_age =
    post_init (fully_rotated b cookie_value challenge challenge_time now max_age)

abbrev bool_eq : Bool → Bool → Bool
bool_eq true b = b
bool_eq false true = false
bool_eq false false = true

-- The generated `__eq__`.
unfoldable pub binding_eq : Binding → Binding → Bool
binding_eq a b =
    text_eq a.user_id b.user_id
    && text_eq a.session_identifier b.session_identifier
    && text_eq a.cookie_value b.cookie_value
    && text_eq a.public_key_pem b.public_key_pem
    && text_eq a.algorithm b.algorithm
    && text_eq a.challenge b.challenge
    && eqb_ℤ a.challenge_time b.challenge_time
    && eqb_ℤ a.created_at b.created_at
    && eqb_ℤ a.cookie_issued_at b.cookie_issued_at
    && text_eq a.previous_cookie_value b.previous_cookie_value
    && eqb_ℤ a.previous_cookie_expires_at b.previous_cookie_expires_at
    && bool_eq a.has_refreshed b.has_refreshed
    && text_eq a.previous_challenge b.previous_challenge
    && eqb_ℤ a.previous_challenge_time b.previous_challenge_time
    && bool_eq a.challenge_advertised b.challenge_advertised
