-- ===== src/Server/Tokens.antt =====
-- The nonces of `_nonce` pass every check of the records that hold them.
use dbsc_python.Base.{ℕ, ◌/◌, ◌%◌, ◌<◌, ◌≡◌, refl, true, List, [], ◌∷◌, arith}
use dbsc_python.Json.Dumps.{hex_digit}
use dbsc_python.Validate.{is_sf_string_safe, sf_string_char, is_cookie_value, cookie_char}
use dbsc_python.Server.Messages.{hex}

digit-safe : (n : ℕ) → n < 16 → sf_string_char (hex_digit n) ≡ true
unfolding sf_string_char hex_digit
digit-safe n h = ground arith

digit-cookie : (n : ℕ) → n < 16 → cookie_char (hex_digit n) ≡ true
unfolding cookie_char hex_digit
digit-cookie n h = ground arith

mod-small : (n : ℕ) → n % 16 < 16
mod-small n = omega arith

pub hex-safe : (bytes : List ℕ) → is_sf_string_safe (hex bytes) ≡ true
unfolding hex is_sf_string_safe
hex-safe [] = refl
hex-safe (b ∷ bytes) = rw (
  digit-safe (b / 16 % 16) (mod-small (b / 16)),
  digit-safe (b % 16) (mod-small b),
  hex-safe bytes,
)

pub hex-cookie : (bytes : List ℕ) → is_cookie_value (hex bytes) ≡ true
unfolding hex is_cookie_value
hex-cookie [] = refl
hex-cookie (b ∷ bytes) = rw (
  digit-cookie (b / 16 % 16) (mod-small (b / 16)),
  digit-cookie (b % 16) (mod-small b),
  hex-cookie bytes,
)
