-- ===== src/Json/RoundTrip/Safe.antt =====
-- Header-safe and cookie-safe values, and surrogates.
use dbsc_python.Base.{◌≡◌, true, arith, all, all-imp}
use dbsc_python.Base.Text.{Text}
use dbsc_python.Validate.{sf_string_char, cookie_char, is_sf_string_safe, is_cookie_value}
use dbsc_python.Json.RoundTrip.Strings.{is_scalar}

pub sf_string_scalar : (s : Text) → is_sf_string_safe s ≡ true → all is_scalar s ≡ true
unfolding is_sf_string_safe sf_string_char
sf_string_scalar s h = all-imp s (λ c k. ground arith) h

pub cookie_scalar : (s : Text) → is_cookie_value s ≡ true → all is_scalar s ≡ true
unfolding is_cookie_value cookie_char
cookie_scalar s h = all-imp s (λ c k. ground arith) h
