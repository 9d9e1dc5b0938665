-- ===== src/Validate.antt =====
-- src/dbsc/_validate.py: the checks of values that end up in headers, cookies and instructions.
pub mod Patterns
pub mod Hosts
use dbsc_python.Base.{◌≡◌, refl, ℕ, Bool, true, false, ◌&&◌, ◌||◌, ◌++◌, leb, ◌==◌, all}
use dbsc_python.Base.Text.{Text, codes}
use dbsc_python.Exceptions.{Result, ok, error, value_error, ◌>>◌}

unfoldable pub require : Bool → Text → Result (Unit {0})
require true message = ok tt
require false message = error value_error (codes "DBSC: " ++ message)

-- A check that was passed.
pub require-then :
    {A : Type 0} (b : Bool) (message : Text) (next : Result A) {last : A}
    → (require b message >> next) ≡ ok last
    → (b ≡ true) × (next ≡ ok last)
unfolding require
require-then true message next h = (refl, h)
require-then false message next h = absurd (cc)

-- One character of `_SF_STRING`: visible ASCII except the quote and the backslash.
unfoldable pub sf_string_char : ℕ → Bool
sf_string_char c = c == 0x21 || leb 0x23 c && leb c 0x5b || leb 0x5d c && leb c 0x7e

-- One character of `_COOKIE_VALUE`.
unfoldable pub cookie_char : ℕ → Bool
cookie_char c =
    c == 0x21
    || leb 0x23 c && leb c 0x2b
    || leb 0x2d c && leb c 0x3a
    || leb 0x3c c && leb c 0x5b
    || leb 0x5d c && leb c 0x7e

unfoldable pub is_sf_string_safe : Text → Bool
unfolding sf_string_char
is_sf_string_safe value = all sf_string_char value

unfoldable pub is_cookie_value : Text → Bool
unfolding cookie_char
is_cookie_value value = all cookie_char value
