-- ===== src/Jwt.antt =====
-- src/dbsc/jwt.py: the values that pass between the verifier and the server, and the verifier as
-- the server sees it (`jwt_verifier` of its constructor).
pub mod Base64
pub mod Verifier
use dbsc_python.Base.{ℕ, List, ◌≡◌}
use dbsc_python.Base.Text.{Text}
use dbsc_python.Exceptions.{Exception, Result, ok, raise, jwt_invalid_error}
use dbsc_python.Json.{Fields}

pub record ParsedJwt : Type 0 where
  pub header : Fields
  pub payload : Fields
  pub signing_input : Text
  pub signature : List ℕ

pub record RegistrationResult : Type 0 where
  pub public_key_pem : Text
  pub algorithm : Text
  pub challenge : Text

pub record JwtVerifier : Type 0 where
  pub parse : Text → Result ParsedJwt
  pub verify_registration_jwt : ParsedJwt → Result RegistrationResult
  pub verify_refresh_jwt : ParsedJwt → Text → Result Text

-- The verifier's documented behaviour: it raises `JwtInvalidError` and nothing else, where the
-- other two methods are given what `parse` has returned.
pub record RaisesJwtInvalid (v : JwtVerifier) : Type 0 where
  pub parse : (jwt : Text) (e : Exception) → v.parse jwt ≡ raise e → e.kind ≡ jwt_invalid_error
  pub registration :
      (jwt : Text) (p : ParsedJwt) (e : Exception)
      → v.parse jwt ≡ ok p
      → v.verify_registration_jwt p ≡ raise e
      → e.kind ≡ jwt_invalid_error
  pub refresh :
      (jwt : Text) (p : ParsedJwt) (pem : Text) (e : Exception)
      → v.parse jwt ≡ ok p
      → v.verify_refresh_jwt p pem ≡ raise e
      → e.kind ≡ jwt_invalid_error
