-- ===== src/Jwt/Verifier.antt =====
-- `JwtVerifier` of src/dbsc/jwt.py, over the `cryptography` package.
pub mod Parsed
pub mod Raises
pub mod Sound
pub mod Device
pub mod Token
use dbsc_python.Base.{
  ℕ, zero, suc, ◌+◌, ◌*◌, Bool, true, false, not, ◌&&◌, ◌||◌, Option, none, some, List, [], ◌∷◌,
  ◌++◌, length, ltb, ◌==◌, if◌then◌else◌,
}
use dbsc_python.Base.Text.{Text, codes, text_eq, is_empty}
use dbsc_python.Exceptions.{Result, ok, raise, error, jwt_invalid_error, ◌>>=◌, ◌>>◌}
use dbsc_python.Encoding.{encode?, encode}
use dbsc_python.Json.{Json, Fields, str, obj, get, as_str, has_member}
use dbsc_python.Json.Bytes.{loads_object_bytes}
use dbsc_python.Jwt.{ParsedJwt, RegistrationResult, JwtVerifier}
use dbsc_python.Jwt.Base64.{b64url_decode}

-- What the code calls of the package; the exceptions that it catches are `none` or `false`.
pub record Cryptography : Type 1 where
  pub PublicKey : Type 0
  -- serialization.load_pem_public_key
  pub load_pem_public_key : List ℕ → Option PublicKey
  -- an elliptic-curve key on SECP256R1
  pub is_p256 : PublicKey → Bool
  -- EllipticCurvePublicKey.from_encoded_point(SECP256R1(), _)
  pub from_encoded_point : List ℕ → Option PublicKey
  -- public_bytes(PEM, SubjectPublicKeyInfo).decode()
  pub public_pem : PublicKey → Text
  pub encode_dss_signature : ℕ → ℕ → List ℕ
  -- verify(_, _, ECDSA(SHA256()))
  pub verify : PublicKey → List ℕ → List ℕ → Bool

abbrev pub max_jwt_length : ℕ
max_jwt_length = 8192

-- `str.split(".")`: the first part, and those behind.
unfoldable pub split_dots : Text → Text × List Text
split_dots [] = ([], [])
split_dots (c ∷ s) =
    let (part, parts) = split_dots s in if c == b'.' then ([], part ∷ parts) else (c ∷ part, parts)

unfoldable pub invalid : {A : Type 0} → Text → Result A
invalid message = error jwt_invalid_error message

-- The condition of a guard that raises `JwtInvalidError`.
unfoldable pub refuse_if : Bool → Text → Result (Unit {0})
unfolding invalid
refuse_if true message = invalid message
refuse_if false message = ok tt

abbrev pub object_message : Text
object_message = codes "JWT header or payload is not a JSON object"

unfoldable pub some_object : Option Fields → Result Fields
unfolding invalid codes
some_object (some fields) = ok fields
some_object none = invalid object_message

-- The three parts.
unfoldable pub parse_parts : ℕ → Text → Text → Text → Result ParsedJwt
unfolding loads_object_bytes b64url_decode some_object refuse_if codes
parse_parts depth header_b64 payload_b64 signature_b64 = do
  header ← some_object (loads_object_bytes depth (b64url_decode header_b64))
  payload ← some_object (loads_object_bytes depth (b64url_decode payload_b64))
  refuse_if (is_empty (b64url_decode signature_b64)) (codes "JWT signature is empty")
  ok (record {
    header = header;
    payload = payload;
    signing_input = header_b64 ++ b'.' ∷ payload_b64;
    signature = b64url_decode signature_b64;
  })

unfoldable pub of_split : ℕ → Text × List Text → Result ParsedJwt
unfolding parse_parts invalid codes
of_split depth (header_b64, payload_b64 ∷ signature_b64 ∷ []) =
    parse_parts depth header_b64 payload_b64 signature_b64
of_split depth parts = invalid (codes "JWT must have three parts")

unfoldable pub parse : ℕ → Text → Result ParsedJwt
unfolding split_dots of_split refuse_if codes
parse depth jwt = do
  refuse_if (ltb max_jwt_length (length jwt)) (codes "JWT is too large")
  of_split depth (split_dots jwt)

abbrev pub is_str : Option Json → Text → Bool
is_str (some (str s)) t = text_eq s t
is_str _ t = false

-- `_check_header`
unfoldable pub check_header : Fields → Result (Unit {0})
unfolding refuse_if get has_member codes
check_header header = do
  refuse_if (not (is_str (get (codes "alg") header) (codes "ES256")))
      (codes "Unsupported algorithm")
  refuse_if (has_member (codes "crit") header) (codes "Unsupported critical header (crit)")

abbrev pub text_or_empty : Option Text → Text
text_or_empty (some s) = s
text_or_empty none = []

-- `_require_jti`
unfoldable pub require_jti : Fields → Result Text
unfolding refuse_if get as_str codes
require_jti payload = do
  refuse_if (is_empty (text_or_empty (as_str (get (codes "jti") payload))))
      (codes "JWT payload is missing jti")
  ok (text_or_empty (as_str (get (codes "jti") payload)))

-- `int.from_bytes`
abbrev pub from_bytes : ℕ → List ℕ → ℕ
from_bytes acc [] = acc
from_bytes acc (b ∷ bs) = from_bytes (acc * 256 + b) bs

abbrev pub take : ℕ → List ℕ → List ℕ
take zero bs = []
take (suc n) [] = []
take (suc n) (b ∷ bs) = b ∷ take n bs

abbrev pub drop : ℕ → List ℕ → List ℕ
drop zero bs = bs
drop (suc n) [] = []
drop (suc n) (b ∷ bs) = drop n bs

abbrev pub coordinate : Option Text → List ℕ
coordinate none = []
coordinate (some b64) = b64url_decode b64

unfoldable pub require_jwk : Option Json → Result Fields
unfolding invalid codes
require_jwk (some (obj jwk)) = ok jwk
require_jwk _ = invalid (codes "JWT header is missing jwk")

module _ (crypto : Cryptography) where
  abbrev pub loaded : Option (List ℕ) → Option crypto.PublicKey
  loaded none = none
  loaded (some bytes) = crypto.load_pem_public_key bytes

  -- The signature is 64 bytes and the key is one of P-256, or it does not verify. `UnicodeEncodeError`
  -- is a `ValueError`: a PEM that cannot be encoded is caught as well, but not a signing input.
  unfoldable pub verify_signature : Text → List ℕ → Text → Result Bool
  unfolding encode encode?
  verify_signature signing_input raw_signature pem =
      if not (length raw_signature == 64) then ok false else elim (loaded (encode? pem)) [
        | none ↦ ok false
        | some key ↦
            if not (crypto.is_p256 key)
            then ok false
            else encode signing_input >>= λ message. ok (
                crypto.verify key
                  (crypto.encode_dss_signature (from_bytes 0 (take 32 raw_signature))
                    (from_bytes 0 (drop 32 raw_signature)))
                  message)
      ]

  unfoldable pub pem_of_point : Option crypto.PublicKey → Result Text
  unfolding invalid codes
  pem_of_point none = invalid (codes "JWK is not a valid P-256 public key")
  pem_of_point (some key) = ok (crypto.public_pem key)

  unfoldable pub pem_of_coordinates : List ℕ → List ℕ → Result Text
  unfolding refuse_if pem_of_point codes
  pem_of_coordinates x y = do
    refuse_if (not (length x == 32) || not (length y == 32))
        (codes "JWK x/y coordinates are the wrong length")
    pem_of_point (crypto.from_encoded_point (4 ∷ x ++ y))

  -- `_jwk_to_pem`
  unfoldable pub jwk_to_pem : Fields → Result Text
  unfolding refuse_if get as_str codes b64url_decode pem_of_coordinates
  jwk_to_pem jwk = do
    refuse_if
        (not (is_str (get (codes "kty") jwk) (codes "EC"))
          || not (is_str (get (codes "crv") jwk) (codes "P-256")))
        (codes "Unsupported JWK key type or curve")
    pem_of_coordinates (coordinate (as_str (get (codes "x") jwk)))
        (coordinate (as_str (get (codes "y") jwk)))

  unfoldable pub verify_registration_jwt : ParsedJwt → Result RegistrationResult
  unfolding check_header require_jwk jwk_to_pem verify_signature refuse_if require_jti get codes
  verify_registration_jwt parsed = do
    check_header parsed.header
    jwk ← require_jwk (get (codes "jwk") parsed.header)
    pem ← jwk_to_pem jwk
    verified ← verify_signature parsed.signing_input parsed.signature pem
    refuse_if (not verified) (codes "JWT signature verification failed")
    jti ← require_jti parsed.payload
    ok (record { public_key_pem = pem; algorithm = codes "ES256"; challenge = jti })

  unfoldable pub verify_refresh_jwt : ParsedJwt → Text → Result Text
  unfolding check_header verify_signature refuse_if require_jti codes
  verify_refresh_jwt parsed pem = do
    check_header parsed.header
    verified ← verify_signature parsed.signing_input parsed.signature pem
    refuse_if (not verified) (codes "JWT signature verification failed")
    require_jti parsed.payload

  -- The verifier as the server takes it.
  abbrev pub jwt_verifier : ℕ → JwtVerifier
  jwt_verifier depth = record {
    parse = parse depth;
    verify_registration_jwt = verify_registration_jwt;
    verify_refresh_jwt = verify_refresh_jwt;
  }
