-- ===== src/Jwt/Verifier/Raises.antt =====
-- What the verifier of src/dbsc/jwt.py raises.
use dbsc_python.Base.{
  ℕ, ◌≡◌, inl, inr, Bool, true, false, not, ◌||◌, Option, none, some, List, [], ◌∷◌, ◌++◌, ◌==◌,
  length, all, arith, if◌then◌else◌,
}
use dbsc_python.Base.Text.{Text, codes}
use dbsc_python.Exceptions.{
  Exception, Result, ok, raise, jwt_invalid_error, ◌>>=◌, ◌>>◌, >>=-eq-raise,
}
use dbsc_python.Encoding.{encode?, encode, is_ascii}
use dbsc_python.Json.{Json, Fields, null, bool, int, float, arr, str, obj, get, as_str}
use dbsc_python.Json.Bytes.{loads_object_bytes}
use dbsc_python.Jwt.{ParsedJwt, RaisesJwtInvalid}
use dbsc_python.Jwt.Base64.{b64url_decode}
use dbsc_python.Jwt.Verifier.Parsed.{encode?-ascii, parse-ascii}
use dbsc_python.Jwt.Verifier.{
  Cryptography, split_dots, invalid, refuse_if, some_object, parse_parts, of_split, parse,
  check_header, require_jti, verify_signature, pem_of_point, pem_of_coordinates, jwk_to_pem,
  require_jwk, is_str, coordinate, object_message, loaded, from_bytes, take, drop,
  verify_registration_jwt, verify_refresh_jwt, jwt_verifier,
}

-- A computation that raises `JwtInvalidError` or nothing.
record Clean {A : Type 0} (m : Result A) : Type 0 where
  raised : (e : Exception) → m ≡ raise e → e.kind ≡ jwt_invalid_error

Clean-bind :
    {A B : Type 0} (m : Result A) (f : A → Result B)
    → Clean m
    → ((a : A) → Clean (f a))
    → Clean (m >>= f)
Clean-bind m f first next = record {
  raised = λ e h. elim (>>=-eq-raise m f h) [
    | inl p ↦ first.raised e p
    | inr (a, _, q) ↦ (next a).raised e q
  ];
}

ok-Clean : {A : Type 0} (a : A) → Clean (ok a)
ok-Clean a = record { raised = λ e h. absurd (cc) }

invalid-Clean : {A : Type 0} (message : Text) → Clean {A = A} (invalid message)
unfolding invalid
invalid-Clean message = record { raised = λ e h. ground arith }

refuse_if-Clean : (b : Bool) (message : Text) → Clean (refuse_if b message)
unfolding refuse_if
refuse_if-Clean true message = invalid-Clean message
refuse_if-Clean false message = ok-Clean tt

refuse_if-then :
    {B : Type 0} (b : Bool) (message : Text) (m : Result B)
    → Clean m
    → Clean (refuse_if b message >> m)
refuse_if-then b message m next =
    Clean-bind (refuse_if b message) _ (refuse_if-Clean b message) (λ _. next)

some_object-Clean : (o : Option Fields) → Clean (some_object o)
unfolding some_object
some_object-Clean none = invalid-Clean object_message
some_object-Clean (some fields) = ok-Clean fields

parse_parts-Clean : (depth : ℕ) (h p s : Text) → Clean (parse_parts depth h p s)
unfolding parse_parts
parse_parts-Clean depth h p s =
    Clean-bind (some_object (loads_object_bytes depth (b64url_decode h))) _ (some_object-Clean _)
      (λ header.
        Clean-bind (some_object (loads_object_bytes depth (b64url_decode p))) _
          (some_object-Clean _) (λ payload. refuse_if-then _ _ _ (ok-Clean _)))

of_split-Clean : (depth : ℕ) (parts : Text × List Text) → Clean (of_split depth parts)
unfolding of_split
of_split-Clean depth (h, p ∷ s ∷ []) = parse_parts-Clean depth h p s
of_split-Clean depth (h, []) = invalid-Clean (codes "JWT must have three parts")
of_split-Clean depth (h, p ∷ []) = invalid-Clean (codes "JWT must have three parts")
of_split-Clean depth (h, p ∷ s ∷ t ∷ ts) = invalid-Clean (codes "JWT must have three parts")

parse-Clean : (depth : ℕ) (jwt : Text) → Clean (parse depth jwt)
unfolding parse
parse-Clean depth jwt = refuse_if-then _ _ _ (of_split-Clean depth (split_dots jwt))

check_header-Clean : (header : Fields) → Clean (check_header header)
unfolding check_header
check_header-Clean header = refuse_if-then _ _ _ (refuse_if-Clean _ _)

require_jti-Clean : (payload : Fields) → Clean (require_jti payload)
unfolding require_jti
require_jti-Clean payload = refuse_if-then _ _ _ (ok-Clean _)

encode-Clean : (s : Text) → all is_ascii s ≡ true → Clean (encode s)
unfolding encode
encode-Clean s h = rw (encode?-ascii s h) (ok-Clean s)

if-Clean : {A : Type 0} (b : Bool) (m n : Result A) → Clean m → Clean n → Clean (if b then m else n)
if-Clean true m n i j = i
if-Clean false m n i j = j

module _ (crypto : Cryptography) where
  verify_signature-Clean :
      (s : Text) (signature : List ℕ) (pem : Text)
      → all is_ascii s ≡ true
      → Clean (verify_signature crypto s signature pem)
  unfolding verify_signature
  verify_signature-Clean s signature pem a =
      if-Clean (not (length signature == 64)) _ _ (ok-Clean false)
        (keyed (loaded crypto (encode? pem)))
    where
      keyed :
          (o : Option crypto.PublicKey)
          → Clean (elim o [
            | none ↦ ok false
            | some key ↦
                if not (crypto.is_p256 key)
                then ok false
                else encode s >>= λ message. ok (
                    crypto.verify key
                      (crypto.encode_dss_signature
                        (from_bytes 0 (take 32 signature))
                        (from_bytes 0 (drop 32 signature)))
                      message)
          ])
      keyed none = ok-Clean false
      keyed (some key) =
          if-Clean (not (crypto.is_p256 key)) _ _ (ok-Clean false)
            (Clean-bind (encode s) _ (encode-Clean s a) (λ message. ok-Clean _))

  pem_of_point-Clean : (o : Option crypto.PublicKey) → Clean (pem_of_point crypto o)
  unfolding pem_of_point
  pem_of_point-Clean none = invalid-Clean (codes "JWK is not a valid P-256 public key")
  pem_of_point-Clean (some key) = ok-Clean (crypto.public_pem key)

  pem_of_coordinates-Clean : (x y : List ℕ) → Clean (pem_of_coordinates crypto x y)
  unfolding pem_of_coordinates
  pem_of_coordinates-Clean x y =
      refuse_if-then _ _ _ (pem_of_point-Clean (crypto.from_encoded_point (4 ∷ x ++ y)))

  jwk_to_pem-Clean : (jwk : Fields) → Clean (jwk_to_pem crypto jwk)
  unfolding jwk_to_pem
  jwk_to_pem-Clean jwk =
      refuse_if-then
        (not (is_str (get (codes "kty") jwk) (codes "EC"))
          || not (is_str (get (codes "crv") jwk) (codes "P-256")))
        (codes "Unsupported JWK key type or curve") _
        (pem_of_coordinates-Clean (coordinate (as_str (get (codes "x") jwk)))
          (coordinate (as_str (get (codes "y") jwk))))

  require_jwk-Clean : (o : Option Json) → Clean (require_jwk o)
  unfolding require_jwk
  require_jwk-Clean none = invalid-Clean (codes "JWT header is missing jwk")
  require_jwk-Clean (some (obj jwk)) = ok-Clean jwk
  require_jwk-Clean (some null) = invalid-Clean (codes "JWT header is missing jwk")
  require_jwk-Clean (some (bool b)) = invalid-Clean (codes "JWT header is missing jwk")
  require_jwk-Clean (some (int n)) = invalid-Clean (codes "JWT header is missing jwk")
  require_jwk-Clean (some (float t)) = invalid-Clean (codes "JWT header is missing jwk")
  require_jwk-Clean (some (str t)) = invalid-Clean (codes "JWT header is missing jwk")
  require_jwk-Clean (some (arr xs)) = invalid-Clean (codes "JWT header is missing jwk")

  verify_registration_jwt-Clean :
      (parsed : ParsedJwt)
      → all is_ascii parsed.signing_input ≡ true
      → Clean (verify_registration_jwt crypto parsed)
  unfolding verify_registration_jwt
  verify_registration_jwt-Clean parsed a =
      Clean-bind (check_header parsed.header) _ (check_header-Clean parsed.header) (λ _.
        Clean-bind (require_jwk (get (codes "jwk") parsed.header)) _ (require_jwk-Clean _) (λ jwk.
          Clean-bind (jwk_to_pem crypto jwk) _ (jwk_to_pem-Clean jwk) (λ pem.
            Clean-bind (verify_signature crypto parsed.signing_input parsed.signature pem) _
              (verify_signature-Clean parsed.signing_input parsed.signature pem a)
              (λ verified. refuse_if-then _ _ _ (
                Clean-bind (require_jti parsed.payload) _ (require_jti-Clean parsed.payload)
                  (λ jti. ok-Clean _))))))

  verify_refresh_jwt-Clean :
      (parsed : ParsedJwt) (pem : Text)
      → all is_ascii parsed.signing_input ≡ true
      → Clean (verify_refresh_jwt crypto parsed pem)
  unfolding verify_refresh_jwt
  verify_refresh_jwt-Clean parsed pem a =
      Clean-bind (check_header parsed.header) _ (check_header-Clean parsed.header) (λ _.
        Clean-bind (verify_signature crypto parsed.signing_input parsed.signature pem) _
          (verify_signature-Clean parsed.signing_input parsed.signature pem a)
          (λ verified. refuse_if-then _ _ _ (require_jti-Clean parsed.payload)))

  -- Whatever the text and the stored key, `parse` raises `JwtInvalidError` or nothing, and so do
  -- the two verifications of what it has returned.
  pub jwt_verifier-RaisesJwtInvalid : (depth : ℕ) → RaisesJwtInvalid (jwt_verifier crypto depth)
  jwt_verifier-RaisesJwtInvalid depth = record {
    parse = λ jwt. (parse-Clean depth jwt).raised;
    registration = λ jwt p e parses.
        (verify_registration_jwt-Clean p (parse-ascii depth jwt p parses)).raised e;
    refresh = λ jwt p pem e parses.
        (verify_refresh_jwt-Clean p pem (parse-ascii depth jwt p parses)).raised e;
  }
