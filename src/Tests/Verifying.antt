-- ===== src/Tests/Verifying.antt =====
-- Tokens, under a key that signs everything.
use dbsc_python.Base.{ℕ, ◌≡◌, refl, true, some, none, [], ◌∷◌, arith}
use dbsc_python.Base.Text.{Text, codes, text_eq}
use dbsc_python.Exceptions.{ok}
use dbsc_python.Json.{Fields, str, obj, field, end, get, is_unique}
use dbsc_python.Json.Dumps.{dumps}
use dbsc_python.Json.Bytes.{loads_object_bytes}
use dbsc_python.Json.RoundTrip.Plain.{is_plain, nesting}
use dbsc_python.Jwt.{ParsedJwt, RegistrationResult, RaisesJwtInvalid}
use dbsc_python.Jwt.Base64.{b64url_decode}
use dbsc_python.Jwt.Base64.Encoded.{b64url_encode, b64url_decode-b64url_encode}
use dbsc_python.Jwt.Verifier.{
  Cryptography, parse, jwt_verifier, verify_registration_jwt, verify_refresh_jwt,
}
use dbsc_python.Jwt.Verifier.Raises.{jwt_verifier-RaisesJwtInvalid}
use dbsc_python.Jwt.Verifier.Sound.{Accepts, Signs, verify_refresh_jwt-Accepts}
use dbsc_python.Jwt.Verifier.Device.{
  Registers, Describes, verify_registration_jwt-Registers, refresh_signed_by_registered_key,
}
use dbsc_python.Jwt.Verifier.Token.{token, parsed_token, parse-token}

-- One key, which is of P-256 and is written as "pem".
abbrev crypto : Cryptography
crypto = record {
  PublicKey = Unit {0};
  load_pem_public_key = λ bytes. some tt;
  is_p256 = λ key. true;
  from_encoded_point = λ point. some tt;
  public_pem = λ key. codes "pem";
  encode_dss_signature = λ r s. r ∷ s ∷ [];
  verify = λ key signature message. true;
}

abbrev zeros : Text
zeros = codes "AAAAAAAAAAAAAAAAAAAAAAAAAAAAAAAAAAAAAAAAAAA"

abbrev jwk : Fields
jwk = field (codes "kty") (str (codes "EC")) (
    field (codes "crv") (str (codes "P-256"))
      (field (codes "x") (str zeros) (field (codes "y") (str zeros) end)))

abbrev header : Fields
header = field (codes "alg") (str (codes "ES256")) (field (codes "jwk") (obj jwk) end)

abbrev payload : Fields
payload = field (codes "jti") (str (codes "n0")) end

abbrev repeated : ℕ → Text
repeated ℕ.zero = []
repeated (ℕ.suc n) = 1 ∷ repeated n

abbrev registration : ParsedJwt
registration = record {
  header = header;
  payload = payload;
  signing_input = codes "h.p";
  signature = repeated 64;
}

abbrev result : RegistrationResult
result = record { public_key_pem = codes "pem"; algorithm = codes "ES256"; challenge = codes "n0" }

registered : verify_registration_jwt crypto registration ≡ ok result
unfolding verify_registration_jwt text_eq
registered = refl

refreshed : verify_refresh_jwt crypto registration (codes "pem") ≡ ok (codes "n0")
unfolding verify_refresh_jwt text_eq
refreshed = refl

verify_refresh_jwt-Accepts_example : Accepts crypto registration (codes "pem") (codes "n0")
verify_refresh_jwt-Accepts_example =
    verify_refresh_jwt-Accepts crypto registration (codes "pem") (codes "n0") refreshed

verify_registration_jwt-Registers_example : Registers crypto registration result
verify_registration_jwt-Registers_example =
    verify_registration_jwt-Registers crypto registration result registered

refresh_signed_by_registered_key_example :
    (jwk : Fields) × (key : Unit {0}) × (get (codes "jwk") header ≡ some (obj jwk))
    × Describes crypto jwk key
    × (signed : Signs crypto registration (codes "pem")) × (signed.key ≡ key)
refresh_signed_by_registered_key_example =
    refresh_signed_by_registered_key crypto (λ key bytes e. refl) registration registration result
      (codes "n0") registered refreshed

jwt_verifier-RaisesJwtInvalid_example : RaisesJwtInvalid (jwt_verifier crypto 9)
jwt_verifier-RaisesJwtInvalid_example = jwt_verifier-RaisesJwtInvalid crypto 9

b64url_decode-b64url_encode_example :
    b64url_decode (b64url_encode (251 ∷ 255 ∷ [])) ≡ 251 ∷ 255 ∷ []
b64url_decode-b64url_encode_example = b64url_decode-b64url_encode (251 ∷ 255 ∷ []) refl

abbrev small : Fields
small = field (codes "alg") (str (codes "ES256")) end

parse-token_example :
    parse 1 (token small payload (1 ∷ [])) ≡ ok (parsed_token small payload (1 ∷ []))
unfolding is_plain nesting is_unique text_eq b64url_encode dumps
parse-token_example =
    parse-token 1 small payload (1 ∷ []) refl refl (omega arith) (omega arith) refl refl
      (omega arith)

decoding_runs :
    (b64url_decode (codes "QQ") ≡ 65 ∷ [])
    × (b64url_decode (codes "QQ==") ≡ 65 ∷ [])
    × (b64url_decode (codes "QQ===") ≡ [])
    × (b64url_decode (codes "QUI=QQ==") ≡ [])
    × (b64url_decode (codes "Q") ≡ [])
    × (b64url_decode (codes "-_+/") ≡ 251 ∷ 255 ∷ 191 ∷ [])
    × (loads_object_bytes 1 (123 ∷ 0 ∷ 125 ∷ 0 ∷ []) ≡ some end)
    × (loads_object_bytes 1 (239 ∷ 187 ∷ 191 ∷ 123 ∷ 125 ∷ []) ≡ some end)
    × (loads_object_bytes 1 (255 ∷ 254 ∷ 0 ∷ 0 ∷ 123 ∷ 0 ∷ 0 ∷ 0 ∷ 125 ∷ 0 ∷ 0 ∷ 0 ∷ []) ≡ some end)
    × (loads_object_bytes 1 (123 ∷ 128 ∷ 125 ∷ []) ≡ none)
unfolding b64url_decode loads_object_bytes codes
decoding_runs = (refl, refl, refl, refl, refl, refl, refl, refl, refl, refl)
