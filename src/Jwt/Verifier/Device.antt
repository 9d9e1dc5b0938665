-- ===== src/Jwt/Verifier/Device.antt =====
-- The key of a registration token, and that of a refresh token (src/dbsc/jwt.py).
use dbsc_python.Base.{
  ℕ, ◌≡◌, refl, sym, ap, subst, ◌∙◌, Bool, true, false, not, ◌||◌, Option, none, some, List, ◌∷◌,
  ◌++◌, ◌==◌, length, arith, ==_iff,
}
use dbsc_python.Base.Text.{Text, codes, is_empty}
use dbsc_python.Exceptions.{ok, ◌>>=◌, >>=-eq-ok, ok_inj}
use dbsc_python.Encoding.{encode?}
use dbsc_python.Json.{Json, Fields, null, bool, int, float, str, arr, obj, get, as_str}
use dbsc_python.Jwt.{ParsedJwt, RegistrationResult}
use dbsc_python.Jwt.Verifier.{
  Cryptography, invalid, is_str, coordinate, check_header, require_jti, verify_signature,
  require_jwk, pem_of_point, pem_of_coordinates, jwk_to_pem, verify_registration_jwt,
  verify_refresh_jwt,
}
use dbsc_python.Jwt.Verifier.Sound.{
  refuse_if-ok, is_str-true, IsPinned, check_header-IsPinned, require_jti-ok, Signs,
  verify_signature-Signs, verify_refresh_jwt-Accepts,
}

some_inj : {A : Type 0} {x y : A} → some x ≡ some y → x ≡ y
some_inj e = cc

require_jwk-ok : (o : Option Json) (jwk : Fields) → require_jwk o ≡ ok jwk → o ≡ some (obj jwk)
unfolding require_jwk invalid
require_jwk-ok none jwk h = absurd (cc)
require_jwk-ok (some (obj fs)) jwk h = cc
require_jwk-ok (some null) jwk h = absurd (cc)
require_jwk-ok (some (bool b)) jwk h = absurd (cc)
require_jwk-ok (some (int n)) jwk h = absurd (cc)
require_jwk-ok (some (float s)) jwk h = absurd (cc)
require_jwk-ok (some (str s)) jwk h = absurd (cc)
require_jwk-ok (some (arr xs)) jwk h = absurd (cc)

module _ (crypto : Cryptography) where
  -- The key that a JWK describes: P-256, with two coordinates of 32 bytes.
  pub record Describes (jwk : Fields) (key : crypto.PublicKey) : Type 0 where
    pub kty : get (codes "kty") jwk ≡ some (str (codes "EC"))
    pub crv : get (codes "crv") jwk ≡ some (str (codes "P-256"))
    pub x : List ℕ
    pub y : List ℕ
    pub x_read : coordinate (as_str (get (codes "x") jwk)) ≡ x
    pub y_read : coordinate (as_str (get (codes "y") jwk)) ≡ y
    pub x_size : length x ≡ 32
    pub y_size : length y ≡ 32
    pub point : crypto.from_encoded_point (4 ∷ x ++ y) ≡ some key

  point_key :
      (o : Option crypto.PublicKey) (pem : Text)
      → pem_of_point crypto o ≡ ok pem
      → (key : crypto.PublicKey) × (o ≡ some key) × (pem ≡ crypto.public_pem key)
  unfolding pem_of_point invalid
  point_key none pem h = absurd (cc)
  point_key (some key) pem h = (key, refl, cc)

  jwk_to_pem-Describes :
      (jwk : Fields) (pem : Text)
      → jwk_to_pem crypto jwk ≡ ok pem
      → (key : crypto.PublicKey) × Describes jwk key × (pem ≡ crypto.public_pem key)
  unfolding jwk_to_pem pem_of_coordinates
  jwk_to_pem-Describes jwk pem h =
      let x = coordinate (as_str (get (codes "x") jwk)) in
      let y = coordinate (as_str (get (codes "y") jwk)) in
      let (kind, h₁) =
        refuse_if-ok
          (not (is_str (get (codes "kty") jwk) (codes "EC"))
            || not (is_str (get (codes "crv") jwk) (codes "P-256")))
          _ (pem_of_coordinates crypto x y) h in
      let (sizes, h₂) =
        refuse_if-ok (not (length x == 32) || not (length y == 32)) _
          (pem_of_point crypto (crypto.from_encoded_point (4 ∷ x ++ y))) h₁ in
      let (key, point, e) = point_key (crypto.from_encoded_point (4 ∷ x ++ y)) pem h₂ in
      let (kty, crv) =
        neither (not (is_str (get (codes "kty") jwk) (codes "EC")))
          (not (is_str (get (codes "crv") jwk) (codes "P-256"))) kind in
      let (x_size, y_size) = neither (not (length x == 32)) (not (length y == 32)) sizes in
      (
        key,
        record {
          kty = is_str-true (get (codes "kty") jwk) (codes "EC") kty;
          crv = is_str-true (get (codes "crv") jwk) (codes "P-256") crv;
          x = x;
          y = y;
          x_read = refl;
          y_read = refl;
          x_size = ground (arith, ==_iff (length x) 32);
          y_size = ground (arith, ==_iff (length y) 32);
          point = point;
        },
        e,
      )
    where
      neither : (a b : Bool) → (a || b) ≡ false → (a ≡ false) × (b ≡ false)
      neither false b e = (refl, e)
      neither true b e = absurd (cc)

  -- A registration token, and what was made of it.
  pub record Registers (parsed : ParsedJwt) (result : RegistrationResult) : Type 0 where
    pub pinned : IsPinned parsed.header
    pub jwk : Fields
    pub carried : get (codes "jwk") parsed.header ≡ some (obj jwk)
    pub key : crypto.PublicKey
    pub described : Describes jwk key
    pub pem : result.public_key_pem ≡ crypto.public_pem key
    pub signed : Signs crypto parsed result.public_key_pem
    pub algorithm : result.algorithm ≡ codes "ES256"
    pub challenge : get (codes "jti") parsed.payload ≡ some (str result.challenge)
    pub nonempty : is_empty result.challenge ≡ false

  -- A token that `verify_registration_jwt` accepts has ES256 as its algorithm and no critical
  -- extension, carries a P-256 key with coordinates of 32 bytes, and is signed by the key of the
  -- PEM in the result, which is the PEM of the carried key; the result has its `jti`, not empty.
  pub verify_registration_jwt-Registers :
      (parsed : ParsedJwt) (result : RegistrationResult)
      → verify_registration_jwt crypto parsed ≡ ok result
      → Registers parsed result
  unfolding verify_registration_jwt
  verify_registration_jwt-Registers parsed result h =
      let (u, h₁, pinned) = >>=-eq-ok _ (check_header parsed.header) h in
      let (jwk, h₂, carried) = >>=-eq-ok _ (require_jwk (get (codes "jwk") parsed.header)) h₁ in
      let (pem, h₃, described) = >>=-eq-ok _ (jwk_to_pem crypto jwk) h₂ in
      let (b, h₄, checked) =
        >>=-eq-ok _ (verify_signature crypto parsed.signing_input parsed.signature pem) h₃ in
      let (verified, h₅) =
        refuse_if-ok (not b) _
          (require_jti parsed.payload >>= λ jti.
            ok (record { public_key_pem = pem; algorithm = codes "ES256"; challenge = jti }))
          h₄ in
      let (jti, h₆, required) = >>=-eq-ok _ (require_jti parsed.payload) h₅ in
      let (signed, nonempty) = require_jti-ok parsed.payload jti required in
      let (key, describes, e) = jwk_to_pem-Describes jwk pem described in
      let b_true : b ≡ true = ground arith in
      let same : record { public_key_pem = pem; algorithm = codes "ES256"; challenge = jti }
          ≡ result =
        ok_inj h₆ in
      subst (Registers parsed) same (record {
        pinned = check_header-IsPinned parsed.header u pinned;
        jwk = jwk;
        carried = require_jwk-ok _ jwk carried;
        key = key;
        described = describes;
        pem = e;
        signed = verify_signature-Signs crypto parsed pem (checked ∙ ap (λ b. ok b) b_true);
        algorithm = refl;
        challenge = signed;
        nonempty = nonempty;
      })

  -- If loading the PEM of a key gives the key back: a refresh token that is accepted under the PEM
  -- of an accepted registration is signed by the very key that the registration token carried.
  pub refresh_signed_by_registered_key :
      ((key : crypto.PublicKey) (bytes : List ℕ)
        → encode? (crypto.public_pem key) ≡ some bytes
        → crypto.load_pem_public_key bytes ≡ some key)
      → (registration refresh : ParsedJwt) (result : RegistrationResult) (jti : Text)
      → verify_registration_jwt crypto registration ≡ ok result
      → verify_refresh_jwt crypto refresh result.public_key_pem ≡ ok jti
      → (jwk : Fields) × (key : crypto.PublicKey) × (get (codes "jwk") registration.header
          ≡ some (obj jwk))
        × Describes jwk key
        × (signed : Signs crypto refresh result.public_key_pem) × (signed.key ≡ key)
  refresh_signed_by_registered_key loads registration refresh result jti h k =
      let r = verify_registration_jwt-Registers registration result h in
      let a = verify_refresh_jwt-Accepts crypto refresh result.public_key_pem jti k in
      (r.jwk, r.key, r.carried, r.described, a.signed, same a.signed r.key r.pem)
    where
      same :
          (signed : Signs crypto refresh result.public_key_pem) (key : crypto.PublicKey)
          → result.public_key_pem ≡ crypto.public_pem key
          → signed.key ≡ key
      same signed key e =
          some_inj
            (sym signed.loads ∙ loads key signed.pem_bytes (sym (ap encode? e) ∙ signed.encoded))
