-- ===== src/Jwt/Verifier/Sound.antt =====
-- What the verifier has checked of a token that it accepts.
use dbsc_python.Base.{
  ℕ, ◌≡◌, refl, ap, ◌∙◌, Bool, true, false, not, Option, none, some, List, [], ◌∷◌, ◌==◌, length,
  arith, ==_iff, if◌then◌else◌,
}
use dbsc_python.Base.Text.{Text, codes, text_eq_iff, is_empty}
use dbsc_python.Exceptions.{Result, ok, ◌>>=◌, ◌>>◌, >>=-eq-ok}
use dbsc_python.Encoding.{encode?, encode}
use dbsc_python.Json.{Json, Fields, null, bool, int, float, str, arr, obj, get, as_str, has_member}
use dbsc_python.Jwt.{ParsedJwt}
use dbsc_python.Jwt.Verifier.{
  Cryptography, refuse_if, invalid, is_str, text_or_empty, from_bytes, take, drop, loaded,
  check_header, require_jti, verify_signature, verify_refresh_jwt,
}

pub refuse_if-ok :
    {A : Type 0} (b : Bool) (message : Text) (next : Result A) {a : A}
    → (refuse_if b message >> next) ≡ ok a
    → (b ≡ false) × (next ≡ ok a)
unfolding refuse_if invalid
refuse_if-ok false message next h = (refl, h)
refuse_if-ok true message next h = absurd (cc)

refuse_if-false :
    (b : Bool) (message : Text) (u : Unit {0}) → refuse_if b message ≡ ok u → b ≡ false
unfolding refuse_if invalid
refuse_if-false false message u h = refl
refuse_if-false true message u h = absurd (cc)

pub is_str-true : (o : Option Json) (t : Text) → not (is_str o t) ≡ false → o ≡ some (str t)
is_str-true none t h = absurd (cc)
is_str-true (some null) t h = absurd (cc)
is_str-true (some (bool b)) t h = absurd (cc)
is_str-true (some (int n)) t h = absurd (cc)
is_str-true (some (float s)) t h = absurd (cc)
is_str-true (some (str s)) t h = ap (λ s. some (str s)) ((text_eq_iff s t).0 (ground arith))
is_str-true (some (arr xs)) t h = absurd (cc)
is_str-true (some (obj fs)) t h = absurd (cc)

-- The condition of a guard that gives false.
if_false :
    (b : Bool) (m : Result Bool)
    → (if b then ok false else m) ≡ ok true
    → (b ≡ false) × (m ≡ ok true)
if_false true m h = absurd (cc)
if_false false m h = (refl, h)

-- The algorithm is pinned, and there are no critical extensions.
pub record IsPinned (header : Fields) : Type 0 where
  pub alg : get (codes "alg") header ≡ some (str (codes "ES256"))
  pub crit : has_member (codes "crit") header ≡ false

pub check_header-IsPinned :
    (header : Fields) (u : Unit {0}) → check_header header ≡ ok u → IsPinned header
unfolding check_header refuse_if
check_header-IsPinned header u h =
    let (alg, rest) = refuse_if-ok _ _ (refuse_if (has_member (codes "crit") header) _) h in
    record {
      alg = is_str-true (get (codes "alg") header) (codes "ES256") alg;
      crit = refuse_if-false _ _ u rest;
    }

required_text :
    (o : Option Json) (message jti : Text)
    → (refuse_if (is_empty (text_or_empty (as_str o))) message >> ok (text_or_empty (as_str o)))
      ≡ ok jti
    → (o ≡ some (str jti)) × (is_empty jti ≡ false)
unfolding refuse_if invalid as_str
required_text none message jti h = absurd (cc)
required_text (some null) message jti h = absurd (cc)
required_text (some (bool b)) message jti h = absurd (cc)
required_text (some (int n)) message jti h = absurd (cc)
required_text (some (float s)) message jti h = absurd (cc)
required_text (some (str [])) message jti h = absurd (cc)
required_text (some (str (c ∷ s))) message jti h = ground arith
required_text (some (arr xs)) message jti h = absurd (cc)
required_text (some (obj fs)) message jti h = absurd (cc)

-- The challenge that was signed.
pub require_jti-ok :
    (payload : Fields) (jti : Text)
    → require_jti payload ≡ ok jti
    → (get (codes "jti") payload ≡ some (str jti)) × (is_empty jti ≡ false)
unfolding require_jti as_str
require_jti-ok payload jti h = required_text (get (codes "jti") payload) _ jti h

module _ (crypto : Cryptography) where
  -- A raw signature of 64 bytes that a P-256 key made of the signing input.
  pub record Signs (parsed : ParsedJwt) (pem : Text) : Type 0 where
    pub pem_bytes : List ℕ
    pub key : crypto.PublicKey
    pub message : List ℕ
    pub encoded : encode? pem ≡ some pem_bytes
    pub loads : crypto.load_pem_public_key pem_bytes ≡ some key
    pub p256 : crypto.is_p256 key ≡ true
    pub size : length parsed.signature ≡ 64
    pub input : encode parsed.signing_input ≡ ok message
    pub verified :
        crypto.verify key
          (crypto.encode_dss_signature
            (from_bytes 0 (take 32 parsed.signature))
            (from_bytes 0 (drop 32 parsed.signature)))
          message
        ≡ true

  -- The test by a key, once it is loaded.
  abbrev tested : ParsedJwt → crypto.PublicKey → Result Bool
  tested parsed key =
      if not (crypto.is_p256 key)
      then ok false
      else encode parsed.signing_input >>= λ message. ok (
          crypto.verify key
            (crypto.encode_dss_signature (from_bytes 0 (take 32 parsed.signature))
              (from_bytes 0 (drop 32 parsed.signature)))
            message)

  keyed :
      (parsed : ParsedJwt) (encoded : Option (List ℕ))
      → (elim (loaded crypto encoded) [ none ↦ ok false | some key ↦ tested parsed key ]) ≡ ok true
      → (bytes : List ℕ) × (key : crypto.PublicKey) × (encoded ≡ some bytes)
        × (crypto.load_pem_public_key bytes ≡ some key)
        × (tested parsed key ≡ ok true)
  keyed parsed none h = absurd (cc)
  keyed parsed (some bytes) h = loaded_key (crypto.load_pem_public_key bytes) refl h
    where
      loaded_key :
          (o : Option crypto.PublicKey)
          → crypto.load_pem_public_key bytes ≡ o
          → (elim o [ none ↦ ok false | some key ↦ tested parsed key ]) ≡ ok true
          → (bytes' : List ℕ) × (key : crypto.PublicKey) × (◌≡◌ {A = Option (List ℕ)}
              (some bytes)
              (some bytes'))
            × (crypto.load_pem_public_key bytes' ≡ some key)
            × (tested parsed key ≡ ok true)
      loaded_key none e k = absurd (cc)
      loaded_key (some key) e k = (bytes, key, refl, e, k)

  pub verify_signature-Signs :
      (parsed : ParsedJwt) (pem : Text)
      → verify_signature crypto parsed.signing_input parsed.signature pem ≡ ok true
      → Signs parsed pem
  unfolding verify_signature
  verify_signature-Signs parsed pem h =
      let (size, h₁) = if_false (not (length parsed.signature == 64)) _ h in
      let (bytes, key, encoded, loads, h₂) = keyed parsed (encode? pem) h₁ in
      let (p256, h₃) = if_false (not (crypto.is_p256 key)) _ h₂ in
      let (message, verified, input) = >>=-eq-ok _ (encode parsed.signing_input) h₃ in
      record {
        pem_bytes = bytes;
        key = key;
        message = message;
        encoded = encoded;
        loads = loads;
        p256 = ground arith;
        size = ground (arith, ==_iff (length parsed.signature) 64);
        input = input;
        verified = ground arith;
      }

  -- A refresh token, and the challenge that it signs.
  pub record Accepts (parsed : ParsedJwt) (pem jti : Text) : Type 0 where
    pub pinned : IsPinned parsed.header
    pub signed : Signs parsed pem
    pub challenge : get (codes "jti") parsed.payload ≡ some (str jti)
    pub nonempty : is_empty jti ≡ false

  -- A token that `verify_refresh_jwt` accepts under a stored key has ES256 as its algorithm and no
  -- critical extension, is signed by that key, a P-256 key, with 64 bytes, and the result is its
  -- `jti`, which is not empty.
  pub verify_refresh_jwt-Accepts :
      (parsed : ParsedJwt) (pem jti : Text)
      → verify_refresh_jwt crypto parsed pem ≡ ok jti
      → Accepts parsed pem jti
  unfolding verify_refresh_jwt
  verify_refresh_jwt-Accepts parsed pem jti h =
      let (u, h₁, pinned) = >>=-eq-ok _ (check_header parsed.header) h in
      let (b, h₂, checked) =
        >>=-eq-ok _ (verify_signature crypto parsed.signing_input parsed.signature pem) h₁ in
      let (verified, h₃) = refuse_if-ok (not b) _ (require_jti parsed.payload) h₂ in
      let (signed, nonempty) = require_jti-ok parsed.payload jti h₃ in
      let e : b ≡ true = ground arith in
      record {
        pinned = check_header-IsPinned parsed.header u pinned;
        signed = verify_signature-Signs parsed pem (checked ∙ ap (λ b. ok b) e);
        challenge = signed;
        nonempty = nonempty;
      }
