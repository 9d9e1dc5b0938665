-- ===== src/Jwt/Verifier/Parsed.antt =====
-- What `parse` of src/dbsc/jwt.py returns: the parts of the token, and its signing input.
use dbsc_python.Base.{
  ℕ, ◌≡◌, refl, Bool, true, false, none, some, List, [], ◌∷◌, ◌++◌, ltb, length, all, all-append,
  arith, &&-eq-true,
}
use dbsc_python.Base.Text.{Text, codes, is_empty}
use dbsc_python.Exceptions.{Result, ok, raise, ◌>>=◌, ◌>>◌, >>=-eq-ok}
use dbsc_python.Encoding.{encode?, encode_char, is_ascii}
use dbsc_python.Json.{Fields}
use dbsc_python.Json.Bytes.{loads_object_bytes}
use dbsc_python.Json.Bytes.Ascii.{loads_object_bytes-nil}
use dbsc_python.Jwt.{ParsedJwt}
use dbsc_python.Jwt.Base64.{b64url_decode}
use dbsc_python.Jwt.Base64.Ascii.{b64url_decode-ascii}
use dbsc_python.Jwt.Verifier.{
  max_jwt_length, split_dots, invalid, refuse_if, some_object, parse_parts, of_split, parse,
}

-- ASCII text is encoded.
pub encode?-ascii : (s : Text) → all is_ascii s ≡ true → encode? s ≡ some s
unfolding encode? encode_char
encode?-ascii [] h = refl
encode?-ascii (c ∷ s) h =
    let (hc, hs) = &&-eq-true (is_ascii c) (all is_ascii s) h in rw (hc, encode?-ascii s hs) refl

-- The signing input of a parsed token is ASCII.
decoded-ascii :
    (depth : ℕ) (s : Text) (fields : Fields)
    → some_object (loads_object_bytes depth (b64url_decode s)) ≡ ok fields
    → all is_ascii s ≡ true
unfolding some_object
decoded-ascii depth s fields h = b64url_decode-ascii s (λ e.
    let nothing : loads_object_bytes depth (b64url_decode s) ≡ none =
      rw e (loads_object_bytes-nil depth) in
    absurd (cc))

-- The parts of a parsed token.
module _ (h p s : Text) where
  abbrev assembled : Bool → Result Fields → Result Fields → Result ParsedJwt
  assembled empty m n = do
    header ← m
    payload ← n
    refuse_if empty (codes "JWT signature is empty")
    ok (record {
      header = header;
      payload = payload;
      signing_input = h ++ b'.' ∷ p;
      signature = b64url_decode s;
    })

  assembled-ok :
      (empty : Bool) (m n : Result Fields) (parsed : ParsedJwt)
      → assembled empty m n ≡ ok parsed
      → (m ≡ ok parsed.header)
        × (n ≡ ok parsed.payload)
        × (parsed.signing_input ≡ h ++ b'.' ∷ p)
        × (parsed.signature ≡ b64url_decode s)
        × (empty ≡ false)
  unfolding refuse_if invalid
  assembled-ok false (ok header) (ok payload) parsed e = ground arith
  assembled-ok true (ok header) (ok payload) parsed e = absurd (cc)
  assembled-ok empty (raise x) n parsed e = absurd (cc)
  assembled-ok empty (ok header) (raise x) parsed e = absurd (cc)

  parse_parts-ascii :
      (depth : ℕ) (parsed : ParsedJwt)
      → parse_parts depth h p s ≡ ok parsed
      → all is_ascii parsed.signing_input ≡ true
  unfolding parse_parts
  parse_parts-ascii depth parsed e =
      let (m, n, joined, _, _) = assembled-ok (is_empty (b64url_decode s)) _ _ parsed e in
      rw
        (
          joined,
          all-append is_ascii h (b'.' ∷ p),
          decoded-ascii depth h parsed.header m,
          decoded-ascii depth p parsed.payload n,
        )
        refl

of_split-ascii :
    (depth : ℕ) (parts : Text × List Text) (parsed : ParsedJwt)
    → of_split depth parts ≡ ok parsed
    → all is_ascii parsed.signing_input ≡ true
unfolding of_split invalid
of_split-ascii depth (h, p ∷ s ∷ []) parsed e = parse_parts-ascii h p s depth parsed e
of_split-ascii depth (h, []) parsed e = absurd (cc)
of_split-ascii depth (h, p ∷ []) parsed e = absurd (cc)
of_split-ascii depth (h, p ∷ s ∷ t ∷ ts) parsed e = absurd (cc)

pub parse-ascii :
    (depth : ℕ) (jwt : Text) (parsed : ParsedJwt)
    → parse depth jwt ≡ ok parsed
    → all is_ascii parsed.signing_input ≡ true
unfolding parse
parse-ascii depth jwt parsed e =
    let (_, q, _) =
      >>=-eq-ok (λ _. of_split depth (split_dots jwt))
        (refuse_if (ltb max_jwt_length (length jwt)) (codes "JWT is too large")) e in
    of_split-ascii depth (split_dots jwt) parsed q
