-- ===== src/Jwt/Verifier/Token.antt =====
-- Compact serialisations, and what `parse` of src/dbsc/jwt.py makes of them.
use dbsc_python.Base.{
  ℕ, ◌+◌, ◌*◌, ◌/◌, ◌%◌, ◌≤◌, ◌≡◌, refl, Bool, true, false, not, List, [], ◌∷◌, ◌++◌, ltb, ◌==◌,
  all, all-imp, length, arith, &&-eq-true,
}
use dbsc_python.Base.Text.{Text, is_empty}
use dbsc_python.Exceptions.{ok}
use dbsc_python.Json.{Fields, obj}
use dbsc_python.Json.Dumps.{dumps}
use dbsc_python.Json.RoundTrip.Plain.{is_plain, nesting}
use dbsc_python.Json.Bytes.Ascii.{dumps-printable, loads_object_bytes-dumps}
use dbsc_python.Jwt.{ParsedJwt}
use dbsc_python.Jwt.Base64.{b64url_decode}
use dbsc_python.Jwt.Base64.Encoded.{b64url_encode, url_char, is_byte, b64url_decode-b64url_encode}
use dbsc_python.Jwt.Verifier.{
  max_jwt_length, split_dots, refuse_if, some_object, parse_parts, of_split, parse,
}

abbrev no_dot : ℕ → Bool
no_dot c = not (c == b'.')

url_char-no_dot : (v : ℕ) → no_dot (url_char v) ≡ true
unfolding url_char
url_char-no_dot v = ground arith

b64url_encode-no_dot : (bs : List ℕ) → all no_dot (b64url_encode bs) ≡ true
unfolding b64url_encode
b64url_encode-no_dot [] = refl
b64url_encode-no_dot (a ∷ []) = rw (url_char-no_dot (a / 4), url_char-no_dot (a % 4 * 16)) refl
b64url_encode-no_dot (a ∷ b ∷ []) =
    rw
      (url_char-no_dot (a / 4), url_char-no_dot (a % 4 * 16 + b / 16), url_char-no_dot (b % 16 * 4))
      refl
b64url_encode-no_dot (a ∷ b ∷ c ∷ bs) =
    rw
      (
        url_char-no_dot (a / 4),
        url_char-no_dot (a % 4 * 16 + b / 16),
        url_char-no_dot (b % 16 * 4 + c / 64),
        url_char-no_dot (c % 64),
      )
      (b64url_encode-no_dot bs)

split_dots_none : (s : Text) → all no_dot s ≡ true → split_dots s ≡ (s, [])
unfolding split_dots
split_dots_none [] h = refl
split_dots_none (c ∷ s) h =
    let (hc, hs) = &&-eq-true (no_dot c) (all no_dot s) h in
    let differs : (c == b'.') ≡ false = ground arith in rw (differs, split_dots_none s hs) refl

split_dots_first :
    (s t : Text)
    → all no_dot s ≡ true
    → split_dots (s ++ b'.' ∷ t) ≡ (s, (split_dots t).0 ∷ (split_dots t).1)
unfolding split_dots
split_dots_first [] t h = refl
split_dots_first (c ∷ s) t h =
    let (hc, hs) = &&-eq-true (no_dot c) (all no_dot s) h in
    let differs : (c == b'.') ≡ false = ground arith in rw (differs, split_dots_first s t hs) refl

-- The compact serialisation (RFC 7515, section 7.1).
abbrev pub token : Fields → Fields → List ℕ → Text
token header payload signature =
    b64url_encode (dumps (obj header))
    ++ b'.' ∷ (b64url_encode (dumps (obj payload)) ++ b'.' ∷ b64url_encode signature)

abbrev pub parsed_token : Fields → Fields → List ℕ → ParsedJwt
parsed_token header payload signature = record {
  header = header;
  payload = payload;
  signing_input = b64url_encode (dumps (obj header)) ++ b'.' ∷ b64url_encode (dumps (obj payload));
  signature = signature;
}

dumps-back :
    (fs : Fields)
    → is_plain (obj fs) ≡ true
    → b64url_decode (b64url_encode (dumps (obj fs))) ≡ dumps (obj fs)
dumps-back fs h =
    b64url_decode-b64url_encode (dumps (obj fs))
      (all-imp (dumps (obj fs)) (λ c k. ground arith) (dumps-printable (obj fs) h))

-- The token of a plain header, a plain payload and a signature that is not empty is parsed into
-- these, with the text before its last dot as signing input, if it is no longer than 8192
-- characters and the interpreter has room for the nesting.
pub parse-token :
    (depth : ℕ) (header payload : Fields) (signature : List ℕ)
    → is_plain (obj header) ≡ true
    → is_plain (obj payload) ≡ true
    → nesting (obj header) ≤ depth
    → nesting (obj payload) ≤ depth
    → all is_byte signature ≡ true
    → is_empty signature ≡ false
    → length (token header payload signature) ≤ max_jwt_length
    → parse depth (token header payload signature) ≡ ok (parsed_token header payload signature)
unfolding parse of_split parse_parts refuse_if some_object
parse-token depth header payload signature h k n m s e l =
    let short : ltb max_jwt_length (length (token header payload signature)) ≡ false =
      ground arith in
    rw
      (
        short,
        split_dots_first (b64url_encode (dumps (obj header))) _
            (b64url_encode-no_dot (dumps (obj header))),
        split_dots_first (b64url_encode (dumps (obj payload))) _
            (b64url_encode-no_dot (dumps (obj payload))),
        split_dots_none (b64url_encode signature) (b64url_encode-no_dot signature),
        dumps-back header h,
        dumps-back payload k,
        b64url_decode-b64url_encode signature s,
        loads_object_bytes-dumps header depth h n,
        loads_object_bytes-dumps payload depth k m,
        e,
      )
      refl
