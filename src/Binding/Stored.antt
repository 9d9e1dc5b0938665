-- ===== src/Binding/Stored.antt =====
-- Reading a stored binding: the members that `to_json` writes, and any others.
use dbsc_python.Base.{
  ℕ, ◌≤◌, ap, ◌∙◌, Bool, true, ◌&&◌, all, arith, ◌≡◌, refl, sym, subst, Option, none, some,
}
use dbsc_python.Base.Text.{Text, text_eq, codes}
use dbsc_python.Exceptions.{ok}
use dbsc_python.Json.{Fields, get, as_str, as_int}
use dbsc_python.Json.{obj, is_unique}
use dbsc_python.Json.Reader.{loads_object}
use dbsc_python.Json.RoundTrip.Strings.{is_scalar}
use dbsc_python.Json.RoundTrip.Numbers.{is_short, size}
use dbsc_python.Json.RoundTrip.Plain.{is_plain, nesting}
use dbsc_python.Json.RoundTrip.Values.{loads_object-dumps}
use dbsc_python.Json.RoundTrip.Safe.{sf_string_scalar, cookie_scalar}
use dbsc_python.Json.Stored.{IsRead, corrupt, required-IsRead, or_corrupt-IsRead}
use dbsc_python.Binding.{Binding, IsValid, post_init}
use dbsc_python.Binding.Laws.{post_init_of_IsValid, post_init-eq-ok, post_init-eq-raise}
use dbsc_python.Binding.Record.{unsafe, members, of_members, of_data, to_json, from_json}

-- The members of a valid binding are read back as that binding.
pub of_data-members : (b : Binding) → IsValid b → of_data (some (members b)) ≡ ok b
unfolding of_data members text_eq
of_data-members b v = rw (post_init_of_IsValid b v) refl

accepts : (b a : Binding) → post_init b ≡ ok a → IsValid a
accepts b a p = subst IsValid (sym (post_init-eq-ok b a p).0) (post_init-eq-ok b a p).1

-- Whatever JSON was stored, or none at all: reading it gives a valid binding or raises
-- `CorruptStateError`, and nothing else.
pub of_data-IsRead : (decoded : Option Fields) → IsRead IsValid (of_data decoded)
unfolding of_data of_members
of_data-IsRead none = corrupt _ refl
of_data-IsRead (some decoded) = required-IsRead _ (as_str (get (codes "userId") decoded)) _ (λ _.
    required-IsRead _ (as_str (get (codes "sessionIdentifier") decoded)) _ (λ _.
      required-IsRead _ (as_str (get (codes "cookieValue") decoded)) _ (λ _.
        required-IsRead _ (as_str (get (codes "publicKeyPem") decoded)) _ (λ _.
          required-IsRead _ (as_str (get (codes "algorithm") decoded)) _ (λ _.
            required-IsRead _ (as_str (get (codes "challenge") decoded)) _ (λ _.
              required-IsRead _ (as_int (get (codes "challengeTime") decoded)) _ (λ _.
                required-IsRead _ (as_int (get (codes "createdAt") decoded)) _
                  (λ _. or_corrupt-IsRead unsafe _ (accepts _) (post_init-eq-raise _)))))))))

-- Whatever text is stored: reading it gives a valid binding or raises `CorruptStateError`, and
-- nothing else.
pub from_json-IsRead : (depth : ℕ) (raw : Text) → IsRead IsValid (from_json depth raw)
unfolding from_json
from_json-IsRead depth raw = of_data-IsRead (loads_object depth raw)

-- What is not checked by the constructor and has to be readable all the same.
unfoldable pub is_storable : Binding → Bool
is_storable b =
    all is_scalar b.user_id
    && all is_scalar b.public_key_pem
    && all is_scalar b.algorithm
    && is_short (size b.challenge_time)
    && is_short (size b.created_at)
    && is_short (size b.cookie_issued_at)
    && is_short (size b.previous_cookie_expires_at)
    && is_short (size b.previous_challenge_time)

-- The members of a valid binding are read back.
members-is_plain :
    (b : Binding) → IsValid b → is_storable b ≡ true → is_plain (obj (members b)) ≡ true
unfolding is_storable members is_plain codes is_unique text_eq
members-is_plain b v h =
    rw
      (
        sf_string_scalar b.session_identifier v.session_identifier,
        sf_string_scalar b.challenge v.challenge,
        sf_string_scalar b.previous_challenge v.previous_challenge,
        cookie_scalar b.cookie_value v.cookie_value,
        cookie_scalar b.previous_cookie_value v.previous_cookie_value,
      )
      (ground arith)

-- The printed form of a valid binding, whose texts have no surrogates and whose times are within
-- the digits that `int()` reads, is read back as that binding.
pub from_json-to_json :
    (b : Binding) (depth : ℕ)
    → IsValid b
    → is_storable b ≡ true
    → 1 ≤ depth
    → from_json depth (to_json b) ≡ ok b
unfolding from_json to_json nesting
from_json-to_json b depth v h d =
    ap of_data (loads_object-dumps (members b) depth (members-is_plain b v h) d)
    ∙ of_data-members b v
