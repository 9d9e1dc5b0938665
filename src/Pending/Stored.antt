-- ===== src/Pending/Stored.antt =====
-- Reading a stored offer.
use dbsc_python.Base.{ℕ, ◌≤◌, ◌≡◌, refl, ap, ◌∙◌, Bool, true, ◌&&◌, Option, none, some, all, arith}
use dbsc_python.Base.Int.{ℤ}
use dbsc_python.Base.Text.{Text, text_eq, codes}
use dbsc_python.Exceptions.{Exception, ok, raise, value_error}
use dbsc_python.Validate.{require}
use dbsc_python.Json.{is_unique, Fields, obj, get, as_str, as_int}
use dbsc_python.Json.Reader.{loads_object}
use dbsc_python.Json.RoundTrip.Strings.{is_scalar}
use dbsc_python.Json.RoundTrip.Numbers.{is_short, size}
use dbsc_python.Json.RoundTrip.Plain.{is_plain, nesting}
use dbsc_python.Json.RoundTrip.Values.{loads_object-dumps}
use dbsc_python.Json.RoundTrip.Safe.{sf_string_scalar}
use dbsc_python.Json.Stored.{IsRead, corrupt, required-IsRead, or_corrupt-IsRead}
use dbsc_python.Pending.{PendingRegistration, IsValid, pending_registration}
use dbsc_python.Pending.Record.{unsafe, members, of_members, of_data, to_json, from_json}

accepts :
    (user_id reg_challenge : Text) (time : ℤ) (p : PendingRegistration)
    → pending_registration user_id reg_challenge time ≡ ok p
    → IsValid p
unfolding pending_registration require
accepts user_id reg_challenge time p h = record { challenge_safe = ground arith }

refuses :
    (user_id reg_challenge : Text) (time : ℤ) (e : Exception)
    → pending_registration user_id reg_challenge time ≡ raise e
    → e.kind ≡ value_error
unfolding pending_registration require
refuses user_id reg_challenge time e h = ground arith

of_data-IsRead : (decoded : Option Fields) → IsRead IsValid (of_data decoded)
unfolding of_data of_members
of_data-IsRead none = corrupt _ refl
of_data-IsRead (some decoded) =
    required-IsRead _ (as_str (get (codes "userId") decoded)) _ (λ user_id.
      required-IsRead _ (as_str (get (codes "regChallenge") decoded)) _ (λ reg_challenge.
        required-IsRead _ (as_int (get (codes "regChallengeTime") decoded)) _ (λ time.
          or_corrupt-IsRead unsafe _ (accepts user_id reg_challenge time)
            (refuses user_id reg_challenge time))))

-- Whatever text is stored: reading it gives a valid offer or raises `CorruptStateError`.
pub from_json-IsRead : (depth : ℕ) (raw : Text) → IsRead IsValid (from_json depth raw)
unfolding from_json
from_json-IsRead depth raw = of_data-IsRead (loads_object depth raw)

of_data-members : (p : PendingRegistration) → IsValid p → of_data (some (members p)) ≡ ok p
unfolding of_data members text_eq require
of_data-members p v = rw (v.challenge_safe) refl

-- What is not checked by the constructor and has to be readable all the same.
unfoldable pub is_storable : PendingRegistration → Bool
is_storable p = all is_scalar p.user_id && is_short (size p.reg_challenge_time)

members-is_plain :
    (p : PendingRegistration) → IsValid p → is_storable p ≡ true → is_plain (obj (members p)) ≡ true
unfolding is_storable members is_plain codes is_unique text_eq
members-is_plain p v h = rw (sf_string_scalar p.reg_challenge v.challenge_safe) (ground arith)

-- The printed form of a valid offer, whose user id has no surrogates and whose time is within the
-- digits that `int()` reads, is read back as that offer.
pub from_json-to_json :
    (p : PendingRegistration) (depth : ℕ)
    → IsValid p
    → is_storable p ≡ true
    → 1 ≤ depth
    → from_json depth (to_json p) ≡ ok p
unfolding from_json to_json nesting
from_json-to_json p depth v h d =
    ap of_data (loads_object-dumps (members p) depth (members-is_plain p v h) d)
    ∙ of_data-members p v
