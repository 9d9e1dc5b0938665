-- ===== src/Binding/Record.antt =====
-- The stored form of a binding: `to_json` and `from_json` of src/dbsc/binding.py.
use dbsc_python.Base.{ℕ, Option, none, some, []}
use dbsc_python.Base.Int.{pos}
use dbsc_python.Base.Text.{Text, codes}
use dbsc_python.Exceptions.{Result, error, corrupt_state_error, ◌>>=◌}
use dbsc_python.Json.{Fields, bool, int, str, obj, end, field, get, as_str, as_int}
use dbsc_python.Json.Dumps.{dumps}
use dbsc_python.Json.Stored.{required, or_default, is_true, or_corrupt}
use dbsc_python.Json.Reader.{loads_object}
use dbsc_python.Binding.{Binding, post_init}

unfoldable pub members : Binding → Fields
unfolding codes
members b = field (codes "userId") (str b.user_id) (
    field (codes "sessionIdentifier") (str b.session_identifier) (
      field (codes "cookieValue") (str b.cookie_value) (
        field (codes "publicKeyPem") (str b.public_key_pem) (
          field (codes "algorithm") (str b.algorithm) (
            field (codes "challenge") (str b.challenge) (
              field (codes "challengeTime") (int b.challenge_time) (
                field (codes "createdAt") (int b.created_at) (
                  field (codes "cookieIssuedAt") (int b.cookie_issued_at) (
                    field (codes "previousCookieValue") (str b.previous_cookie_value) (
                      field (codes "previousCookieExpiresAt") (int b.previous_cookie_expires_at) (
                        field (codes "hasRefreshed") (bool b.has_refreshed) (
                          field (codes "previousChallenge") (str b.previous_challenge) (
                            field (codes "previousChallengeTime") (int b.previous_challenge_time) (
                              field (codes "challengeAdvertised") (bool b.challenge_advertised)
                                end))))))))))))))

unfoldable pub to_json : Binding → Text
unfolding members
to_json b = dumps (obj (members b))

abbrev pub unsafe : Text
unsafe = codes "Binding record has an unsafe value: "

abbrev missing : Text
missing = codes "Binding record has missing or wrong-typed fields"

-- The binding of the decoded members.
unfoldable pub of_members : Fields → Result Binding
unfolding codes get as_str as_int required or_default is_true or_corrupt
of_members decoded = do
  user_id ← required missing (as_str (get (codes "userId") decoded))
  session_identifier ← required missing (as_str (get (codes "sessionIdentifier") decoded))
  cookie_value ← required missing (as_str (get (codes "cookieValue") decoded))
  public_key_pem ← required missing (as_str (get (codes "publicKeyPem") decoded))
  algorithm ← required missing (as_str (get (codes "algorithm") decoded))
  challenge ← required missing (as_str (get (codes "challenge") decoded))
  challenge_time ← required missing (as_int (get (codes "challengeTime") decoded))
  created_at ← required missing (as_int (get (codes "createdAt") decoded))
  or_corrupt unsafe (
      post_init (record {
        user_id = user_id;
        session_identifier = session_identifier;
        cookie_value = cookie_value;
        public_key_pem = public_key_pem;
        algorithm = algorithm;
        challenge = challenge;
        challenge_time = challenge_time;
        created_at = created_at;
        cookie_issued_at = or_default (as_int (get (codes "cookieIssuedAt") decoded)) created_at;
        previous_cookie_value = or_default (as_str (get (codes "previousCookieValue") decoded)) [];
        previous_cookie_expires_at =
            or_default (as_int (get (codes "previousCookieExpiresAt") decoded)) (pos 0);
        has_refreshed = is_true (get (codes "hasRefreshed") decoded);
        previous_challenge = or_default (as_str (get (codes "previousChallenge") decoded)) [];
        previous_challenge_time =
            or_default (as_int (get (codes "previousChallengeTime") decoded)) (pos 0);
        challenge_advertised = is_true (get (codes "challengeAdvertised") decoded);
      }))

-- `from_json`, given what `loads_object` makes of the stored text.
unfoldable pub of_data : Option Fields → Result Binding
unfolding of_members
of_data none = error corrupt_state_error (codes "Binding record is not a JSON object")
of_data (some decoded) = of_members decoded

-- `depth` is the nesting of JSON that the interpreter has room for.
unfoldable pub from_json : ℕ → Text → Result Binding
unfolding of_data loads_object
from_json depth raw = of_data (loads_object depth raw)
