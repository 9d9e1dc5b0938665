-- ===== src/Pending/Record.antt =====
-- The stored form of an offer: `to_json` and `from_json` of src/dbsc/pending.py.
use dbsc_python.Base.{ℕ, Option, none, some}
use dbsc_python.Base.Text.{Text, codes}
use dbsc_python.Exceptions.{Result, error, corrupt_state_error, ◌>>=◌}
use dbsc_python.Json.{Fields, int, str, obj, end, field, get, as_str, as_int}
use dbsc_python.Json.Dumps.{dumps}
use dbsc_python.Json.Reader.{loads_object}
use dbsc_python.Json.Stored.{required, or_corrupt}
use dbsc_python.Pending.{PendingRegistration, pending_registration}

unfoldable pub members : PendingRegistration → Fields
unfolding codes
members p = field (codes "userId") (str p.user_id) (
    field (codes "regChallenge") (str p.reg_challenge)
      (field (codes "regChallengeTime") (int p.reg_challenge_time) end))

unfoldable pub to_json : PendingRegistration → Text
unfolding members
to_json p = dumps (obj (members p))

abbrev pub unsafe : Text
unsafe = codes "Pending registration record has an unsafe value: "

abbrev missing : Text
missing = codes "Pending registration record has missing or wrong-typed fields"

-- The offer of the decoded members.
unfoldable pub of_members : Fields → Result PendingRegistration
unfolding codes get as_str as_int required or_corrupt pending_registration
of_members decoded = do
  user_id ← required missing (as_str (get (codes "userId") decoded))
  reg_challenge ← required missing (as_str (get (codes "regChallenge") decoded))
  reg_challenge_time ← required missing (as_int (get (codes "regChallengeTime") decoded))
  or_corrupt unsafe (pending_registration user_id reg_challenge reg_challenge_time)

-- `from_json`, given what `loads_object` makes of the stored text.
unfoldable pub of_data : Option Fields → Result PendingRegistration
unfolding of_members
of_data none = error corrupt_state_error (codes "Pending registration record is not a JSON object")
of_data (some decoded) = of_members decoded

-- `depth` is the nesting of JSON that the interpreter has room for.
unfoldable pub from_json : ℕ → Text → Result PendingRegistration
unfolding of_data loads_object
from_json depth raw = of_data (loads_object depth raw)
