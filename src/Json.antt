-- ===== src/Json.antt =====
-- JSON values, as `json` builds and prints them; used by src/dbsc/_json.py.
pub mod Dumps
pub mod Scanned
pub mod Strings
pub mod Numbers
pub mod Reader
pub mod RoundTrip
pub mod Stored
pub mod Bytes
use dbsc_python.Base.{Bool, true, false, not, ◌&&◌, ◌||◌, Option, none, some, if◌then◌else◌}
use dbsc_python.Base.Int.{ℤ}
use dbsc_python.Base.Text.{Text, text_eq}

-- A float is kept as it is written, since the code only tells it from an integer.
mutual
  pub data Json : Type 0 where
    null : Json
    bool : Bool → Json
    int : ℤ → Json
    float : Text → Json
    str : Text → Json
    arr : Items → Json
    obj : Fields → Json

  pub data Items : Type 0 where
    nil : Items
    cons : Json → Items → Items

  pub data Fields : Type 0 where
    end : Fields
    field : Text → Json → Fields → Fields

-- data.get(name)
unfoldable pub get : Text → Fields → Option Json
get name end = none
get name (field k v rest) = if text_eq k name then some v else get name rest

-- as_str(data.get(name))
unfoldable pub as_str : Option Json → Option Text
as_str (some (str s)) = some s
as_str _ = none

-- as_int(data.get(name)); a Boolean is a value of its own here, so no test excludes it.
unfoldable pub as_int : Option Json → Option ℤ
as_int (some (int n)) = some n
as_int _ = none

unfoldable pub has_member : Text → Fields → Bool
has_member name end = false
has_member name (field k v rest) = text_eq k name || has_member name rest

-- No two members have one name.
unfoldable pub is_unique : Fields → Bool
unfolding has_member
is_unique end = true
is_unique (field k v rest) = not (has_member k rest) && is_unique rest
