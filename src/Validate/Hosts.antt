-- ===== src/Validate/Hosts.antt =====
-- `host_patterns` of src/dbsc/_validate.py, with `str.strip`.
use dbsc_python.Base.{ℕ, Bool, ◌||◌, ◌&&◌, List, [], ◌∷◌, ◌++◌, leb, ◌==◌, if◌then◌else◌}
use dbsc_python.Base.Text.{Text, codes, is_empty}
use dbsc_python.Exceptions.{Result, ok, ◌>>◌}
use dbsc_python.Validate.{require}
use dbsc_python.Validate.Patterns.{is_host_pattern}

-- `str.isspace` of one character
unfoldable pub is_space : ℕ → Bool
is_space c =
    leb 9 c && leb c 13
    || leb 28 c && leb c 32
    || c == 133
    || c == 160
    || c == 5760
    || leb 8192 c && leb c 8202
    || c == 8232
    || c == 8233
    || c == 8239
    || c == 8287
    || c == 12288

unfoldable pub lstrip : Text → Text
unfolding is_space
lstrip [] = []
lstrip (c ∷ s) = if is_space c then lstrip s else c ∷ s

-- A space at the end goes if nothing but spaces follows it.
unfoldable pub rstrip : Text → Text
unfolding is_space
rstrip [] = []
rstrip (c ∷ s) = let rest = rstrip s in if is_space c && is_empty rest then [] else c ∷ rest

unfoldable pub strip : Text → Text
unfolding lstrip rstrip
strip s = rstrip (lstrip s)

unfoldable pub trimmed : List Text → List Text
unfolding strip
trimmed [] = []
trimmed (value ∷ values) =
    if is_empty (strip value) then trimmed values else strip value ∷ trimmed values

-- `repr` prints the text in the message.
module _ (repr : Text → Text) where
  unfoldable pub check_hosts : List Text → Text → Result (Unit {0})
  unfolding is_host_pattern require
  check_hosts [] what = ok tt
  check_hosts (host ∷ hosts) what =
      require (is_host_pattern host)
        (what ++ codes " entries must be host patterns, got " ++ repr host ++ codes ".")
      >> check_hosts hosts what

  unfoldable pub host_patterns : List Text → Text → Result (List Text)
  unfolding trimmed check_hosts
  host_patterns values what = check_hosts (trimmed values) what >> ok (trimmed values)
