-- ===== src/Regex/Derivative.antt =====
-- An executable `fullmatch`, one character at a time.
use dbsc_python.Base.{ℕ, Bool, true, false, ◌&&◌, ◌||◌, [], ◌∷◌, if◌then◌else◌}
use dbsc_python.Base.Text.{Text}
use dbsc_python.Regex.{Regex, never, empty, one, sequence, either, many}

-- Does the pattern match the empty text?
unfoldable pub nullable : Regex → Bool
nullable never = false
nullable empty = true
nullable (one p) = false
nullable (sequence r q) = nullable r && nullable q
nullable (either r q) = nullable r || nullable q
nullable (many r) = true

-- A pattern that describes what `r` leaves to match after the character `c`.
unfoldable pub derivative : ℕ → Regex → Regex
unfolding nullable
derivative c never = never
derivative c empty = never
derivative c (one p) = if p c then empty else never
derivative c (sequence r q) =
    either (sequence (derivative c r) q) (if nullable r then derivative c q else never)
derivative c (either r q) = either (derivative c r) (derivative c q)
derivative c (many r) = sequence (derivative c r) (many r)

unfoldable pub fullmatch : Regex → Text → Bool
unfolding nullable derivative
fullmatch r [] = nullable r
fullmatch r (c ∷ s) = fullmatch (derivative c r) s
