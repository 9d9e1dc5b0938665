-- ===== src/Validate/Patterns.antt =====
-- The patterns of src/dbsc/_validate.py for cookie names, paths, hosts and origins.
use dbsc_python.Base.{ℕ, Bool, false, not, ◌&&◌, ◌||◌, [], ◌∷◌, leb, ◌==◌, all}
use dbsc_python.Base.Text.{Text, codes, text_eq}
use dbsc_python.Regex.{Regex, sequence, either, many, one, optional, upto, literal}
use dbsc_python.Regex.Derivative.{fullmatch}

-- Letters and digits, as in `[A-Za-z0-9]`.
unfoldable pub alphanumeric : ℕ → Bool
alphanumeric c = leb b'0' c && leb c b'9' || leb b'A' c && leb c b'Z' || leb b'a' c && leb c b'z'

abbrev pub is_one_of : Text → ℕ → Bool
is_one_of [] c = false
is_one_of (d ∷ ds) c = d == c || is_one_of ds c

-- A character of a token (RFC 6265 cookie names).
unfoldable pub token_char : ℕ → Bool
unfolding alphanumeric codes
token_char c = alphanumeric c || is_one_of (codes "!#$%&'*+-.^_`|~") c

-- A character of the path of `_PATH`.
unfoldable pub path_char : ℕ → Bool
unfolding alphanumeric codes
path_char c = alphanumeric c || is_one_of (codes "-._~!$&'()*+,;=:@%/") c

unfoldable pub label_char : ℕ → Bool
unfolding alphanumeric
label_char c = alphanumeric c || c == b'-'

unfoldable pub digit : ℕ → Bool
digit c = leb b'0' c && leb c b'9'

-- A character of a bracketed IPv6 address.
unfoldable pub ipv6_char : ℕ → Bool
unfolding digit
ipv6_char c =
    digit c || leb b'A' c && leb c b'F' || leb b'a' c && leb c b'f' || c == b':' || c == b'.'

-- `_COOKIE_NAME`
unfoldable pub cookie_name_pattern : Regex
unfolding token_char codes
cookie_name_pattern =
    sequence (literal (codes "__Host-")) (sequence (one token_char) (many (one token_char)))

-- `_LABEL`
unfoldable pub label : Regex
unfolding alphanumeric label_char
label =
    sequence (one alphanumeric) (optional (sequence (upto 61 (one label_char)) (one alphanumeric)))

-- `_PORT`
unfoldable pub port : Regex
unfolding digit codes
port = optional (sequence (literal (codes ":")) (sequence (one digit) (upto 4 (one digit))))

unfoldable pub labels : Regex
unfolding label codes
labels = sequence label (many (sequence (literal (codes ".")) label))

-- `_HOST_PATTERN`
unfoldable pub host_pattern : Regex
unfolding labels port codes
host_pattern = sequence (optional (literal (codes "*."))) (sequence labels port)

-- `_ORIGIN`
unfoldable pub origin : Regex
unfolding labels port ipv6_char codes
origin =
    either
      (sequence (literal (codes "https://")) (
        sequence
          (either labels (
            sequence (literal (codes "["))
              (sequence (one ipv6_char) (sequence (many (one ipv6_char)) (literal (codes "]"))))))
          port))
      (sequence (literal (codes "http://")) (
        sequence
          (either (literal (codes "localhost"))
            (either (literal (codes "127.0.0.1")) (literal (codes "[::1]"))))
          port))

unfoldable pub is_cookie_name : Text → Bool
unfolding fullmatch cookie_name_pattern
is_cookie_name value = fullmatch cookie_name_pattern value

abbrev pub starts_with_slash : Text → Bool
starts_with_slash [] = false
starts_with_slash (c ∷ s) = c == b'/'

-- `_PATH`, whose `(?!/)` looks at the character after the first.
unfoldable pub is_path : Text → Bool
unfolding path_char
is_path [] = false
is_path (c ∷ rest) = c == b'/' && not (starts_with_slash rest) && all path_char rest

unfoldable pub is_host_pattern : Text → Bool
unfolding fullmatch host_pattern
is_host_pattern value = fullmatch host_pattern value

unfoldable pub is_origin : Text → Bool
unfolding fullmatch origin
is_origin value = fullmatch origin value

-- `SAME_SITE_VALUES`
unfoldable pub is_same_site : Text → Bool
unfolding codes text_eq
is_same_site s = text_eq s (codes "Lax") || text_eq s (codes "Strict") || text_eq s (codes "None")
