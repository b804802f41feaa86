-- ===== src/Url/Encode.antt =====
-- `urllib.parse.urlencode` of a dict of texts: `quote_plus` of each key and value, in UTF-8.
use Prim.Native.String.{char_at}
use cimd_proxy.Prelude.{
  ℕ, ◌+◌, ◌/◌, ◌%◌, String, ◌<>◌, Char, code, Bool, ◌||◌, List, [], ◌∷◌, ◌≡◌, refl, leb,
  if◌then◌else◌, is_char, is_digit, is_upper, is_lower, join,
}
use cimd_proxy.Prelude.Dict.{Dict}

-- The bytes of a code point.
utf8 : ℕ → List ℕ
utf8 n =
    if leb n 127
    then n ∷ []
    else if leb n 2047
    then (192 + n / 64) ∷ (128 + n % 64) ∷ []
    else if leb n 65535
    then (224 + n / 4096) ∷ (128 + n / 64 % 64) ∷ (128 + n % 64) ∷ []
    else (240 + n / 262144) ∷ (128 + n / 4096 % 64) ∷ (128 + n / 64 % 64) ∷ (128 + n % 64) ∷ []

is_safe : Char → Bool
is_safe c =
    is_upper c
    || is_lower c
    || is_digit c
    || is_char b'_' c
    || is_char b'.' c
    || is_char b'-' c
    || is_char b'~' c

hex : ℕ → String
hex n = String.◌∷◌ (char_at "0123456789ABCDEF" n) ""

escape_bytes : List ℕ → String
unfolding hex
escape_bytes [] = ""
escape_bytes (b ∷ bs) = "%" <> hex (b / 16) <> hex (b % 16) <> escape_bytes bs

unfoldable pub quote_plus : String → String
unfolding utf8 is_safe escape_bytes
quote_plus String.[] = ""
quote_plus (String.◌∷◌ c s) =
    (if is_safe c
      then String.◌∷◌ c ""
      else if is_char 32 c
      then "+"
      else escape_bytes (utf8 (code c)))
    <> quote_plus s

pairs : Dict String → List String
unfolding quote_plus
pairs [] = []
pairs ((k, v) ∷ d) = (quote_plus k <> "=" <> quote_plus v) ∷ pairs d

unfoldable pub urlencode : Dict String → String
unfolding pairs join
urlencode d = join "&" (pairs d)

encoded :
    urlencode (("error", "a b&c") ∷ ("iss", "https://h/é") ∷ [])
    ≡ "error=a+b%26c&iss=https%3A%2F%2Fh%2F%C3%A9"
unfolding urlencode
encoded = refl
