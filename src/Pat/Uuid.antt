-- ===== src/Pat/Uuid.antt =====
-- Python's `uuid.UUID`, as src/cimd_proxy/pat.py uses it: a random one, its text, and its parser.
use Prim.Native.String.{count}
use cimd_proxy.Prelude.{
  ℕ, zero, suc, ◌+◌, ◌-◌, ◌*◌, ◌/◌, ◌%◌, ◌^◌, String, ◌<>◌, Bool, true, false, ◌&&◌, ◌||◌, Option,
  none, some, ◌≡◌, refl, Char, code, if◌then◌else◌, eqb, leb, is_char, is_digit, lstrip, rstrip,
  strip, remove_chars, starts_with,
}
use cimd_proxy.Assertion.{hex}
use cimd_proxy.Pat.Format.{drop_chars}
use cimd_proxy.Pat.Record.{Uuid}

-- `uuid.uuid4()`, of a random number of 128 bits: version 4, variant 10.
unfoldable pub uuid4_number : ℕ → Uuid
uuid4_number n =
    n / 2 ^ 80 % 2 ^ 48 * 2 ^ 80 + 4 * 2 ^ 76 + n / 2 ^ 64 % 2 ^ 12 * 2 ^ 64 + 2 ^ 63 + n % 2 ^ 62

-- `str(uuid)`
unfoldable pub uuid_text : Uuid → String
unfolding hex
uuid_text u =
    hex 8 (u / 2 ^ 96) ""
    <> "-"
    <> hex 4 (u / 2 ^ 80) ""
    <> "-"
    <> hex 4 (u / 2 ^ 64) ""
    <> "-"
    <> hex 4 (u / 2 ^ 48) ""
    <> "-"
    <> hex 12 u ""

-- `text.replace(word, "")`. The fuel is the length of the text.
cut : ℕ → String → String → String
cut zero word s = s
cut (suc fuel) word String.[] = ""
cut (suc fuel) word (String.◌∷◌ c s) =
    let behind = cut fuel word (drop_chars (count word) (String.◌∷◌ c s)) in
    let kept = String.◌∷◌ c (cut fuel word s) in
    if starts_with (String.◌∷◌ c s) word then behind else kept

hex_value : Char → Option ℕ
hex_value c =
    if is_digit c
    then some (code c - b'0')
    else if leb b'a' (code c) && leb (code c) b'f'
    then some (code c - b'a' + 10)
    else if leb b'A' (code c) && leb (code c) b'F'
    then some (code c - b'A' + 10)
    else none

-- The digits of `int(text, 16)`, with single underscores between them. The flag says that an
-- underscore may stand here.
hex_digits : Bool → Bool → ℕ → String → Option ℕ
hex_digits seen gap acc String.[] = if seen then some acc else none
hex_digits seen gap acc (String.◌∷◌ c s) =
    let with_digit = λ (d : ℕ). hex_digits true true (acc * 16 + d) s in
    let behind_gap = hex_digits false false acc s in
    elim (hex_value c) [
      | some d ↦ with_digit d
      | none ↦ if is_char b'_' c && gap then behind_gap else none
    ]

-- Behind the sign, a prefix 0x may stand, and an underscore behind it.
unsigned : String → Option ℕ
unfolding hex_digits hex_value
unsigned s =
    if starts_with s "0x" || starts_with s "0X"
    then hex_digits false true 0 (drop_chars 2 s)
    else hex_digits false false 0 s

-- `int(text, 16)` where it is not negative.
parse_hex : String → Option ℕ
unfolding unsigned strip
parse_hex s = signed (strip s)
  where
    minus_zero : Option ℕ → Option ℕ
    minus_zero (some zero) = some zero
    minus_zero _ = none

    signed : String → Option ℕ
    signed String.[] = none
    signed (String.◌∷◌ c t) =
        if is_char b'-' c
        then minus_zero (unsigned t)
        else if is_char b'+' c
        then unsigned t
        else unsigned (String.◌∷◌ c t)

is_brace : Char → Bool
is_brace c = is_char b'{' c || is_char b'}' c

-- `uuid.UUID(text)`; `none` is the `ValueError`. Only ASCII digits are read.
unfoldable pub parse_uuid : String → Option Uuid
unfolding cut parse_hex is_brace lstrip rstrip remove_chars drop_chars
parse_uuid text =
    let no_urn = cut (count text) "urn:" text in
    let bare = cut (count no_urn) "uuid:" no_urn in
    let digits = remove_chars (is_char b'-') (rstrip is_brace (lstrip is_brace bare)) in
    if eqb (count digits) 32 then parse_hex digits else none

read_back :
    (parse_uuid (uuid_text (uuid4_number 12345678901234567890))
      ≡ some (uuid4_number 12345678901234567890))
    × (uuid_text (uuid4_number 5) ≡ "00000000-0000-4000-8000-000000000005")
    × (parse_uuid "urn:uuid:{00000000-0000-4000-8000-0000000000FF}" ≡ some (uuid4_number 255))
    × (parse_uuid "7" ≡ none)
unfolding parse_uuid uuid_text uuid4_number
read_back = (refl, refl, refl, refl)
