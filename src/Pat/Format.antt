-- ===== src/Pat/Format.antt =====
-- src/cimd_proxy/pat_format.py: the string form of a personal access token.
pub mod WellFormed
use Prim.Native.Nat.{bit_xor}
use Prim.Native.Char.{code, Char}
use Prim.Native.String.{char_at, count}
use cimd_proxy.Prelude.{
  ℕ, zero, suc, ◌/◌, ◌%◌, ◌^◌, String, ◌<>◌, ◌≡◌, refl, Bool, false, not, ◌||◌, List, eqb,
  if◌then◌else◌, ◌==◌, starts_with, any_char, all_chars,
}
use cimd_proxy.Errors.{Result, ok, err, value_error, ◌>>=◌}
use cimd_proxy.Effects
use cimd_proxy.Effects.{Prog, ret, throw, lift, entropy}
use cimd_proxy.Pkce.{take_chars}
use cimd_proxy.Platform.{Platform}

abbrev pub prefix : String
prefix = "kmb_pat_"

abbrev pub alphabet : String
alphabet = "0123456789ABCDEFGHIJKLMNOPQRSTUVWXYZabcdefghijklmnopqrstuvwxyz"

-- The loop of `_base62`, which puts the last digit in front of `tail`.
unfoldable pub base62_loop : ℕ → ℕ → String → Result String
base62_loop value zero tail =
    if eqb value 0 then ok tail else err (value_error "value does not fit the requested width")
base62_loop value (suc width) tail =
    base62_loop (value / 62) width (String.◌∷◌ (char_at alphabet (value % 62)) tail)

unfoldable pub base62 : ℕ → ℕ → Result String
unfolding base62_loop
base62 value width = base62_loop value width ""

-- CRC-32 as `zlib.crc32` computes it, bit by bit: polynomial EDB88320 (hexadecimal), reflected.
crc_bit : ℕ → ℕ
crc_bit c = if eqb (c % 2) 1 then bit_xor (c / 2) 3988292384 else c / 2

crc_byte : ℕ → ℕ
unfolding crc_bit
crc_byte c = crc_bit (crc_bit (crc_bit (crc_bit (crc_bit (crc_bit (crc_bit (crc_bit c)))))))

crc_loop : ℕ → String → ℕ
unfolding crc_byte
crc_loop c String.[] = c
crc_loop c (String.◌∷◌ b s) =
    crc_loop (bit_xor (crc_byte (bit_xor (c % 256) (code b) % 256)) (c / 256)) s

unfoldable pub crc32 : String → ℕ
unfolding crc_loop
crc32 s = bit_xor (crc_loop 4294967295 s) 4294967295 % 2 ^ 32

unfoldable pub checksum : String → Result String
unfolding base62 crc32
checksum body = base62 (crc32 body) 6

-- `generate`, of a random number of 256 bits.
unfoldable pub generate_from : ℕ → Result String
unfolding base62 checksum
generate_from noise = do
  random ← base62 (noise % 2 ^ 256) 43
  let body = prefix <> random
  check ← checksum body
  ok (body <> check)

unfoldable pub generate : Prog String
generate = Effects.◌>>=◌ entropy λ noise. lift (generate_from noise)

unfoldable pub drop_chars : ℕ → String → String
drop_chars zero s = s
drop_chars (suc n) String.[] = ""
drop_chars (suc n) (String.◌∷◌ c s) = drop_chars n s

-- `c in _ALPHABET`
abbrev pub in_alphabet : Char → Bool
unfolding any_char
in_alphabet c = any_char (λ d. eqb (code d) (code c)) alphabet

unfoldable pub is_well_formed : String → Result Bool
unfolding checksum take_chars drop_chars in_alphabet all_chars
is_well_formed token =
    if not (eqb (count token) 57) || not (starts_with token prefix)
    then ok false
    else if not (all_chars in_alphabet (drop_chars 8 token))
    then ok false
    else (do check ← checksum (take_chars 51 token); ok (check == drop_chars 51 token))

-- The check value of CRC-32, and a token against its own checksum.
check_value : crc32 "123456789" ≡ 3421780262
unfolding crc32
check_value = refl

-- `token_hash`
abbrev pub token_hash : Platform → String → List ℕ
token_hash P token = P.sha256 token
