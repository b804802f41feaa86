-- ===== src/Keycloak/Basic.antt =====
-- `httpx.BasicAuth`: the user and the password in base64, as RFC 7617 has it.
use Prim.Native.String.{char_at}
use cimd_proxy.Prelude.{
  ℕ, ◌+◌, ◌*◌, ◌/◌, ◌%◌, String, ◌<>◌, List, [], ◌∷◌, ◌++◌, ◌≡◌, refl, code, ltb, if◌then◌else◌,
}

digit : ℕ → String → String
digit n s =
    String.◌∷◌ (char_at "ABCDEFGHIJKLMNOPQRSTUVWXYZabcdefghijklmnopqrstuvwxyz0123456789+/" n) s

base64 : List ℕ → String
unfolding digit
base64 [] = ""
base64 (a ∷ []) = digit (a / 4) (digit (a % 4 * 16) "==")
base64 (a ∷ b ∷ []) = digit (a / 4) (digit (a % 4 * 16 + b / 16) (digit (b % 16 * 4) "="))
base64 (a ∷ b ∷ c ∷ rest) =
    digit (a / 4)
      (digit (a % 4 * 16 + b / 16) (digit (b % 16 * 4 + c / 64) (digit (c % 64) (base64 rest))))

utf8_char : ℕ → List ℕ
utf8_char n =
    if ltb n 128
    then n ∷ []
    else if ltb n 2048
    then (192 + n / 64) ∷ (128 + n % 64) ∷ []
    else if ltb n 65536
    then (224 + n / 4096) ∷ (128 + n / 64 % 64) ∷ (128 + n % 64) ∷ []
    else (240 + n / 262144) ∷ (128 + n / 4096 % 64) ∷ (128 + n / 64 % 64) ∷ (128 + n % 64) ∷ []

utf8 : String → List ℕ
unfolding utf8_char
utf8 String.[] = []
utf8 (String.◌∷◌ c s) = utf8_char (code c) ++ utf8 s

unfoldable pub basic_auth : (user password : String) → String
unfolding base64 utf8
basic_auth user password = "Basic " <> base64 (utf8 (user <> ":" <> password))

encoded : basic_auth "admin" "pä" ≡ "Basic YWRtaW46cMOk"
unfolding basic_auth
encoded = refl
