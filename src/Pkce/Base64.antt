-- ===== src/Pkce/Base64.antt =====
-- `base64.urlsafe_b64encode(…).rstrip(b"=")`, `secrets.token_urlsafe` over a random number, and a
-- text's first characters.
use Prim.Native.String.{char_at}
use cimd_proxy.Prelude.{ℕ, zero, suc, ◌+◌, ◌*◌, ◌/◌, ◌%◌, String, List, [], ◌∷◌, ◌++◌, ◌≡◌, refl}

digit : ℕ → String → String
digit n s =
    String.◌∷◌ (char_at "ABCDEFGHIJKLMNOPQRSTUVWXYZabcdefghijklmnopqrstuvwxyz0123456789-_" n) s

unfoldable pub base64url : List ℕ → String
unfolding digit
base64url [] = ""
base64url (a ∷ []) = digit (a / 4) (digit (a % 4 * 16) "")
base64url (a ∷ b ∷ []) = digit (a / 4) (digit (a % 4 * 16 + b / 16) (digit (b % 16 * 4) ""))
base64url (a ∷ b ∷ c ∷ rest) =
    digit (a / 4)
      (digit (a % 4 * 16 + b / 16) (digit (b % 16 * 4 + c / 64) (digit (c % 64) (base64url rest))))

-- The bytes of a number, the most significant first.
unfoldable pub bytes_of : ℕ → ℕ → List ℕ
bytes_of n zero = []
bytes_of n (suc width) = bytes_of (n / 256) width ++ (n % 256) ∷ []

-- `secrets.token_urlsafe(nbytes)`
unfoldable pub token_urlsafe : ℕ → ℕ → String
unfolding base64url bytes_of
token_urlsafe noise nbytes = base64url (bytes_of noise nbytes)

-- `text[:n]`
unfoldable pub take_chars : ℕ → String → String
take_chars zero s = ""
take_chars (suc n) String.[] = ""
take_chars (suc n) (String.◌∷◌ c s) = String.◌∷◌ c (take_chars n s)

encoded : base64url (251 ∷ 255 ∷ 0 ∷ 77 ∷ []) ≡ "-_8ATQ"
unfolding base64url
encoded = refl
