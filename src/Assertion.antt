-- ===== src/Assertion.antt =====
-- src/cimd_proxy/assertion.py
mod Bytes
use cimd_proxy.Prelude.{
  ℕ, zero, suc, ◌+◌, ◌/◌, ◌%◌, ◌^◌, String, ◌<>◌, List, [], ◌∷◌, ◌==◌, if◌then◌else◌, code, eqb,
  map,
}
use Prim.Native.String.{char_at}
use cimd_proxy.Prelude.Int.{pos}
use cimd_proxy.Json.{Json, str, int, arr, to_items, object}
use cimd_proxy.Errors.{Result, ok, err, value_error}
use cimd_proxy.Effects.{Prog, ret, ◌>>=◌, lift, time, entropy}
use cimd_proxy.Platform.{Platform, RsaPrivateKey}
use cimd_proxy.Pkce.{base64url}

pub record SigningKey : Type 0 where
  pub kid : String
  pub private_key : RsaPrivateKey

pub record AssertionSigner : Type 0 where
  pub issuer : String
  pub keys : List SigningKey
  pub active_kid : String

-- The bytes of a number without leading zeros, in front of others. The number has fewer bytes than
-- the fuel `n + 1`.
unfoldable pub bytes_before : ℕ → ℕ → List ℕ → List ℕ
bytes_before zero n tail = tail
bytes_before (suc fuel) n tail =
    let more = bytes_before fuel (n / 256) (n % 256 ∷ tail) in if eqb n 0 then tail else more

-- `n.to_bytes((n.bit_length() + 7) // 8, "big")`
unfoldable pub to_bytes : ℕ → List ℕ
unfolding bytes_before
to_bytes n = bytes_before (suc n) n []

unfoldable pub public_jwk : SigningKey → Json
unfolding base64url to_bytes
public_jwk key = object (
    ("kty", str "RSA")
    ∷ ("use", str "sig")
    ∷ ("alg", str "RS256")
    ∷ ("kid", str key.kid)
    ∷ ("n", str (base64url (to_bytes key.private_key.modulus)))
    ∷ ("e", str (base64url (to_bytes key.private_key.public_exponent)))
    ∷ [])

unfoldable pub jwks : AssertionSigner → Json
unfolding public_jwk
jwks signer = object (("keys", arr (to_items (map public_jwk signer.keys))) ∷ [])

-- `next(k for k in self.keys if k.kid == self.active_kid)`
unfoldable pub key_with_kid : String → List SigningKey → Result SigningKey
key_with_kid kid [] = err (value_error "no active signing key")
key_with_kid kid (k ∷ keys) =
    let rest = key_with_kid kid keys in if k.kid == kid then ok k else rest

-- The digits of a number to the base 16, as many as asked for.
unfoldable pub hex : ℕ → ℕ → String → String
hex zero n tail = tail
hex (suc width) n tail = hex width (n / 16) (String.◌∷◌ (char_at "0123456789abcdef" (n % 16)) tail)

-- `str(uuid.uuid4())`, of a random number: version 4, variant 10.
unfoldable pub uuid4 : ℕ → String
unfolding hex
uuid4 n =
    hex 8 (n / 2 ^ 96) ""
    <> "-"
    <> hex 4 (n / 2 ^ 80) ""
    <> "-4"
    <> hex 3 (n / 2 ^ 64) ""
    <> "-"
    <> hex 1 (8 + n / 2 ^ 62 % 4) ""
    <> hex 3 (n / 2 ^ 48) ""
    <> "-"
    <> hex 12 n ""

-- The characters of an ASCII text as bytes.
unfoldable pub ascii_bytes : String → List ℕ
ascii_bytes String.[] = []
ascii_bytes (String.◌∷◌ c s) = code c ∷ ascii_bytes s

-- `sign`, with the lifetime of 60 seconds that every caller leaves to the default.
module _ (P : Platform) where
  abbrev pub claims : AssertionSigner → (subject audience : String) → ℕ → ℕ → Json
  unfolding uuid4
  claims signer subject audience now noise = object (
      ("iss", str signer.issuer)
      ∷ ("sub", str subject)
      ∷ ("aud", str audience)
      ∷ ("iat", int (pos now))
      ∷ ("exp", int (pos (now + 60)))
      ∷ ("jti", str (uuid4 noise))
      ∷ [])

  unfoldable pub signing_input : Json → Json → String
  unfolding ascii_bytes base64url
  signing_input header body =
      base64url (ascii_bytes (P.dumps header)) <> "." <> base64url (ascii_bytes (P.dumps body))

  unfoldable pub sign : AssertionSigner → (subject audience : String) → Prog String
  unfolding key_with_kid claims
  sign signer subject audience = do
    key ← lift (key_with_kid signer.active_kid signer.keys)
    now ← time
    noise ← entropy
    let header = object (("alg", str "RS256") ∷ ("typ", str "JWT") ∷ ("kid", str key.kid) ∷ [])
    let input = signing_input header (claims signer subject audience now noise)
    ret (input <> "." <> base64url (P.rsa_sign key.private_key input))
