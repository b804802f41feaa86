-- ===== src/Platform.antt =====
-- What the program takes from code outside the repository, as functions: Fernet and RSA signing
-- (the `cryptography` package), SHA-256 (OpenSSL through `hashlib`), the text form of JSON, and
-- the values of a form (httpx). The laws that the properties rely on are in the record `IsLawful` and
-- the predicate `ReadsBack`.
use cimd_proxy.Prelude.{
  ℕ, ◌+◌, ◌≤◌, ◌<◌, String, ◌≡◌, true, Option, none, some, List, code, Char, Bool, leb, all_chars,
  [], ◌∷◌,
}
use cimd_proxy.Json.{Json, str}

-- The numbers of an `rsa.RSAPrivateKey`.
pub record RsaPrivateKey : Type 0 where
  pub modulus : ℕ
  pub public_exponent : ℕ
  pub private_exponent : ℕ

pub record Platform : Type 0 where
  -- `Fernet(key).encrypt(blob)` at a time and with an initialisation vector.
  pub encrypt : (key : String) (time iv : ℕ) (blob : String) → String
  -- `Fernet(key).decrypt(token, ttl=ttl)` at a time; `none` is `InvalidToken`.
  pub decrypt : (key : String) (ttl : Option ℕ) (now : ℕ) (token : String) → Option String
  -- `json.dumps` and `json.loads`; `none` is a `JSONDecodeError` or a `UnicodeDecodeError`.
  pub dumps : Json → String
  pub loads : String → Option Json
  -- The texts that httpx writes into a form for a value: a list is written as several.
  pub form_values : Json → List String
  -- `hashlib.sha256(text.encode("ascii")).digest()`
  pub sha256 : String → List ℕ
  -- `key.sign(text, PKCS1v15(), SHA256())`
  pub rsa_sign : RsaPrivateKey → String → List ℕ

abbrev pub is_ascii_char : Char → Bool
is_ascii_char c = leb (code c) 127

-- A text is written into a form as itself. Fernet is as its specification has it: a token opens under its key, with a time to live up to and
-- with its last second and not after it; a token is ASCII; and so is a JSON text, in which `dumps`
-- escapes every other character.
pub record IsLawful (P : Platform) : Type 0 where
  pub form_values-str : (text : String) → P.form_values (str text) ≡ text ∷ []
  pub decrypt-encrypt :
      (key : String) (time iv now : ℕ) (blob : String)
      → P.decrypt key none now (P.encrypt key time iv blob) ≡ some blob
  pub decrypt-encrypt_live :
      (key : String) (time iv ttl now : ℕ) (blob : String)
      → time ≤ now
      → now ≤ time + ttl
      → P.decrypt key (some ttl) now (P.encrypt key time iv blob) ≡ some blob
  pub decrypt-encrypt_stale :
      (key : String) (time iv ttl now : ℕ) (blob : String)
      → time + ttl < now
      → P.decrypt key (some ttl) now (P.encrypt key time iv blob) ≡ none
  pub encrypt_ascii :
      (key : String) (time iv : ℕ) (blob : String)
      → all_chars is_ascii_char blob ≡ true
      → all_chars is_ascii_char (P.encrypt key time iv blob) ≡ true
  pub dumps_ascii : (v : Json) → all_chars is_ascii_char (P.dumps v) ≡ true

-- `json.loads(json.dumps(value)) == value`, which holds of every object whose keys are distinct.
abbrev pub ReadsBack : Platform → Json → Type 0
ReadsBack P v = P.loads (P.dumps v) ≡ some v
