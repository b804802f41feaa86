-- ===== src/Config/Signer.antt =====
-- The indexed table of signing keys: `_load_signer` of src/cimd_proxy/config.py, with the checks of
-- src/cimd_proxy/assertion.py.
pub mod Rounds
use cimd_proxy.Prelude.{
  ℕ, zero, suc, ◌+◌, ◌-◌, ◌*◌, String, ◌<>◌, Char, code, Bool, true, false, not, ◌&&◌, ◌||◌, Option,
  none, some, List, [], ◌∷◌, ◌==◌, if◌then◌else◌, eqb, leb, ltb, is_truthy, is_some, is_empty, any,
  keep, map, contains, join, lower, strip, rstrip, rstrip_slash, split_words, starts_with,
  partition, is_char, is_digit, length, all_chars, any_char, repr, is_lower, all,
}
use cimd_proxy.Prelude.Sort.{sort}
use cimd_proxy.Prelude.Dict.{Dict, lookup, has_key}
use cimd_proxy.Prelude.Int.{ℤ, pos, negsuc, parse_int}
use cimd_proxy.Errors.{Result, ok, err, config_error, ◌>>=◌, ◌>>◌}
use cimd_proxy.Platform.{RsaPrivateKey}
use cimd_proxy.Assertion.{SigningKey, AssertionSigner}
use cimd_proxy.Config.Env.{
  Env, config_refused, refuse_if, value_or, required, int_of, bool_of, positive, parse_scope_string,
  or_default, upper,
}
use cimd_proxy.Digits.{decimal}
use cimd_proxy.Pat.Format.{drop_chars}

-- What `serialization.load_pem_private_key` makes of a file.
pub data Pem : Type 0 where
  no_key : Pem
  other_key : Pem
  rsa_key : (key_size : ℕ) → RsaPrivateKey → Pem

-- `SigningKey.from_pem`
unfoldable pub from_pem : (kid : String) → Pem → Result SigningKey
from_pem kid no_key =
    config_refused ("signing key " <> repr kid <> " is not an unencrypted PEM private key")
from_pem kid other_key = config_refused ("signing key " <> repr kid <> " is not an RSA key")
from_pem kid (rsa_key key_size key) =
    if ltb key_size 2048
    then config_refused ("signing key " <> repr kid <> " is shorter than 2048 bits")
    else ok (record { kid = kid; private_key = key })

abbrev pub key_prefix : String
key_prefix = "PAT_SIGNING_KEY_"

abbrev pub kid_name : ℕ → String
kid_name index = key_prefix <> (decimal index <> "_KID")

abbrev pub file_name : ℕ → String
file_name index = key_prefix <> (decimal index <> "_FILE")

-- The test of the loop.
unfoldable pub has_index : Env → ℕ → Bool
unfolding lookup
has_index env index = has_key (kid_name index) env || has_key (file_name index) env

-- `AssertionSigner`, whose constructor wants the active key among the keys.
unfoldable pub assertion_signer :
    (issuer : String) (keys : List SigningKey) (active_kid : String) → Result AssertionSigner
assertion_signer issuer keys active_kid =
    if any (λ (k : SigningKey). k.kid == active_kid) keys
    then ok (record { issuer = issuer; keys = keys; active_kid = active_kid })
    else config_refused ("active signing key " <> repr active_kid <> " is not configured")

-- The digits in front of a text, as a number.
unfoldable pub number_until : ℕ → String → ℕ
number_until acc String.[] = acc
number_until acc (String.◌∷◌ c s) =
    let more = number_until (acc * 10 + (code c - b'0')) s in if is_digit c then more else acc

-- A key of the table at an index or behind it.
unfoldable pub is_higher : ℕ → String → Bool
unfolding drop_chars partition all_chars number_until
is_higher index key =
    starts_with key key_prefix
    && (let (digits, found, tail) = partition (is_char b'_') (drop_chars 16 key) in
        found && is_truthy digits && all_chars is_digit digits && leb index (number_until 0 digits))

-- The order of texts by their characters.
text_leb : String → String → Bool
text_leb String.[] t = true
text_leb (String.◌∷◌ c s) String.[] = false
text_leb (String.◌∷◌ c s) (String.◌∷◌ d t) =
    ltb (code c) (code d) || (eqb (code c) (code d) && text_leb s t)

-- `sorted(texts)`
unfoldable pub sorted : List String → List String
unfolding text_leb sort
sorted = sort text_leb

abbrev pub names : Env → List String
names = map (λ ((k, v) : String × String). k)

abbrev pub kids : List SigningKey → List String
kids = map (λ (k : SigningKey). k.kid)

-- `len(set(texts)) == len(texts)`
unfoldable pub all_different : List String → Bool
all_different [] = true
all_different (s ∷ ss) = not (contains ss s) && all_different ss

-- The files are read by a function: `none` is an `OSError`.
module _ (file : String → Option Pem) where
  unfoldable pub read_key : Env → ℕ → Result SigningKey
  unfolding required from_pem
  read_key env index = do
    kid ← required env (kid_name index)
    path ← required env (file_name index)
    read kid (file path)
    where
      read : String → Option Pem → Result SigningKey
      read kid none = config_refused (file_name index <> " cannot be read")
      read kid (some pem) = from_pem kid pem

  -- The loop: the keys, and the index behind the last. `none` says that the fuel ran out.
  unfoldable pub read_keys : (fuel : ℕ) → Env → ℕ → Option (Result (List SigningKey × ℕ))
  unfolding has_index read_key
  read_keys zero env index = none
  read_keys (suc fuel) env index =
      let rest = read_keys fuel env (index + 1) in
      if has_index env index then with_key (read_key env index) rest else some (ok ([], index))
    where
      put : SigningKey → Result (List SigningKey × ℕ) → Result (List SigningKey × ℕ)
      put key (ok (keys, end)) = ok (key ∷ keys, end)
      put key (err e) = err e

      with_key :
          Result SigningKey
          → Option (Result (List SigningKey × ℕ))
          → Option (Result (List SigningKey × ℕ))
      with_key (err e) rest = some (err e)
      with_key (ok key) none = none
      with_key (ok key) (some r) = some (put key r)

  -- The part of `_load_signer` behind its loop.
  unfoldable pub finish_signer :
      Env → (public_url : String) → List SigningKey × ℕ → Result AssertionSigner
  unfolding sorted is_higher all_different value_or strip required assertion_signer
  finish_signer env public_url (keys, end) = do
    let higher = sorted (keep (is_higher end) (names env))
    refuse_if (not (is_empty higher))
        ("PAT_SIGNING_KEY table has a gap at index " <> decimal end <> ": " <> join ", " higher)
    refuse_if (is_empty keys) "PAT_SIGNING_KEY_0_KID and PAT_SIGNING_KEY_0_FILE are required"
    refuse_if (not (all_different (kids keys))) "PAT_SIGNING_KEY_n_KID values must be unique"
    active_kid ← required env "PAT_SIGNING_KID"
    assertion_signer (or_default (strip (value_or "" "PAT_ASSERTION_ISSUER" env)) public_url) keys
        active_kid

  unfoldable pub finished :
      Env
      → (public_url : String) → Option (Result (List SigningKey × ℕ))
      → Option (Result AssertionSigner)
  unfolding finish_signer
  finished env public_url none = none
  finished env public_url (some (err e)) = some (err e)
  finished env public_url (some (ok found)) = some (finish_signer env public_url found)

  -- `_load_signer`; as many rounds as the environment has entries, and one more.
  unfoldable pub load_signer : Env → (public_url : String) → Option (Result AssertionSigner)
  unfolding read_keys finished
  load_signer env public_url = finished env public_url (read_keys (suc (length env)) env 0)
