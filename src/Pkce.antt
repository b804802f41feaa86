-- ===== src/Pkce.antt =====
-- src/cimd_proxy/pkce.py
mod Base64
unfoldable pub use Base64.{base64url, bytes_of, token_urlsafe, take_chars}
use cimd_proxy.Prelude.{ℕ, String, Bool, true, false, ◌&&◌, ◌==◌, leb, if◌then◌else◌, all_chars}
use cimd_proxy.Errors.{Result, ok, err, value_error, type_error, ◌>>=◌}
use cimd_proxy.Effects
use cimd_proxy.Effects.{Prog, ret, throw, entropy}
use cimd_proxy.Platform.{Platform, is_ascii_char}

unfoldable pub make_verifier : ℕ → Prog String
unfolding token_urlsafe take_chars
make_verifier length =
    if leb 43 length && leb length 128
    then Effects.◌>>=◌ entropy (λ noise. ret (take_chars length (token_urlsafe noise 96)))
    else throw (value_error "PKCE verifier length must be between 43 and 128")

module _ (P : Platform) where
  -- `verifier.encode("ascii")` raises a `UnicodeEncodeError`, which is a `ValueError`.
  unfoldable pub derive_challenge : String → Result String
  unfolding base64url
  derive_challenge verifier =
      if all_chars is_ascii_char verifier
      then ok (base64url (P.sha256 verifier))
      else err (value_error "'ascii' codec can't encode the verifier")

  -- `secrets.compare_digest` refuses texts beyond ASCII with a `TypeError`.
  unfoldable pub verify_challenge : String → String → Result Bool
  verify_challenge verifier challenge = do
    computed ← derive_challenge verifier
    if all_chars is_ascii_char challenge
        then ok (computed == challenge)
        else err (type_error "comparing strings with non-ASCII characters is not supported")
