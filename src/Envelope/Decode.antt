-- ===== src/Envelope/Decode.antt =====
-- src/cimd_proxy/envelope.py: an envelope's fields from an opened payload.
use cimd_proxy.Prelude.{
  ℕ, String, ◌<>◌, Option, none, some, List, [], ◌∷◌, ◌≡◌, refl, if◌then◌else◌, all, contains, repr,
}
use cimd_proxy.Prelude.Dict.{Dict, lookup}
use cimd_proxy.Prelude.Int.{pos}
use cimd_proxy.Json.{Json, int, str, arr, all_strings, all_strings-strings}
use cimd_proxy.Errors.{Result, ok, err, type_error, ◌>>=◌, ◌>>◌}
use cimd_proxy.Envelope.{
  AuthorizeEnvelope, CodeEnvelope, RefreshEnvelope, RegistrationEnvelope, authorize, code, refresh,
  registration, payload,
}

-- A dataclass's keyword arguments: a missing or an unknown one is a `TypeError`. A value of another
-- type than the field's is refused in the same way; no sealed payload holds one, but for the upstream's
-- refresh token, which may be any value.
missing : {A : Type 0} → String → Result A
missing k = err (type_error ("unexpected or missing argument " <> repr k))

as_text : String → Option Json → Result String
unfolding missing
as_text k (some (str s)) = ok s
as_text k _ = missing k

as_value : String → Option Json → Result Json
unfolding missing
as_value k (some v) = ok v
as_value k none = missing k

as_number : String → Option Json → Result ℕ
unfolding missing
as_number k (some (int (pos n))) = ok n
as_number k _ = missing k

-- `client_name` has the default `""`.
as_text_or_empty : String → Option Json → Result String
unfolding missing
as_text_or_empty k none = ok ""
as_text_or_empty k (some (str s)) = ok s
as_text_or_empty k (some _) = missing k

some_or_missing : String → Option (List String) → Result (List String)
unfolding missing
some_or_missing k (some ss) = ok ss
some_or_missing k none = missing k

-- `tuple(clean["redirect_uris"])`
as_texts : String → Option Json → Result (List String)
unfolding missing some_or_missing
as_texts k (some (arr vs)) = some_or_missing k (all_strings vs)
as_texts k _ = missing k

only_keys : List String → Dict Json → Result (Unit {0})
unfolding missing
only_keys known d = if all (λ (k, _). contains known k) d then ok tt else missing "of another class"

abbrev authorize_keys : List String
authorize_keys =
    "correlation_id" ∷ "client_id" ∷ "redirect_uri" ∷ "state" ∷ "resource" ∷ "client_code_challenge"
    ∷ "upstream_verifier" ∷ "scope" ∷ "exp" ∷ "tag" ∷ []

unfoldable pub decode_authorize : Dict Json → Result AuthorizeEnvelope
unfolding only_keys as_text as_number lookup
decode_authorize d = do
  only_keys authorize_keys d
  correlation_id ← as_text "correlation_id" (lookup "correlation_id" d)
  client_id ← as_text "client_id" (lookup "client_id" d)
  redirect_uri ← as_text "redirect_uri" (lookup "redirect_uri" d)
  state ← as_text "state" (lookup "state" d)
  resource ← as_text "resource" (lookup "resource" d)
  challenge ← as_text "client_code_challenge" (lookup "client_code_challenge" d)
  verifier ← as_text "upstream_verifier" (lookup "upstream_verifier" d)
  scope ← as_text "scope" (lookup "scope" d)
  exp ← as_number "exp" (lookup "exp" d)
  ok (record {
    correlation_id = correlation_id;
    client_id = client_id;
    redirect_uri = redirect_uri;
    state = state;
    resource = resource;
    client_code_challenge = challenge;
    upstream_verifier = verifier;
    scope = scope;
    exp = exp;
  })

abbrev code_keys : List String
code_keys =
    "correlation_id" ∷ "upstream_code" ∷ "upstream_verifier" ∷ "resource" ∷ "client_id"
    ∷ "client_code_challenge" ∷ "redirect_uri" ∷ "exp" ∷ "tag" ∷ []

unfoldable pub decode_code : Dict Json → Result CodeEnvelope
unfolding only_keys as_text as_number lookup
decode_code d = do
  only_keys code_keys d
  correlation_id ← as_text "correlation_id" (lookup "correlation_id" d)
  upstream_code ← as_text "upstream_code" (lookup "upstream_code" d)
  verifier ← as_text "upstream_verifier" (lookup "upstream_verifier" d)
  resource ← as_text "resource" (lookup "resource" d)
  client_id ← as_text "client_id" (lookup "client_id" d)
  challenge ← as_text "client_code_challenge" (lookup "client_code_challenge" d)
  redirect_uri ← as_text "redirect_uri" (lookup "redirect_uri" d)
  exp ← as_number "exp" (lookup "exp" d)
  ok (record {
    correlation_id = correlation_id;
    upstream_code = upstream_code;
    upstream_verifier = verifier;
    resource = resource;
    client_id = client_id;
    client_code_challenge = challenge;
    redirect_uri = redirect_uri;
    exp = exp;
  })

abbrev refresh_keys : List String
refresh_keys = "resource" ∷ "upstream_refresh_token" ∷ "tag" ∷ []

unfoldable pub decode_refresh : Dict Json → Result RefreshEnvelope
unfolding only_keys as_text as_value lookup
decode_refresh d = do
  only_keys refresh_keys d
  resource ← as_text "resource" (lookup "resource" d)
  token ← as_value "upstream_refresh_token" (lookup "upstream_refresh_token" d)
  ok (record { resource = resource; upstream_refresh_token = token })

abbrev registration_keys : List String
registration_keys =
    "redirect_uris" ∷ "token_endpoint_auth_method" ∷ "client_id_issued_at" ∷ "client_name" ∷ "tag"
    ∷ []

unfoldable pub decode_registration : Dict Json → Result RegistrationEnvelope
unfolding only_keys as_texts as_text as_number as_text_or_empty lookup
decode_registration d = do
  only_keys registration_keys d
  uris ← as_texts "redirect_uris" (lookup "redirect_uris" d)
  method ← as_text "token_endpoint_auth_method" (lookup "token_endpoint_auth_method" d)
  issued_at ← as_number "client_id_issued_at" (lookup "client_id_issued_at" d)
  name ← as_text_or_empty "client_name" (lookup "client_name" d)
  ok (record {
    redirect_uris = uris;
    token_endpoint_auth_method = method;
    client_id_issued_at = issued_at;
    client_name = name;
  })

pub decode_authorize-payload :
    (e : AuthorizeEnvelope) → decode_authorize (payload (authorize e)) ≡ ok e
unfolding decode_authorize payload
decode_authorize-payload e = refl

pub decode_code-payload : (e : CodeEnvelope) → decode_code (payload (code e)) ≡ ok e
unfolding decode_code payload
decode_code-payload e = refl

pub decode_refresh-payload : (e : RefreshEnvelope) → decode_refresh (payload (refresh e)) ≡ ok e
unfolding decode_refresh payload
decode_refresh-payload e = refl

pub decode_registration-payload :
    (e : RegistrationEnvelope) → decode_registration (payload (registration e)) ≡ ok e
unfolding decode_registration payload
decode_registration-payload e = rw all_strings-strings
