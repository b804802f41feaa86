-- ===== src/Register.antt =====
-- src/cimd_proxy/register.py. Log lines are not modelled.
pub mod Issued
use cimd_proxy.Prelude.{
  ℕ, String, ◌<>◌, Bool, not, Option, none, some, List, [], ◌∷◌, ◌++◌, ◌==◌, if◌then◌else◌,
  is_truthy, is_some, is_empty, all, contains, repr,
}
use cimd_proxy.Prelude.Dict.{Dict, lookup}
use cimd_proxy.Prelude.Int.{pos}
use cimd_proxy.Json.{Json, str, int, arr, obj, strings, items, fields, object, all_strings, as_str}
use cimd_proxy.Errors.{
  Result, ok, err, Exception, registration_error, redirect_uri_refused, ◌>>=◌, ◌>>◌,
}
use cimd_proxy.Effects
use cimd_proxy.Effects.{Prog, ret, throw, time}
use cimd_proxy.Platform.{Platform}
use cimd_proxy.RedirectUri.{accept_registered}
use cimd_proxy.Envelope.{RegistrationEnvelope}
use cimd_proxy.Codec.{EnvelopeCodec, pack_registration}
use cimd_proxy.Http.{HttpResponse, json_response, texts, new_correlation_id}
use cimd_proxy.Fetcher.{forbidden_methods}

abbrev invalid_metadata {ℓ} : {A : Type ℓ} → String → Result A
invalid_metadata d = err (registration_error "invalid_client_metadata" d 400)

abbrev invalid_uri {ℓ} : {A : Type ℓ} → String → Result A
invalid_uri d = err (registration_error "invalid_redirect_uri" d 400)

-- `_read_json`, on the body as JSON: `none` where it is none.
unfoldable pub read_json : Option Json → Result (Dict Json)
read_json none = invalid_metadata "request body is not valid JSON"
read_json (some (obj fs)) = ok (fields fs)
read_json (some _) = invalid_metadata "request body must be a JSON object"

-- `_reject_disallowed_redirect`; a `ValueError` passes.
unfoldable pub reject_disallowed_redirect : Result (Unit {0}) → Result (Unit {0})
reject_disallowed_redirect (ok _) = ok tt
reject_disallowed_redirect (err (redirect_uri_refused m)) = invalid_uri m
reject_disallowed_redirect (err e) = err e

unfoldable pub check_each : List String → Result (Unit {0})
unfolding reject_disallowed_redirect
check_each [] = ok tt
check_each (uri ∷ uris) = reject_disallowed_redirect (accept_registered uri) >> check_each uris

unfoldable pub non_empty_texts : Option (List String) → Result (List String)
non_empty_texts none = invalid_uri "every redirect_uris entry must be a non-empty string"
non_empty_texts (some uris) =
    if all is_truthy uris
    then ok uris
    else invalid_uri "every redirect_uris entry must be a non-empty string"

unfoldable pub check_uris : Option Json → Result (List String)
unfolding check_each non_empty_texts all_strings
check_uris (some (arr vs)) =
    if is_empty (items vs)
    then invalid_uri "redirect_uris must be a non-empty array"
    else (do uris ← non_empty_texts (all_strings vs); check_each uris; ok uris)
check_uris _ = invalid_uri "redirect_uris must be a non-empty array"

-- `payload.get(key, default)` where a text is wanted.
unfoldable pub text_or : String → String → Option Json → Result String
text_or default message none = ok default
text_or default message (some (str s)) = ok s
text_or default message (some _) = invalid_metadata message

unfoldable pub check_method : String → Result String
check_method method =
    if contains forbidden_methods method
    then invalid_metadata
        ("token_endpoint_auth_method " <> repr method <> " relies on a shared symmetric secret")
    else if method == "none"
    then ok method
    else invalid_metadata (
        "token_endpoint_auth_method "
        <> repr method
        <> " is not supported; only 'none' is permitted")

pub record Accepted : Type 0 where
  pub redirect_uris : List String
  pub auth_method : String
  pub client_name : String

-- `_validate`
unfoldable pub validate : Dict Json → Result Accepted
unfolding lookup check_uris text_or check_method
validate payload =
    if is_some (lookup "client_secret" payload)
    then invalid_metadata
        "client_secret must not be supplied — the proxy issues public clients only"
    else (do
      uris ← check_uris (lookup "redirect_uris" payload)
      given ←
          text_or "none" "token_endpoint_auth_method must be a string"
            (lookup "token_endpoint_auth_method" payload)
      method ← check_method given
      name ← text_or "" "client_name must be a string" (lookup "client_name" payload)
      ok (record { redirect_uris = uris; auth_method = method; client_name = name }))

-- The body of the answer.
unfoldable pub registration_body : Accepted → ℕ → String → Dict Json
registration_body a issued_at client_id =
    ("client_id", str client_id)
    ∷ ("client_id_issued_at", int (pos issued_at))
    ∷ ("redirect_uris", arr (strings a.redirect_uris))
    ∷ ("token_endpoint_auth_method", str a.auth_method)
    ∷ ("grant_types", arr (strings ("authorization_code" ∷ "refresh_token" ∷ [])))
    ∷ ("response_types", arr (strings ("code" ∷ [])))
    ∷ (if is_truthy a.client_name then ("client_name", str a.client_name) ∷ [] else [])

module _ (P : Platform) (codec : EnvelopeCodec) where
  unfoldable pub issue : Accepted → Prog HttpResponse
  unfolding registration_body
  issue a = Effects.◌>>=◌ time λ issued_at.
      Effects.◌>>=◌
        (pack_registration P codec (record {
          redirect_uris = a.redirect_uris;
          token_endpoint_auth_method = a.auth_method;
          client_id_issued_at = issued_at;
          client_name = a.client_name;
        }))
        λ client_id. ret (json_response 201 (object (registration_body a issued_at client_id)) [])

  unfoldable pub answer : Result Accepted → Prog HttpResponse
  answer (ok a) = issue a
  answer (err (registration_error error description status_code)) = ret (
      json_response status_code
        (object (texts (("error", error) ∷ ("error_description", description) ∷ []))) [])
  answer (err e) = throw e

  -- The endpoint, on the body as JSON.
  unfoldable pub register : Option Json → Prog HttpResponse
  register body =
      Effects.◌>>=◌ new_correlation_id λ cid. answer (do payload ← read_json body; validate payload)
