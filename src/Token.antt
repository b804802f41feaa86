-- ===== src/Token.antt =====
-- src/cimd_proxy/token.py. Log lines are not modelled. The token exchange of
-- src/cimd_proxy/pat.py is an argument, `none` where personal access tokens are off.
mod Parts
pub mod Redeem
pub mod Renew
pub mod Endpoint
pub mod Finalise
use cimd_proxy.Prelude.{
  ℕ, String, ◌<>◌, Bool, true, false, ◌&&◌, Option, none, some, List, [], ◌∷◌, ◌++◌, ◌==◌,
  if◌then◌else◌, leb, ltb, is_truthy, is_some, or_else, found_is, repr, repr_option, map,
}
use cimd_proxy.Prelude.Dict.{Dict, lookup, insert}
use cimd_proxy.Json.{Json, str, obj, fields, object}
use cimd_proxy.Errors
use cimd_proxy.Errors.{
  OAuthError, Result, ok, err, Exception, oauth, envelope_error, attribute_error, type_error,
  invalid_request, invalid_grant, server_error, unsupported_grant_type,
}
use cimd_proxy.Effects.{
  Prog, ret, throw, send, ◌>>=◌, ◌>>◌, lift, attempt, catch, require, time, Request, Reply, failed,
  answered, Response, form,
}
use cimd_proxy.Platform.{Platform}
use cimd_proxy.Config.{ProxyConfig, ResourceEntry, resource_by_url}
use cimd_proxy.Pkce.{verify_challenge}
use cimd_proxy.Envelope.{CodeEnvelope, RefreshEnvelope}
use cimd_proxy.Codec.{EnvelopeCodec, open_code, open_refresh, pack_payload}
use cimd_proxy.Http.{HttpResponse, json_response, error_response, token_url}

pub record TokenParams : Type 0 where
  pub grant_type : Option String
  pub code : Option String
  pub code_verifier : Option String
  pub redirect_uri : Option String
  pub client_id : Option String
  pub refresh_token : Option String
  pub scope : Option String
  pub subject_token : Option String
  pub subject_token_type : Option String
  pub requested_token_type : Option String
  pub resource : Option String

abbrev pub token_exchange : String
token_exchange = "urn:ietf:params:oauth:grant-type:token-exchange"

abbrev pub fail {ℓ} : {A : Type ℓ} → OAuthError → Prog A
fail e = throw (oauth e)

-- `if value is None: raise InvalidRequest(message)`
unfoldable pub need : String → Option String → Prog String
need message none = fail (invalid_request message)
need message (some s) = ret s

-- `except EnvelopeError as exc: raise InvalidGrant(...)`
unfoldable pub opened {ℓ} : {A : Type ℓ} → (String → String) → Result A → Prog A
opened wording (ok a) = ret a
opened wording (err (envelope_error m)) = fail (invalid_grant (wording m))
opened wording (err e) = throw e

-- `given is not None and given != expected` does not hold.
abbrev pub agrees : Option String → String → Bool
agrees none expected = true
agrees (some s) expected = s == expected

unfoldable pub configured : String → String → Option ResourceEntry → Prog ResourceEntry
configured resource what (some entry) = ret entry
configured resource what none =
    fail
      (server_error ("resource " <> repr resource <> " is no longer configured; refusing " <> what))

-- `if value: form[key] = value`, at the end of the form.
abbrev pub also : String → String → Dict String → Dict String
also key value rest = if is_truthy value then (key, value) ∷ rest else rest

abbrev pub post : String → Dict String → Request
post url fields = record {
  method = "POST";
  url = url;
  headers = ("Accept", "application/json") ∷ [];
  sni_hostname = none;
  body = form fields;
}

unfoldable pub reply_or_error : Reply → Prog Response
reply_or_error (failed m) = fail (server_error ("upstream unreachable: " <> m))
reply_or_error (answered r) = ret r

-- `_post_form`
unfoldable pub post_form : String → Dict String → Prog Response
unfolding reply_or_error
post_form url fields = send (post url fields) reply_or_error

-- `response.json()`, where the code goes on with methods of `dict`.
unfoldable pub payload_of : Option Json → Prog (Dict Json)
payload_of none = fail (server_error "upstream token response is not valid JSON")
payload_of (some (obj fs)) = ret (fields fs)
payload_of (some _) = throw (attribute_error "the payload has no attribute 'get'")

module _ (P : Platform) (codec : EnvelopeCodec) where
  -- The envelope takes whatever value the upstream has given.
  unfoldable pub seal_refresh : String → Dict Json → Option Json → Prog (Dict Json)
  unfolding insert
  seal_refresh resource payload none = ret payload
  seal_refresh resource payload (some upstream_refresh_token) = do
    sealed ← pack_payload P codec (
        ("resource", str resource)
        ∷ ("tag", str "rt")
        ∷ ("upstream_refresh_token", upstream_refresh_token)
        ∷ [])
    ret (insert "refresh_token" (str sealed) payload)

  -- `_finalise_upstream_response`
  unfoldable pub finalise_upstream_response : Response → String → Prog HttpResponse
  unfolding lookup
  finalise_upstream_response response resource = do
    payload ← payload_of response.json
    if leb 400 response.status_code
        then ret (json_response response.status_code (object payload) [])
        else (do
          relayed ← seal_refresh resource payload (lookup "refresh_token" payload)
          ret (json_response 200 (object relayed) []))

  module _ (config : ProxyConfig) where
    abbrev pub code_form : CodeEnvelope → ResourceEntry → Dict String
    code_form e entry =
        ("grant_type", "authorization_code")
        ∷ ("code", e.upstream_code)
        ∷ ("redirect_uri", config.public_url <> "/callback")
        ∷ ("code_verifier", e.upstream_verifier)
        ∷ ("client_id", entry.client_id)
        ∷ also "client_secret" entry.client_secret []

    -- The checks of a code envelope, at a time.
    unfoldable pub check_code :
        CodeEnvelope → ℕ → String → (redirect_uri client_id : Option String) → Prog ResourceEntry
    check_code e now code_verifier redirect_uri client_id = do
      require (ltb now e.exp) (oauth (invalid_grant "code envelope expired"))
      require (agrees redirect_uri e.redirect_uri)
          (oauth (invalid_grant "redirect_uri does not match the redirect_uri from /authorize"))
      require (agrees client_id e.client_id)
          (oauth (invalid_grant "client_id does not match the client_id from /authorize"))
      matches ← lift (verify_challenge P code_verifier e.client_code_challenge)
      require matches (oauth (invalid_grant "PKCE code_verifier does not match code_challenge"))
      found ← lift (resource_by_url config e.resource)
      configured e.resource "token exchange" found

    -- `_handle_auth_code`
    unfoldable pub handle_auth_code :
        (code code_verifier redirect_uri client_id : Option String) → Prog HttpResponse
    handle_auth_code code code_verifier redirect_uri client_id = do
      code' ← need "missing code" code
      verifier ← need "missing code_verifier" code_verifier
      result ← attempt (open_code P codec code')
      e ← opened (λ m. "code envelope invalid or expired: " <> m) result
      now ← time
      entry ← check_code e now verifier redirect_uri client_id
      response ← post_form (token_url entry.issuer) (code_form e entry)
      finalise_upstream_response response entry.url

    abbrev pub refresh_form : RefreshEnvelope → ResourceEntry → Option String → Dict String
    refresh_form e entry scope =
        ("grant_type", "refresh_token")
        ∷ (map (λ (v : String). ("refresh_token", v)) (P.form_values e.upstream_refresh_token)
            ++ (("client_id", entry.client_id)
                ∷ also "client_secret" entry.client_secret (also "scope" (or_else scope "") [])))

    -- `_handle_refresh`
    unfoldable pub handle_refresh : (refresh_token scope : Option String) → Prog HttpResponse
    handle_refresh refresh_token scope = do
      token ← need "missing refresh_token" refresh_token
      result ← attempt (open_refresh P codec token)
      e ← opened (λ m. "refresh_token envelope invalid: " <> m) result
      found ← lift (resource_by_url config e.resource)
      entry ← configured e.resource "refresh" found
      response ← post_form (token_url entry.issuer) (refresh_form e entry scope)
      finalise_upstream_response response entry.url

    -- The two refusals of a grant that is not offered.
    unfoldable pub refuse_grant : Bool → Option String → Prog HttpResponse
    refuse_grant pat grant_type =
        let allowed =
          if pat
          then "'authorization_code', 'refresh_token' or '" <> token_exchange <> "'"
          else "'authorization_code' or 'refresh_token'" in
        if is_truthy (or_else grant_type "")
        then fail (
            unsupported_grant_type
              ("grant_type must be " <> allowed <> ", got " <> repr_option grant_type))
        else fail (invalid_request ("missing grant_type; supported: " <> allowed))

    unfoldable pub exchange_or_refuse :
        Option (TokenParams → Prog (Dict Json)) → TokenParams → Prog HttpResponse
    exchange_or_refuse none p = refuse_grant false p.grant_type
    exchange_or_refuse (some exchange) p =
        if found_is p.grant_type token_exchange
        then (do
          payload ← exchange p
          ret (json_response 200 (object payload) (("Cache-Control", "no-store") ∷ [])))
        else refuse_grant true p.grant_type

    unfoldable pub dispatch :
        Option (TokenParams → Prog (Dict Json)) → TokenParams → Prog HttpResponse
    dispatch exchange p =
        if found_is p.grant_type "authorization_code"
        then handle_auth_code p.code p.code_verifier p.redirect_uri p.client_id
        else if found_is p.grant_type "refresh_token"
        then handle_refresh p.refresh_token p.scope
        else exchange_or_refuse exchange p

    -- `except OAuthError`
    unfoldable pub render : Exception → Prog HttpResponse
    render (oauth e) = ret (error_response e)
    render e = throw e

    -- The endpoint.
    unfoldable pub token : Option (TokenParams → Prog (Dict Json)) → TokenParams → Prog HttpResponse
    token exchange p = catch (dispatch exchange p) render
