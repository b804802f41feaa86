-- ===== src/Authorize.antt =====
-- src/cimd_proxy/authorize.py. A handler's exceptions other than `OAuthError` stay values of
-- `Result`: the server answers 500 to them. Log lines are not modelled.
mod Request
pub mod Admitted
pub mod Upstream
pub mod Refused
use cimd_proxy.Prelude.{
  ℕ, ◌+◌, String, ◌<>◌, Bool, true, false, not, Option, none, some, List, [], ◌∷◌, ◌==◌,
  starts_with, if◌then◌else◌, is_truthy, or_else, found_is, repr, repr_option, repr_list,
}
use cimd_proxy.Errors
use cimd_proxy.Errors.{
  OAuthError, Result, ok, err, Exception, oauth, invalid_request, invalid_target, invalid_client,
  fetch_error, ssrf_refused, document_invalid, envelope_error, type_error,
}
use cimd_proxy.Effects.{Prog, ret, throw, ◌>>=◌, lift, attempt, time}
use cimd_proxy.Platform.{Platform}
use cimd_proxy.Config.{ProxyConfig, ResourceEntry, resource_by_url, known_resources}
use cimd_proxy.Pkce.{make_verifier, derive_challenge}
use cimd_proxy.Envelope.{AuthorizeEnvelope, RegistrationEnvelope}
use cimd_proxy.Codec.{EnvelopeCodec, pack_authorize, open_registration}
use cimd_proxy.Fetcher.{CimdDocument, Zones}
use cimd_proxy.CimdService.{CimdService, Documents, obtain}
use cimd_proxy.RedirectUri.{uri_matches_registration}
use cimd_proxy.Url.Encode.{urlencode}
use cimd_proxy.Http.{HttpResponse, plain_text, redirect, authorize_url, new_correlation_id}

pub record AuthorizeParams : Type 0 where
  pub response_type : Option String
  pub client_id : Option String
  pub redirect_uri : Option String
  pub code_challenge : Option String
  pub code_challenge_method : Option String
  pub state : Option String
  pub resource : Option String
  pub scope : Option String

pub record Validated : Type 0 where
  pub client_id : String
  pub redirect_uri : String
  pub code_challenge : String
  pub state : String
  pub scope : String
  pub resource_entry : ResourceEntry
  pub document : Option CimdDocument
  pub via : String

abbrev pub refuse {ℓ} : {A : Type ℓ} → OAuthError → Result A
refuse e = err (oauth e)

-- `if value is None: raise InvalidRequest(message)`
unfoldable pub present : String → Option String → Result String
present message none = refuse (invalid_request message)
present message (some s) = ok s

-- `_require_present`, which gives the three texts that it has found.
pub record Present : Type 0 where
  pub client_id : String
  pub redirect_uri : String
  pub code_challenge : String

unfoldable pub require_present : AuthorizeParams → Result Present
unfolding present
require_present p = Errors.◌>>=◌ (present "missing response_type" p.response_type) λ response_type.
    if response_type == "code"
    then (Errors.◌>>=◌ (present "missing client_id" p.client_id) λ client_id.
        Errors.◌>>=◌ (present "missing redirect_uri" p.redirect_uri) λ redirect_uri.
          Errors.◌>>=◌ (present "missing code_challenge" p.code_challenge) λ code_challenge.
            ok (record {
              client_id = client_id;
              redirect_uri = redirect_uri;
              code_challenge = code_challenge;
            }))
    else refuse (invalid_request ("unsupported response_type: " <> repr response_type))

unfoldable pub known_target : ProxyConfig → String → Option ResourceEntry → Result ResourceEntry
known_target config chosen (some entry) = ok entry
known_target config chosen none = refuse (
    invalid_target (
      "resource "
      <> repr chosen
      <> " is not a known target; known resources: "
      <> repr_list (known_resources config)))

unfoldable pub pick_resource : ProxyConfig → Option String → Result ResourceEntry
pick_resource config resource =
    let chosen = or_else resource config.default_resource in
    if is_truthy chosen
    then (Errors.◌>>=◌ (resource_by_url config chosen) (known_target config chosen))
    else refuse (
        invalid_target (
          "missing 'resource' parameter and no DEFAULT_RESOURCE is set; known resources: "
          <> repr_list (known_resources config)))

-- What `_validate` decides before it looks at the client's registration.
pub record Checked : Type 0 where
  pub present : Present
  pub entry : ResourceEntry

unfoldable pub check_request : ProxyConfig → AuthorizeParams → Result Checked
check_request config p = Errors.◌>>=◌ (require_present p) λ present.
    Errors.◌>>=◌ (pick_resource config p.resource) λ entry.
      if found_is p.code_challenge_method "S256"
      then ok (record { present = present; entry = entry })
      else refuse (
          invalid_request
            ("code_challenge_method must be 'S256', got " <> repr_option p.code_challenge_method))

-- `any(uri_matches_registration(redirect_uri, r) for r in redirect_uris)`
unfoldable pub any_matches : String → List String → Result Bool
any_matches uri [] = ok false
any_matches uri (r ∷ rs) =
    let rest = any_matches uri rs in
    Errors.◌>>=◌ (uri_matches_registration uri r) λ m. if m then ok true else rest

-- The redirect URIs that the client has registered, the document on the CIMD route, and the route.
pub record Registered : Type 0 where
  pub redirect_uris : List String
  pub document : Option CimdDocument
  pub via : String

-- `_load_document` turns the fetcher's three exceptions into `invalid_client`.
unfoldable pub load_document : Result CimdDocument → Result Registered
load_document (ok d) =
    ok (record { redirect_uris = d.redirect_uris; document = some d; via = "cimd" })
load_document (err (ssrf_refused m)) = refuse (invalid_client m)
load_document (err (document_invalid m)) = refuse (invalid_client m)
load_document (err (fetch_error m)) = refuse (invalid_client m)
load_document (err e) = err e

-- `_validate_dcr`
unfoldable pub dcr_registered : Result RegistrationEnvelope → Result Registered
dcr_registered (ok e) =
    ok (record { redirect_uris = e.redirect_uris; document = none; via = "dcr" })
dcr_registered (err (envelope_error m)) =
    refuse (invalid_client "client_id is neither a https URL nor a valid registration envelope")
dcr_registered (err e) = err e

unfoldable pub finish : ProxyConfig → AuthorizeParams → Checked → Registered → Result Validated
finish config p q r = Errors.◌>>=◌ (any_matches q.present.redirect_uri r.redirect_uris) λ matched.
    if matched
    then ok (record {
      client_id = q.present.client_id;
      redirect_uri = q.present.redirect_uri;
      code_challenge = q.present.code_challenge;
      state = or_else p.state "";
      scope = or_else p.scope config.default_scope;
      resource_entry = q.entry;
      document = r.document;
      via = r.via;
    })
    else refuse (
        invalid_request (
          "redirect_uri is not registered "
          <> (if r.via == "cimd" then "in the CIMD document" else "on the DCR registration")))

-- `_render_authorize_error`
unfoldable pub render_authorize_error : OAuthError → HttpResponse
render_authorize_error e =
    plain_text e.status_code
      ("error=" <> e.error <> "\nerror_description=" <> e.description <> "\n")

-- The envelope that travels as the upstream's `state`.
unfoldable pub authorize_envelope : Validated → String → String → ℕ → AuthorizeEnvelope
authorize_envelope v cid upstream_verifier now = record {
  correlation_id = cid;
  client_id = v.client_id;
  redirect_uri = v.redirect_uri;
  state = v.state;
  resource = v.resource_entry.url;
  client_code_challenge = v.code_challenge;
  upstream_verifier = upstream_verifier;
  scope = v.scope;
  exp = now + 600;
}

module _ (P : Platform) (ip_address : String → Option Zones) (config : ProxyConfig)
    (cimd : CimdService) (codec : EnvelopeCodec) where
  unfoldable pub registered : Documents → String → Prog (Result Registered × Documents)
  registered c client_id =
      if starts_with client_id "https://"
      then (do
        answer ← obtain P ip_address cimd c client_id
        ret (load_document answer.0, answer.1))
      else (do
        envelope ← attempt (open_registration P codec client_id)
        ret (dcr_registered envelope, c))

  unfoldable pub validate_checked :
      Documents → AuthorizeParams → Result Checked → Prog (Result Validated × Documents)
  validate_checked c p (err e) = ret (err e, c)
  validate_checked c p (ok q) = do
    found ← registered c q.present.client_id
    ret (Errors.◌>>=◌ found.0 (finish config p q), found.1)

  -- `_validate`
  unfoldable pub validate : Documents → AuthorizeParams → Prog (Result Validated × Documents)
  validate c p = validate_checked c p (check_request config p)

  -- `_build_upstream_url`
  unfoldable pub build_upstream_url : Validated → String → Prog String
  build_upstream_url v cid = do
    upstream_verifier ← make_verifier 64
    upstream_challenge ← lift (derive_challenge P upstream_verifier)
    now ← time
    envelope_str ← pack_authorize P codec (authorize_envelope v cid upstream_verifier now)
    ret (
        authorize_url v.resource_entry.issuer
        <> "?"
        <> urlencode (
            ("response_type", "code")
            ∷ ("client_id", v.resource_entry.client_id)
            ∷ ("redirect_uri", config.public_url <> "/callback")
            ∷ ("code_challenge", upstream_challenge)
            ∷ ("code_challenge_method", "S256")
            ∷ ("state", envelope_str)
            ∷ ("scope", v.scope)
            ∷ []))

  unfoldable pub answer :
      String → Result Validated × Documents → Prog (Result HttpResponse × Documents)
  answer cid (ok v, c) = do target ← build_upstream_url v cid; ret (ok (redirect target), c)
  answer cid (err (oauth e), c) = ret (ok (render_authorize_error e), c)
  answer cid (err e, c) = ret (err e, c)

  -- The endpoint.
  unfoldable pub authorize : Documents → AuthorizeParams → Prog (Result HttpResponse × Documents)
  authorize c p = do cid ← new_correlation_id; validated ← validate c p; answer cid validated
