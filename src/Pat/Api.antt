-- ===== src/Pat/Api.antt =====
-- src/cimd_proxy/pat_api.py, with `public_view` of src/cimd_proxy/pat_store.py.
pub mod Answers
use cimd_proxy.Prelude.{
  ℕ, String, ◌<>◌, Option, none, some, List, [], ◌∷◌, ◌++◌, map, if◌then◌else◌, eqb,
}
use cimd_proxy.Prelude.Dict.{Dict}
use cimd_proxy.Json.{Json, null, str, arr, to_items, strings, object}
use cimd_proxy.Errors.{Exception, oauth, management_error, OAuthError}
use cimd_proxy.Effects.{Prog, ret, throw, ◌>>=◌, ◌>>◌, lift, catch}
use cimd_proxy.Platform.{Platform}
use cimd_proxy.Config.{ProxyConfig, PatConfig}
use cimd_proxy.Assertion.{jwks}
use cimd_proxy.Keycloak.{KeycloakClient}
use cimd_proxy.Http.{HttpResponse, json_response, no_content, texts}
use cimd_proxy.Pat.Record.{PatRecord, Time}
use cimd_proxy.Pat.Uuid.{uuid_text}
use cimd_proxy.Pat.Datetime.{isoformat}
use cimd_proxy.Pat.Create.{parse_create}
use cimd_proxy.Pat.Manage.{create, list_own, revoke_own}
use cimd_proxy.Pat.Authenticate.{authenticate}

unfoldable pub time_or_null : Option Time → Json
unfolding isoformat
time_or_null none = null
time_or_null (some t) = str (isoformat t)

-- `public_view`
unfoldable pub public_view : PatRecord → Dict Json
unfolding uuid_text isoformat time_or_null
public_view r =
    ("id", str (uuid_text r.id))
    ∷ ("name", str r.name)
    ∷ ("tenant", str r.tenant)
    ∷ ("resources", arr (strings r.resources))
    ∷ ("scopes", arr (strings r.scopes))
    ∷ ("created_at", str (isoformat r.created_at))
    ∷ ("expires_at", str (isoformat r.expires_at))
    ∷ ("last_used_at", time_or_null r.last_used_at)
    ∷ ("revoked_at", time_or_null r.revoked_at)
    ∷ []

-- `_refusal`
unfoldable pub refusal : (status_code : ℕ) (error description : String) → HttpResponse
refusal status error description =
    json_response status
      (object (texts (("error", error) ∷ ("error_description", description) ∷ [])))
      (if eqb status 401 then ("WWW-Authenticate", "Bearer error=\"invalid_token\"") ∷ [] else [])

-- `except (ManagementError, OAuthError)`
unfoldable pub refused : Exception → Prog HttpResponse
unfolding refusal
refused (management_error status error description) = ret (refusal status error description)
refused (oauth e) = ret (refusal e.status_code e.error e.description)
refused e = throw e

-- A body that is not JSON counts as `None`.
unfoldable pub body_or_null : Option Json → Json
body_or_null none = null
body_or_null (some v) = v

-- A request at one of the three management routes.
pub data Call : Type 0 where
  post_tokens : (authorization : Option String) (body : Option Json) → Call
  get_tokens : (authorization : Option String) → Call
  delete_token : (token_id : String) (authorization : Option String) → Call

module _ (P : Platform) (config : ProxyConfig) (pat : PatConfig) (kc : KeycloakClient) where
  unfoldable pub creating : Option String → Option Json → Prog HttpResponse
  unfolding authenticate body_or_null parse_create create public_view
  creating authorization body = do
    caller ← authenticate P config pat kc authorization
    request ← lift (parse_create config pat (body_or_null body))
    made ← create P config pat kc caller request
    ret (
        json_response 201 (object (("token", str made.1) ∷ public_view made.0))
          (("Cache-Control", "no-store") ∷ []))

  -- POST /pat/tokens
  unfoldable pub create_token : Option String → Option Json → Prog HttpResponse
  unfolding creating refused
  create_token authorization body = catch (creating authorization body) refused

  unfoldable pub listing : Option String → Prog HttpResponse
  unfolding authenticate list_own public_view
  listing authorization = do
    caller ← authenticate P config pat kc authorization
    records ← list_own P config pat kc caller
    ret (
        json_response 200
          (object (("tokens", arr (to_items (map (λ r. object (public_view r)) records))) ∷ [])) [])

  -- GET /pat/tokens
  unfoldable pub list_tokens : Option String → Prog HttpResponse
  unfolding listing refused
  list_tokens authorization = catch (listing authorization) refused

  unfoldable pub revoking : (token_id : String) → Option String → Prog HttpResponse
  unfolding authenticate revoke_own
  revoking token_id authorization = do
    caller ← authenticate P config pat kc authorization
    revoke_own P config pat kc caller token_id
    ret no_content

  -- DELETE /pat/tokens/{token_id}
  unfoldable pub revoke_token : (token_id : String) → Option String → Prog HttpResponse
  unfolding revoking refused
  revoke_token token_id authorization = catch (revoking token_id authorization) refused

  -- GET /pat/jwks.json
  unfoldable pub get_jwks : HttpResponse
  unfolding jwks
  get_jwks = json_response 200 (jwks pat.signer) []

  -- The management routes.
  unfoldable pub manage : Call → Prog HttpResponse
  unfolding create_token list_tokens revoke_token
  manage (post_tokens authorization body) = create_token authorization body
  manage (get_tokens authorization) = list_tokens authorization
  manage (delete_token token_id authorization) = revoke_token token_id authorization
