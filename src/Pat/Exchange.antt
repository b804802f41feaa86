-- ===== src/Pat/Exchange.antt =====
-- src/cimd_proxy/pat.py: `exchange`, with the grant of src/cimd_proxy/keycloak.py.
pub mod Granted
pub mod Sent
pub mod Payload
use cimd_proxy.Prelude.{
  ℕ, ◌*◌, String, ◌<>◌, Bool, true, false, not, ◌&&◌, ◌||◌, Option, none, some, List, [], ◌∷◌, ◌++◌,
  ◌==◌, if◌then◌else◌, eqb, leb, ltb, is_truthy, is_some, or_else, found_is, contains, join, map,
  repr, rstrip_slash,
}
use cimd_proxy.Prelude.Dict.{Dict, lookup, insert, erase}
use cimd_proxy.Pat.Text.{text_or}
use cimd_proxy.Json.{Json, str, obj, fields}
use cimd_proxy.Errors
use cimd_proxy.Errors.{
  OAuthError, Result, ok, err, Exception, oauth, invalid_request, invalid_grant, invalid_target,
  server_error, value_error,
}
use cimd_proxy.Effects.{
  Prog, ret, throw, send, query, ◌>>=◌, ◌>>◌, lift, require, time, Request, Reply, failed, answered,
  Response, form,
}
use cimd_proxy.Platform.{Platform}
use cimd_proxy.Config.{ProxyConfig, PatConfig, ResourceEntry, resource_by_url, accepts_pat}
use cimd_proxy.Assertion.{AssertionSigner, sign}
use cimd_proxy.Http.{token_url}
use cimd_proxy.Token.{TokenParams, post, also}
use cimd_proxy.Pat.Record.{
  instant, PatRecord, Time, Statement, Answer, find_by_hash, touch, rows, row_count, violated,
}
use cimd_proxy.Pat.Format.{is_well_formed, token_hash}

abbrev pub access_token_type : String
access_token_type = "urn:ietf:params:oauth:token-type:access_token"

-- `cur.fetchone()`
abbrev pub first_row : Answer → Option PatRecord
first_row (rows []) = none
first_row (rows (r ∷ rs)) = some r
first_row (row_count n) = none
first_row violated = none

-- `_post` of the Keycloak client, whose error names the exception's class alone.
unfoldable pub posted_reply : Reply → Prog Response
posted_reply (failed m) = throw (oauth (server_error "upstream unreachable: HTTPError"))
posted_reply (answered r) = ret r

abbrev pub grant_form : ResourceEntry → (assertion scope : String) → Dict String
grant_form entry assertion scope =
    ("grant_type", "urn:ietf:params:oauth:grant-type:jwt-bearer")
    ∷ ("assertion", assertion)
    ∷ ("client_id", entry.pat_client_id)
    ∷ ("client_secret", entry.pat_client_secret)
    ∷ also "scope" scope []

-- `jwt_bearer_grant`
unfoldable pub jwt_bearer_grant :
    PatConfig → ResourceEntry → (assertion scope : String) → Prog Response
unfolding posted_reply
jwt_bearer_grant pat entry assertion scope =
    send (post (token_url (rstrip_slash pat.realm_issuer)) (grant_form entry assertion scope))
      posted_reply

-- `_scope_param`
abbrev pub scope_param : List String → String → String
unfolding join
scope_param scopes tenant = join " " (scopes ++ ("organization:" <> tenant) ∷ [])

-- `_json`
unfoldable pub json_of : Option Json → Prog (Dict Json)
json_of none = throw (oauth (server_error "upstream token response is not valid JSON"))
json_of (some (obj fs)) = ret (fields fs)
json_of (some _) = throw (oauth (server_error "upstream token response is not a JSON object"))

-- The resource that the request names, or the only one of the token.
unfoldable pub named_resource : List String → Option String → Result String
named_resource resources (some resource) = ok resource
named_resource (r ∷ []) none = ok r
named_resource resources none =
    err (oauth (invalid_target "resource is required: the token names more than one"))

unfoldable pub check_entry : PatRecord → Option ResourceEntry → Result ResourceEntry
check_entry record' none =
    err (oauth (invalid_target "the personal access token does not name this resource"))
check_entry record' (some entry) =
    if not (contains record'.resources entry.url)
    then err (oauth (invalid_target "the personal access token does not name this resource"))
    else if not (accepts_pat entry) || not (entry.issuer == record'.realm_issuer)
    then err (oauth (invalid_target "this resource no longer accepts personal access tokens"))
    else ok entry

-- `_resolve_resource`
unfoldable pub resolve_resource : ProxyConfig → PatRecord → Option String → Result ResourceEntry
unfolding named_resource check_entry
resolve_resource config record' resource =
    Errors.◌>>=◌ (named_resource record'.resources resource)
      λ url. Errors.◌>>=◌ (resource_by_url config url) λ found. check_entry record' found

-- `_UpstreamRefusal`
unfoldable pub upstream_refusal : ℕ → Dict Json → OAuthError
unfolding lookup
upstream_refusal status payload = record {
  error = text_or "server_error" (lookup "error" payload);
  description = text_or "" (lookup "error_description" payload);
  status_code = if leb 400 status && ltb status 500 then status else 502;
}

abbrev refuse_grant : String → Exception
refuse_grant m = oauth (invalid_grant m)

-- The payload that goes to the client.
unfoldable pub relayed : Dict Json → Dict Json
unfolding erase insert
relayed payload =
    insert "issued_token_type" (str access_token_type)
      (erase "refresh_expires_in" (erase "refresh_token" payload))

module _ (P : Platform) (config : ProxyConfig) (pat : PatConfig) where
  -- The tests of the parameters, which give the token.
  unfoldable pub check_params : TokenParams → Result String
  check_params p =
      if not (is_truthy (or_else p.subject_token ""))
      then err (oauth (invalid_request "missing subject_token"))
      else if not (found_is p.subject_token_type access_token_type)
      then err (oauth (invalid_request ("subject_token_type must be " <> access_token_type)))
      else if is_some p.requested_token_type
          && not (found_is p.requested_token_type access_token_type)
      then err (oauth (invalid_request ("requested_token_type must be " <> access_token_type)))
      else Errors.◌>>=◌ (is_well_formed (or_else p.subject_token "")) λ good.
        if good
        then ok (or_else p.subject_token "")
        else err (refuse_grant "subject_token is not a valid personal access token")

  -- The tests of the row, at an instant.
  unfoldable pub check_row : Option PatRecord → Time → Result PatRecord
  check_row none now = err (refuse_grant "subject_token is not a valid personal access token")
  check_row (some r) now =
      if is_some r.revoked_at
      then err (refuse_grant "the personal access token is revoked")
      else if leb r.expires_at now
      then err (refuse_grant "the personal access token is expired")
      else if not (r.realm_issuer == pat.realm_issuer)
      then err (refuse_grant "the personal access token belongs to another realm")
      else if not (is_truthy r.tenant)
      then err (refuse_grant "the personal access token is not bound to an organization")
      else ok r

  -- The end of `exchange`, on the answer of the token issuer.
  unfoldable pub grant : PatRecord → Time → Response → Prog (Dict Json)
  grant r now response = do
    payload ← json_of response.json
    if eqb response.status_code 200
        then query (touch r.id now) (λ _. ret (relayed payload))
        else throw (oauth (upstream_refusal response.status_code payload))

  unfoldable pub exchange : TokenParams → Prog (Dict Json)
  exchange p = do
    token ← lift (check_params p)
    found ← query (find_by_hash (token_hash P token)) (λ a. ret (first_row a))
    now ← time
    r ← lift (check_row found (instant now))
    entry ← lift (resolve_resource config r p.resource)
    assertion ← sign P pat.signer r.owner_sub entry.issuer
    response ← jwt_bearer_grant pat entry assertion (scope_param r.scopes r.tenant)
    grant r (instant now) response
