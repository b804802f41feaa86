-- ===== src/Pat/Manage.antt =====
-- src/cimd_proxy/pat.py: the management of personal access tokens, `PatService`.

pub mod Revoked
pub mod Silent
pub mod Scopes
pub mod Created
pub mod Usable
pub mod Listed
use cimd_proxy.Prelude.{
  ℕ, ◌+◌, ◌*◌, ◌≡◌, String, ◌<>◌, Bool, true, false, not, ◌&&◌, ◌||◌, Option, none, some, List, [],
  ◌∷◌, ◌==◌, if◌then◌else◌, eqb, leb, is_empty, is_truthy, or_else, found_is, contains, keep, join,
  repr, repr_list, lower, strip, partition, is_char, split_words, rstrip_slash, map, any_char, Char,
  code,
}
use cimd_proxy.Prelude.Dict.{Dict, lookup}
use cimd_proxy.Prelude.Int.{pos, negsuc}
use cimd_proxy.Json.{
  Json, Items, Fields, null, bool, int, float, str, arr, obj, nil, cons, end, field, items, fields,
  str_of,
}
use cimd_proxy.Errors
use cimd_proxy.Errors.{
  Result, ok, err, Exception, oauth, server_error, value_error, type_error, attribute_error,
  link_conflict, management_error, store_error,
}
use cimd_proxy.Effects.{Prog, ret, throw, query, ◌>>=◌, ◌>>◌, lift, require, catch, time, entropy}
use cimd_proxy.Platform.{Platform}
use cimd_proxy.Config.{ProxyConfig, PatConfig, ResourceEntry, resource_by_url}
use cimd_proxy.Assertion.{sign}
use cimd_proxy.Keycloak.{KeycloakClient, Caller, introspect, ensure_link}
use cimd_proxy.Pat.Record.{
  PatRecord, Time, Uuid, Statement, Answer, insert, list_for_owner, revoke, rows, row_count,
  violated, instant,
}
use cimd_proxy.Pat.Text.{text_of, text_or}
use cimd_proxy.Pat.Uuid.{uuid4_number, parse_uuid}
use cimd_proxy.Pat.Format.{generate, is_well_formed, token_hash}
use cimd_proxy.Pat.Exchange.{jwt_bearer_grant, json_of, scope_param}
use cimd_proxy.Pat.Create.{CreateRequest}
use cimd_proxy.Pat.Authenticate.{refuse, refuse_unless}

-- `_tenant_for`
unfoldable pub tenant_for : Caller → Option String → Result String
tenant_for caller (some requested) =
    if contains caller.organizations requested
    then ok requested
    else refuse 403 "insufficient_scope" "the owner is not a member of that organization"
tenant_for caller none = only caller.organizations
  where
    only : List String → Result String
    only [] =
        refuse 403 "organization_required"
          "a personal access token is bound to an organization, and the owner belongs to none"
    only (t ∷ []) = ok t
    only (t ∷ u ∷ ts) =
        refuse 400 "invalid_request"
          "the owner belongs to several organizations; name one in 'organization'"

-- The first offset from the epoch that `datetime` cannot hold: the year 10000, in microseconds.
abbrev pub year_10000 : Time
year_10000 = 253402300800000000

-- `now + timedelta(days=days)`
unfoldable pub expiry_of : Time → ℕ → Result Time
expiry_of now days =
    let then' = now + days * 86400000000 in
    if leb year_10000 then'
    then err (value_error "OverflowError: date value out of range")
    else ok then'

-- `PostgresPatStore.insert`, by what the statement gives back.
unfoldable pub inserted : Answer → Prog (Unit {0})
inserted violated = throw (store_error "IntegrityError")
inserted _ = ret tt

-- `PostgresPatStore.list_for_owner`
unfoldable pub listed : Answer → List PatRecord
listed (rows rs) = rs
listed _ = []

-- `PostgresPatStore.revoke`: `cur.rowcount == 1`
unfoldable pub one_row : Answer → Bool
one_row (row_count n) = eqb n 1
one_row _ = false

-- `except LinkConflict`
unfoldable pub conflict : Exception → Prog (Unit {0})
conflict (link_conflict m) = throw (management_error 409 "link_conflict" m)
conflict e = throw e

module _ (P : Platform) (config : ProxyConfig) (pat : PatConfig) (kc : KeycloakClient) where
  -- `_entry`
  unfoldable pub entry_of : String → Result ResourceEntry
  entry_of url = Errors.◌>>=◌ (resource_by_url config url) there
    where
      there : Option ResourceEntry → Result ResourceEntry
      there (some entry) = ok entry
      there none = err (oauth (server_error ("resource " <> repr url <> " is not configured")))

  unfoldable pub refused_trial : ResourceEntry → Dict Json → Exception
  unfolding text_or lookup
  refused_trial entry payload = management_error 502 "server_error" (
      "the token issuer refused a trial exchange for "
      <> repr entry.url
      <> ": "
      <> text_or "None" (lookup "error" payload)
      <> ": "
      <> text_or "None" (lookup "error_description" payload))

  -- `_trial_exchange`
  unfoldable pub trial_exchange :
      Caller → ResourceEntry → (scopes : List String) (tenant : String) → Prog (List String)
  unfolding sign jwt_bearer_grant json_of refused_trial text_or lookup split_words
  trial_exchange caller entry scopes tenant = do
    assertion ← sign P pat.signer caller.subject entry.issuer
    response ← jwt_bearer_grant pat entry assertion (scope_param scopes tenant)
    payload ← json_of response.json
    require (eqb response.status_code 200) (refused_trial entry payload)
    ret (split_words (text_or "" (lookup "scope" payload)))

  -- The loop of `_granted_scopes` for a set that is named.
  unfoldable pub check_named :
      Caller → (scopes : List String) (tenant : String) → List String → Prog (Unit {0})
  unfolding entry_of trial_exchange
  check_named caller scopes tenant [] = ret tt
  check_named caller scopes tenant (url ∷ urls) = do
    entry ← lift (entry_of url)
    granted ← trial_exchange caller entry scopes tenant
    let missing = keep (λ s. not (contains granted s)) scopes
    require (is_empty missing) (
        management_error 403 "insufficient_scope"
          ("the owner may not carry " <> repr_list missing <> " at " <> repr url))
    check_named caller scopes tenant urls

  -- The loop for all the scopes that the owner may carry.
  unfoldable pub narrow :
      Caller → (tenant : String) → List String → (permitted : List String) → Prog (List String)
  unfolding entry_of trial_exchange
  narrow caller tenant [] permitted = ret permitted
  narrow caller tenant (url ∷ urls) permitted = do
    entry ← lift (entry_of url)
    granted ← trial_exchange caller entry permitted tenant
    narrow caller tenant urls (keep (λ s. contains granted s) permitted)

  -- `_granted_scopes`
  unfoldable pub granted_scopes : Caller → CreateRequest → (tenant : String) → Prog (List String)
  unfolding check_named narrow
  granted_scopes caller request tenant = by_kind request.all_permitted_scopes
    where
      by_kind : Bool → Prog (List String)
      by_kind false = do
        check_named caller request.scopes tenant request.resources
        ret request.scopes
      by_kind true = do
        permitted ← narrow caller tenant request.resources pat.scopes
        require (not (is_empty permitted)) (
            management_error 403 "insufficient_scope"
              "the owner may carry none of the scopes offered for personal tokens")
        ret permitted

  -- The row of a new token.
  unfoldable pub new_record :
      Caller
      → CreateRequest
      → (tenant : String) (scopes : List String) (now expires : Time) → Uuid
      → PatRecord
  new_record caller request tenant scopes now expires id = record {
    id = id;
    tenant = tenant;
    realm_issuer = pat.realm_issuer;
    owner_sub = caller.subject;
    name = request.name;
    resources = request.resources;
    scopes = scopes;
    created_at = now;
    expires_at = expires;
    last_used_at = none;
    revoked_at = none;
  }

  -- The end of `create`, when the scopes are known.
  unfoldable pub store_new :
      Caller → CreateRequest → (tenant : String) (scopes : List String) → Prog (PatRecord × String)
  unfolding expiry_of uuid4_number new_record generate inserted
  store_new caller request tenant scopes = do
    seconds ← time
    noise ← entropy
    expires ← lift (expiry_of (instant seconds) request.lifetime_days)
    let new = new_record caller request tenant scopes (instant seconds) expires (uuid4_number noise)
    token ← generate
    query (insert new (token_hash P token)) inserted
    ret (new, token)

  unfoldable pub create : Caller → CreateRequest → Prog (PatRecord × String)
  unfolding tenant_for ensure_link conflict granted_scopes store_new
  create caller request = do
    tenant ← lift (tenant_for caller request.organization)
    catch (ensure_link kc caller) conflict
    scopes ← granted_scopes caller request tenant
    store_new caller request tenant scopes

  -- `PatService.list`
  unfoldable pub list_own : Caller → Prog (List PatRecord)
  unfolding listed
  list_own caller = query (list_for_owner pat.realm_issuer caller.subject) (λ a. ret (listed a))

  abbrev not_found : Exception
  not_found = management_error 404 "not_found" "no such token"

  unfoldable pub parsed_id : Option Uuid → Result Uuid
  parsed_id (some u) = ok u
  parsed_id none = err not_found

  -- `PatService.revoke`
  unfoldable pub revoke_own : Caller → (token_id : String) → Prog (Unit {0})
  unfolding parse_uuid parsed_id one_row
  revoke_own caller token_id = do
    parsed ← lift (parsed_id (parse_uuid token_id))
    revoked ← query (revoke pat.realm_issuer caller.subject parsed) (λ a. ret (one_row a))
    require revoked not_found
