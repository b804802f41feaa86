-- ===== src/Pat/Manage/Silent.antt =====
-- The parts of `create` of src/cimd_proxy/pat.py that leave the token table alone.
use cimd_proxy.Prelude.{
  String, Bool, true, false, not, ◌||◌, Option, none, some, List, [], ◌∷◌, eqb, is_empty, keep,
  contains, Bool-cases, inl, inr,
}
use cimd_proxy.Json.{Json, null, obj}
use cimd_proxy.Errors.{Exception, oauth, link_conflict}
use cimd_proxy.Effects.{Reply, failed, answered, catch}
use cimd_proxy.Platform.{Platform}
use cimd_proxy.Config.{ProxyConfig, PatConfig, ResourceEntry}
use cimd_proxy.Assertion.{AssertionSigner, sign, key_with_kid}
use cimd_proxy.Keycloak.{
  KeycloakClient, Caller, admin_token, ensure_link, links_of, linked, link_unless, token_field,
}
use cimd_proxy.Pat.Table.Laws.{
  Tableless, Tableless-bind, Tableless-lift-bind, Tableless-lift, Tableless-require-bind,
  Tableless-catch, Tableless-require,
}
use cimd_proxy.Pat.Create.{CreateRequest}
use cimd_proxy.Pat.Exchange.{posted_reply, jwt_bearer_grant, json_of}
use cimd_proxy.Pat.Manage.{conflict, entry_of, trial_exchange, check_named, narrow, granted_scopes}

posted-Tableless : (r : Reply) → Tableless (posted_reply r)
unfolding posted_reply
posted-Tableless (failed m) = tt
posted-Tableless (answered r) = tt

admin_token-Tableless : (kc : KeycloakClient) → Tableless (admin_token kc)
unfolding admin_token
admin_token-Tableless kc = λ reply.
    Tableless-bind (posted_reply reply) _ (posted-Tableless reply)
      λ r. Tableless-require-bind (eqb r.status_code 200) _ _ (Tableless-lift (token_field r.json))

link_unless-Tableless :
    (kc : KeycloakClient) (caller : Caller) (token : String) (found : Bool)
    → Tableless (link_unless kc caller token found)
unfolding link_unless
link_unless-Tableless kc caller token true = tt
link_unless-Tableless kc caller token false = λ reply.
    Tableless-bind (posted_reply reply) _ (posted-Tableless reply)
      λ r. Tableless-require (eqb r.status_code 201 || eqb r.status_code 204) _

ensure_link-Tableless : (kc : KeycloakClient) (caller : Caller) → Tableless (ensure_link kc caller)
unfolding ensure_link
ensure_link-Tableless kc caller =
    Tableless-bind (admin_token kc) _ (admin_token-Tableless kc) λ token. λ reply.
      Tableless-bind (posted_reply reply) _ (posted-Tableless reply) λ r.
        Tableless-require-bind (eqb r.status_code 200) _ _ (
          Tableless-lift-bind (links_of r.json) _ λ links.
            Tableless-lift-bind (linked kc.idp_alias caller.subject links) _
              λ found. link_unless-Tableless kc caller token found)

conflict-Tableless : (e : Exception) → Tableless (conflict e)
unfolding conflict
conflict-Tableless (link_conflict m) = tt
conflict-Tableless (oauth o) = tt
conflict-Tableless e = tt

pub linking-Tableless :
    (kc : KeycloakClient) (caller : Caller) → Tableless (catch (ensure_link kc caller) conflict)
linking-Tableless kc caller =
    Tableless-catch (ensure_link kc caller) conflict (ensure_link-Tableless kc caller)
      conflict-Tableless

json-Tableless : (v : Option Json) → Tableless (json_of v)
unfolding json_of
json-Tableless none = tt
json-Tableless (some (obj fs)) = tt
json-Tableless (some null) = tt
json-Tableless (some v) = tt

module _ (P : Platform) (config : ProxyConfig) (pat : PatConfig) (kc : KeycloakClient) where
  sign-Tableless :
      (signer : AssertionSigner) (subject audience : String)
      → Tableless (sign P signer subject audience)
  unfolding sign
  sign-Tableless signer subject audience =
      Tableless-lift-bind (key_with_kid signer.active_kid signer.keys) _ λ key. λ now noise. tt

  pub trial-Tableless :
      (caller : Caller) (entry : ResourceEntry) (scopes : List String) (tenant : String)
      → Tableless (trial_exchange P config pat kc caller entry scopes tenant)
  unfolding trial_exchange jwt_bearer_grant
  trial-Tableless caller entry scopes tenant =
      Tableless-bind (sign P pat.signer caller.subject entry.issuer) _
        (sign-Tableless pat.signer caller.subject entry.issuer)
        λ assertion. λ reply. Tableless-bind (posted_reply reply) _ (posted-Tableless reply) λ r.
          Tableless-bind (json_of r.json) _ (json-Tableless r.json)
            λ payload. Tableless-require-bind (eqb r.status_code 200) _ _ tt

  check_named-Tableless :
      (caller : Caller) (scopes : List String) (tenant : String) (urls : List String)
      → Tableless (check_named P config pat kc caller scopes tenant urls)
  unfolding check_named
  check_named-Tableless caller scopes tenant [] = tt
  check_named-Tableless caller scopes tenant (url ∷ urls) =
      Tableless-lift-bind (entry_of P config pat kc url) _ λ entry.
        Tableless-bind (trial_exchange P config pat kc caller entry scopes tenant) _
          (trial-Tableless caller entry scopes tenant)
          λ granted.
            Tableless-require-bind (is_empty (keep (λ s. not (contains granted s)) scopes)) _ _
              (check_named-Tableless caller scopes tenant urls)

  narrow-Tableless :
      (caller : Caller) (tenant : String) (urls permitted : List String)
      → Tableless (narrow P config pat kc caller tenant urls permitted)
  unfolding narrow
  narrow-Tableless caller tenant [] permitted = tt
  narrow-Tableless caller tenant (url ∷ urls) permitted =
      Tableless-lift-bind (entry_of P config pat kc url) _ λ entry.
        Tableless-bind (trial_exchange P config pat kc caller entry permitted tenant) _
          (trial-Tableless caller entry permitted tenant)
          λ granted. narrow-Tableless caller tenant urls (keep (λ s. contains granted s) permitted)

  pub granted-Tableless :
      (caller : Caller) (request : CreateRequest) (tenant : String)
      → Tableless (granted_scopes P config pat kc caller request tenant)
  unfolding granted_scopes
  granted-Tableless caller request tenant = elim (Bool-cases request.all_permitted_scopes) [
    | inl all_of ↦ rw all_of (
        Tableless-bind (narrow P config pat kc caller tenant request.resources pat.scopes) _
          (narrow-Tableless caller tenant request.resources pat.scopes)
          λ permitted. Tableless-require-bind (not (is_empty permitted)) _ _ tt)
    | inr named ↦ rw named (
        Tableless-bind (check_named P config pat kc caller request.scopes tenant request.resources)
          _ (check_named-Tableless caller request.scopes tenant request.resources) λ _. tt)
  ]
