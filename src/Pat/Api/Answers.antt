-- ===== src/Pat/Api/Answers.antt =====
-- What the management endpoints of src/cimd_proxy/pat_api.py answer.
use cimd_proxy.Prelude.{◌≡◌, refl, ◌∙◌, [], ◌∷◌, ℕ, String, if◌then◌else◌, eqb}
use cimd_proxy.Json.{str, object}
use cimd_proxy.Errors.{Result, ok, err, oauth, management_error}
use cimd_proxy.Effects.{World, Prog, catch}
use cimd_proxy.Platform.{Platform}
use cimd_proxy.Config.{ProxyConfig, PatConfig}
use cimd_proxy.Keycloak.{KeycloakClient}
use cimd_proxy.Http.{HttpResponse, json_response}
use cimd_proxy.Pat.Table.{Table}
use cimd_proxy.Pat.Table.Play.{play}
use cimd_proxy.Pat.Table.Laws.{play-catch, played_catch}
use cimd_proxy.Pat.Api.{
  Call, post_tokens, get_tokens, delete_token, manage, refused, refusal, create_token, list_tokens,
  revoke_token, creating, listing, revoking,
}

-- The answer to a refusal: its status, its code and description as JSON, and with 401 the challenge
-- of RFC 6750.
abbrev pub refusal_answer : (status_code : ℕ) (error description : String) → HttpResponse
refusal_answer status error description =
    json_response status
      (object (("error", str error) ∷ ("error_description", str description) ∷ []))
      (if eqb status 401 then ("WWW-Authenticate", "Bearer error=\"invalid_token\"") ∷ [] else [])

-- What a client gets for the outcome of a call: a refusal of the management and an OAuth error are
-- answers, and every other outcome stays.
abbrev pub outcome : Result HttpResponse × Table → Result HttpResponse × Table
outcome (ok r, t) = (ok r, t)
outcome (err (management_error status error description), t) =
    (ok (refusal_answer status error description), t)
outcome (err (oauth e), t) = (ok (refusal_answer e.status_code e.error e.description), t)
outcome (err x, t) = (err x, t)

module _ (P : Platform) (config : ProxyConfig) (pat : PatConfig) (kc : KeycloakClient)
    (w : World) where
  -- The work of a call, before the exceptions are caught.
  abbrev pub handling : Call → Prog HttpResponse
  handling (post_tokens authorization body) = creating P config pat kc authorization body
  handling (get_tokens authorization) = listing P config pat kc authorization
  handling (delete_token token_id authorization) = revoking P config pat kc token_id authorization

  refused-outcome : (r : Result HttpResponse × Table) → played_catch w r refused ≡ outcome r
  unfolding refused refusal
  refused-outcome (ok r, t) = refl
  refused-outcome (err (management_error s e d), t) = refl
  refused-outcome (err (oauth e), t) = refl
  refused-outcome (err x, t) = refl

  catching : (t : Table) (m : Prog HttpResponse) → play w t (catch m refused) ≡ outcome (play w t m)
  catching t m = play-catch w t m refused ∙ refused-outcome (play w t m)

  -- The management routes answer every refusal of the work of a call, those of the management and
  -- the OAuth errors, with its status, its code and description as JSON and, with 401, the challenge
  -- for a bearer token; any other outcome stays, and so does the table that the work has left.
  pub manage-outcome :
      (t : Table) (call : Call)
      → play w t (manage P config pat kc call) ≡ outcome (play w t (handling call))
  unfolding manage create_token list_tokens revoke_token
  manage-outcome t (post_tokens authorization body) =
      catching t (creating P config pat kc authorization body)
  manage-outcome t (get_tokens authorization) = catching t (listing P config pat kc authorization)
  manage-outcome t (delete_token token_id authorization) =
      catching t (revoking P config pat kc token_id authorization)
