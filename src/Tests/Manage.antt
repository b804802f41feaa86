-- ===== src/Tests/Manage.antt =====
-- Runs of the management of personal access tokens.
use mathlib.Core.Path.{subst}
use mathlib.Core.List.{Perm}
use cimd_proxy.Prelude.{
  ℕ, zero, suc, String, ◌≡◌, refl, ap, true, false, none, some, List, [], ◌∷◌, ◌⊎◌, inl, arith,
  ◌==◌, if◌then◌else◌, keep, ◌&&◌, ◌||◌, eqb, leb, ltb,
}
use cimd_proxy.Prelude.Int.{pos}
use cimd_proxy.Json.{Json, str, bool, int, arr, nil, strings, object}
use cimd_proxy.Errors.{Result, ok, err, oauth, invalid_grant, value_error}
use cimd_proxy.Effects.{World, Request, Reply, answered, run, sent}
use cimd_proxy.Platform.{Platform}
use cimd_proxy.Config.{ProxyConfig, PatConfig, ResourceEntry}
use cimd_proxy.Keycloak.{KeycloakClient, Caller, keycloak_client}
use cimd_proxy.Pat.Record.{PatRecord, touch, row_count}
use cimd_proxy.Pat.Format.{is_well_formed, token_hash}
use cimd_proxy.Pat.Uuid.{parse_uuid}
use cimd_proxy.Pat.Table.{Row, Table, execute, tokens}
use cimd_proxy.Pat.Table.Play.{play}
use cimd_proxy.Pat.Table.Reach.{Reach, Reach-trans, here, next, play-Reach}
use cimd_proxy.Pat.Table.Kept.{IsKept, Reach-IsKept}
use cimd_proxy.Pat.Table.WellFormed.{IsWellFormed, Reach-IsWellFormed}
use cimd_proxy.Pat.Table.Lasting.{Lasts, Reach-Lasts}
use cimd_proxy.Pat.Manage.Listed.{list_own_lem}
use cimd_proxy.Prelude.Sort.{IsSorted}
use cimd_proxy.Pat.Create.{CreateRequest}
use cimd_proxy.Pat.Exchange.{check_params, exchange}
use cimd_proxy.Pat.Manage.{create, list_own, revoke_own}
use cimd_proxy.Pat.Authenticate.{authenticate, bearer_credential}
use cimd_proxy.Pat.Manage.Revoked.{IsHit, revoke-exchange}
use cimd_proxy.Pat.Manage.Usable.{IsFound, create-IsFound}
use cimd_proxy.Pat.Authenticate.Owner.{
  IsAuthenticated, introspection, authenticate_sound, authenticate-sent,
}
use cimd_proxy.Pat.Api.{Call, post_tokens, manage}
use cimd_proxy.Pat.Api.Answers.{outcome, handling, manage-outcome}
use cimd_proxy.Tests.Setup
use cimd_proxy.Tests.Setup.{entry}
use cimd_proxy.Tests.Exchange
use cimd_proxy.Tests.Exchange.{token, open_config, params, request, create_body}

abbrev realm : String
realm = "https://id.example/realms/r"

abbrev ones : ℕ → List ℕ
ones zero = []
ones (suc n) = 1 ∷ ones n

abbrev platform : Platform
platform = record Setup.platform { sha256 = λ _. ones 32 }

abbrev pat : PatConfig
pat = record Exchange.pat { realm_issuer = realm }

abbrev config : ProxyConfig
config = record open_config {
  resources = record entry { issuer = realm; pat_client_id = "pat"; pat_client_secret = "p" } ∷ [];
}

abbrev kc : KeycloakClient
kc = record {
  issuer = realm;
  admin_base = "https://id.example/admin/realms/r";
  client_id = "admin";
  client_secret = "a";
  idp_alias = "proxy";
}

kc_made : keycloak_client pat ≡ ok kc
unfolding keycloak_client
kc_made = refl

abbrev caller : Caller
caller = record { subject = "owner"; username = "ann"; organizations = "acme" ∷ [] }

-- An answer with a status and a JSON body.
abbrev answer : ℕ → Json → Reply
answer status body =
    answered (record { status_code = status; cache_control = none; chunks = []; json = some body })

abbrev sign_in : Json
sign_in = object (
    ("active", bool true)
    ∷ ("iss", str realm)
    ∷ ("typ", str "Bearer")
    ∷ ("sub", str "owner")
    ∷ ("sid", str "s1")
    ∷ ("preferred_username", str "ann")
    ∷ ("organization", arr (strings ("acme" ∷ [])))
    ∷ [])

-- Keycloak: the four addresses that the program asks.
abbrev keycloak : Request → Reply
keycloak q =
    if q.url == "https://id.example/realms/r/protocol/openid-connect/token/introspect"
    then answer 200 sign_in
    else if q.url == "https://id.example/realms/r/protocol/openid-connect/token"
    then answer 200 (object (("access_token", str "at") ∷ ("scope", str "openid mcp") ∷ []))
    else if q.method == "GET"
    then answer 200 (arr nil)
    else answer 201 (object [])

abbrev world : ℕ → World
world now = record {
  now = now;
  noise = 0;
  names = λ _. none;
  upstream = keycloak;
  table = λ _. row_count 0;
}

abbrev wanted : CreateRequest
wanted = record request { resources = "https://mcp.example" ∷ []; lifetime_days = 2 }

abbrev made : PatRecord
made = record {
  id = 302240678275694148452352;
  tenant = "acme";
  realm_issuer = realm;
  owner_sub = "owner";
  name = "ci";
  resources = "https://mcp.example" ∷ [];
  scopes = "mcp" ∷ [];
  created_at = 3000000;
  expires_at = 172803000000;
  last_used_at = none;
  revoked_at = none;
}

abbrev row : Row
row = record { token = made; token_hash = ones 32 }

created :
    play (world 3) [] (create platform config pat kc caller wanted) ≡ (ok (made, token), row ∷ [])
unfolding create cimd_proxy.Http.token_url cimd_proxy.Config.resource_by_url
    cimd_proxy.Config.normalise_requested_url cimd_proxy.Url.urlsplit
    cimd_proxy.Config.entry_with_url cimd_proxy.Pat.Format.generate_from execute
created = refl

none_yet : IsWellFormed []
none_yet = record { checked = tt; distinct = tt }

abbrev later : Table
later = record row { token = record made { last_used_at = some 5 } } ∷ []

touched : Reach (row ∷ []) later
unfolding execute
touched = next here 5 (touch made.id 5) refl

create-IsFound_example : (r : PatRecord) × IsFound platform config pat kc later 5 made token r
create-IsFound_example =
    create-IsFound platform config pat kc (world 3) caller wanted [] (row ∷ []) later (made, token)
      touched 5 none_yet created (omega arith)

stored_well : IsWellFormed (row ∷ [])
stored_well =
    Reach-IsWellFormed
      (subst (Reach []) (ap (λ (o : Result (PatRecord × String) × Table). o.1) created)
        (play-Reach (world 3) [] (create platform config pat kc caller wanted)))
      none_yet

abbrev made_id : String
made_id = "00000000-0000-4000-8000-000000000000"

abbrev revoked_table : Table
revoked_table = record row { token = record made { revoked_at = some 4000000 } } ∷ []

revoked :
    play (world 4) (row ∷ []) (revoke_own platform config pat kc caller made_id)
    ≡ (ok tt, revoked_table)
unfolding revoke_own execute
revoked = refl

id_read : parse_uuid made_id ≡ some made.id
unfolding parse_uuid
id_read = refl

offered : check_params platform config pat params ≡ ok token
unfolding check_params is_well_formed
offered = refl

revoke-exchange_example :
    IsHit platform config pat kc caller made.id row
    × (play (world 5) revoked_table (exchange platform config pat params)
        ≡ (err (oauth (invalid_grant "the personal access token is revoked")), revoked_table))
revoke-exchange_example =
    revoke-exchange platform config pat kc (world 4) (world 5) (row ∷ []) revoked_table
      revoked_table caller made_id here params token row stored_well revoked (inl refl) id_read refl
      offered

signed_in : run (world 3) (authenticate platform config pat kc (some "Bearer x")) ≡ ok caller
unfolding authenticate cimd_proxy.Http.token_url is_well_formed
signed_in = refl

authenticate_sound_example :
    IsAuthenticated platform config pat kc (world 3) (some "Bearer x") caller
authenticate_sound_example =
    authenticate_sound platform config pat kc (world 3) (some "Bearer x") caller signed_in

authenticate-sent_example :
    (sent (world 3) (authenticate platform config pat kc (some "Bearer x")) ≡ [])
    ⊎ ((credential : String) × (bearer_credential (some "Bearer x") ≡ ok credential)
        × (is_well_formed credential ≡ ok false)
        × (sent (world 3) (authenticate platform config pat kc (some "Bearer x"))
            ≡ introspection platform config pat kc (world 3) credential ∷ []))
authenticate-sent_example = authenticate-sent platform config pat kc (world 3) (some "Bearer x")

Reach-Lasts_example : Lasts row later
Reach-Lasts_example = Reach-Lasts touched row (inl refl)

none-IsKept : IsKept []
none-IsKept = record { checked = tt; unique = tt }

stored : Reach [] (row ∷ [])
stored =
    subst (Reach []) (ap (λ (o : Result (PatRecord × String) × Table). o.1) created)
      (play-Reach (world 3) [] (create platform config pat kc caller wanted))

Reach-IsKept_example : IsKept later
Reach-IsKept_example = Reach-IsKept (Reach-trans stored touched) none-IsKept

list_own_lem_example :
    (rs : List PatRecord) × (play (world 5) later (list_own platform config pat kc caller)
      ≡ (ok rs, later))
    × Perm rs (keep (λ r. r.realm_issuer == realm && r.owner_sub == "owner") (tokens later))
    × IsSorted
        (λ a b. ltb a.created_at b.created_at || (eqb a.created_at b.created_at && leb a.id b.id))
        rs
list_own_lem_example = list_own_lem platform config pat kc (world 5) caller later

-- A lifetime that a date cannot hold, at a call with long lifetimes.
abbrev endless : Json
endless = object (
    ("name", str "ci")
    ∷ ("resources", arr (strings ("https://mcp.example" ∷ [])))
    ∷ ("scopes", arr (strings ("mcp" ∷ [])))
    ∷ ("expires_in_days", int (pos 10000000))
    ∷ ("allow_long_lifetime", bool true)
    ∷ [])

abbrev endless_call : Call
endless_call = post_tokens (some "Bearer x") (some endless)

overflows :
    (play (world 3) [] (manage platform config pat kc endless_call)).0
    ≡ err (value_error "OverflowError: date value out of range")
unfolding manage cimd_proxy.Http.token_url execute is_well_formed cimd_proxy.Config.resource_by_url
    cimd_proxy.Config.normalise_requested_url cimd_proxy.Url.urlsplit
    cimd_proxy.Config.entry_with_url
overflows = refl

manage-outcome_example :
    play (world 3) [] (manage platform config pat kc endless_call)
    ≡ outcome (play (world 3) [] (handling platform config pat kc (world 3) endless_call))
manage-outcome_example = manage-outcome platform config pat kc (world 3) [] endless_call
