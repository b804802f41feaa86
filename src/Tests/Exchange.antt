-- ===== src/Tests/Exchange.antt =====
-- A run of the token exchange.
use cimd_proxy.Prelude.{String, ◌<>◌, ◌≡◌, refl, true, false, none, some, [], ◌∷◌}
use cimd_proxy.Prelude.Dict.{Dict}
use cimd_proxy.Json.{Json, str, int, bool, arr, strings, object}
use cimd_proxy.Prelude.Int.{pos}
use cimd_proxy.Pat.Create.{CreateRequest, parse_create}
use cimd_proxy.Pat.Create.Accepted.{IsAllowed, parse_create-IsAllowed}
use cimd_proxy.Errors.{ok}
use cimd_proxy.Effects.{World, run, sent, answered}
use cimd_proxy.Config.{ProxyConfig, PatConfig, ResourceEntry}
use cimd_proxy.Token.{TokenParams, token_exchange}
use cimd_proxy.Pat.Record.{PatRecord, Statement, Answer, find_by_hash, rows, row_count}
use cimd_proxy.Pat.Format.{generate_from, is_well_formed}
use cimd_proxy.Pat.Exchange.{access_token_type, exchange, relayed}
use cimd_proxy.Pat.Format.WellFormed.{generate_from-is_well_formed}
use cimd_proxy.Pat.Exchange.Sent.{Grants, exchange-sent}
use cimd_proxy.Pat.Exchange.Payload.{IsAnswer, exchange-IsRelayed}
use cimd_proxy.Tests.Setup.{platform, config, entry}

abbrev pub token : String
token = "kmb_pat_00000000000000000000000000000000000000000004FrgRx"

abbrev pub pat : PatConfig
pat = record {
  database_url = "";
  database_schema = "pat";
  realm_issuer = "https://id.example/realms/r/";
  idp_alias = "proxy";
  admin_client_id = "admin";
  admin_client_secret = "a";
  scopes = "mcp" ∷ [];
  signer = record {
    issuer = "https://proxy.example";
    keys =
        record {
          kid = "k1";
          private_key = record { modulus = 0; public_exponent = 0; private_exponent = 0 };
        }
        ∷ [];
    active_kid = "k1";
  };
}

abbrev pub open_config : ProxyConfig
open_config = record config {
  resources = record entry { pat_client_id = "pat"; pat_client_secret = "p" } ∷ [];
}

abbrev row : PatRecord
row = record {
  id = 7;
  tenant = "acme";
  realm_issuer = "https://id.example/realms/r/";
  owner_sub = "owner";
  name = "ci";
  resources = "https://mcp.example" ∷ [];
  scopes = "mcp" ∷ [];
  created_at = 0;
  expires_at = 10000000;
  last_used_at = none;
  revoked_at = none;
}

abbrev table : Statement → Answer
table (find_by_hash h) = rows (row ∷ [])
table _ = row_count 1

abbrev issued : Dict Json
issued = ("access_token", str "at") ∷ ("refresh_token", str "rt") ∷ []

abbrev world : World
world = record {
  now = 3;
  noise = 0;
  names = λ _. none;
  upstream = λ _. answered (record {
    status_code = 200;
    cache_control = none;
    chunks = [];
    json = some (object issued);
  });
  table = table;
}

abbrev pub params : TokenParams
params = record {
  grant_type = some token_exchange;
  code = none;
  code_verifier = none;
  redirect_uri = none;
  client_id = none;
  refresh_token = none;
  scope = none;
  subject_token = some token;
  subject_token_type = some access_token_type;
  requested_token_type = none;
  resource = none;
}

generated : generate_from 0 ≡ ok token
unfolding generate_from
generated = refl

well_formed : is_well_formed token ≡ ok true
unfolding is_well_formed
well_formed = refl

mistyped : is_well_formed (token <> "x") ≡ ok false
unfolding is_well_formed
mistyped = refl

exchanged :
    run world (exchange platform open_config pat params)
    ≡ ok (("access_token", str "at") ∷ ("issued_token_type", str access_token_type) ∷ [])
unfolding exchange cimd_proxy.Pat.Exchange.check_params is_well_formed
    cimd_proxy.Pat.Exchange.check_row cimd_proxy.Pat.Exchange.resolve_resource
    cimd_proxy.Config.resource_by_url cimd_proxy.Config.normalise_requested_url
    cimd_proxy.Url.urlsplit cimd_proxy.Config.entry_with_url cimd_proxy.Assertion.sign
    cimd_proxy.Pat.Exchange.jwt_bearer_grant cimd_proxy.Pat.Exchange.grant
    cimd_proxy.Pat.Exchange.json_of relayed
exchanged = refl

exchange-sent_example :
    Grants platform open_config pat world params
      (sent world (exchange platform open_config pat params))
exchange-sent_example = exchange-sent platform open_config pat world params

exchange-IsRelayed_example :
    IsAnswer platform open_config pat world params
      (("access_token", str "at") ∷ ("issued_token_type", str access_token_type) ∷ [])
exchange-IsRelayed_example =
    exchange-IsRelayed platform open_config pat world params
      (("access_token", str "at") ∷ ("issued_token_type", str access_token_type) ∷ []) exchanged

generate_from-is_well_formed_example :
    (t : String) × (generate_from 12345 ≡ ok t) × (is_well_formed t ≡ ok true)
generate_from-is_well_formed_example = generate_from-is_well_formed 12345

abbrev pub create_body : Json
create_body = object (
    ("name", str " ci ")
    ∷ ("resources", arr (strings ("https://mcp.example/" ∷ "https://mcp.example" ∷ [])))
    ∷ ("scopes", arr (strings ("mcp" ∷ [])))
    ∷ ("expires_in_days", int (pos 400))
    ∷ ("allow_long_lifetime", bool true)
    ∷ [])

abbrev pub request : CreateRequest
request = record {
  name = "ci";
  resources = "https://mcp.example" ∷ "https://mcp.example" ∷ [];
  scopes = "mcp" ∷ [];
  lifetime_days = 400;
  allow_long_lifetime = true;
  organization = none;
  all_permitted_scopes = false;
}

parse_create-run : parse_create open_config pat create_body ≡ ok request
unfolding parse_create cimd_proxy.Prelude.strip cimd_proxy.Config.resource_by_url
    cimd_proxy.Config.normalise_requested_url cimd_proxy.Url.urlsplit
    cimd_proxy.Config.entry_with_url cimd_proxy.Url.without_path
parse_create-run = refl

parse_create-IsAllowed_example : IsAllowed open_config pat request
parse_create-IsAllowed_example =
    parse_create-IsAllowed open_config pat create_body request parse_create-run
