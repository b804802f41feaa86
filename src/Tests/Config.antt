-- ===== src/Tests/Config.antt =====
-- A run of the start-up on an environment, and of the redaction of a logged payload.
use cimd_proxy.Prelude.{String, ◌≡◌, refl, false, Option, some, [], ◌∷◌}
use cimd_proxy.Prelude.Int.{pos}
use cimd_proxy.Json.{Json, str, obj, Fields, to_fields}
use cimd_proxy.Errors.{Result}
use cimd_proxy.Platform.{RsaPrivateKey}
use cimd_proxy.Assertion.{AssertionSigner}
use cimd_proxy.Config.{ProxyConfig}
use cimd_proxy.Config.Env.{Env}
use cimd_proxy.Config.Signer.{Pem, rsa_key, load_signer}
use cimd_proxy.Config.Signer.Rounds.{load_signer_ends}
use cimd_proxy.Config.Load.{Seconds}
use cimd_proxy.Logging.{filter_record}
use cimd_proxy.Prelude.Dict.{Dict}
use cimd_proxy.Logging.Hidden.{
  open_member, secret_member, same, no_member, no_attribute, same_attribute, payload_attribute,
  filter_record-AlikeRecords,
}

abbrev key : RsaPrivateKey
key = record { modulus = 35; public_exponent = 5; private_exponent = 5 }

abbrev file : String → Option Pem
file path = some (rsa_key 2048 key)

abbrev seconds : String → Option Seconds
seconds text = some (record { nonpositive = false; milliseconds = 5000 })

abbrev env : Env
env =
    ("PROXY_PUBLIC_URL", "https://proxy.example/")
    ∷ ("PROXY_SECRET_KEY", "k")
    ∷ ("CIMD_CACHE_TTL_MIN", "60")
    ∷ ("DEFAULT_RESOURCE", "https://mcp.example")
    ∷ ("RESOURCE_0_URL", "https://mcp.example/")
    ∷ ("RESOURCE_0_ISSUER", "https://id.example/realms/r")
    ∷ ("RESOURCE_0_CLIENT_ID", "mcp")
    ∷ ("RESOURCE_0_PAT_CLIENT_ID", "pat")
    ∷ ("RESOURCE_0_PAT_CLIENT_SECRET", "p")
    ∷ ("PAT_DATABASE_URL", "postgresql://db")
    ∷ ("PAT_REALM_ISSUER", "https://id.example/realms/r/")
    ∷ ("PAT_SCOPES", "mcp  mcp:write")
    ∷ ("PAT_IDP_ALIAS", "proxy")
    ∷ ("PAT_ADMIN_CLIENT_ID", "admin")
    ∷ ("PAT_ADMIN_CLIENT_SECRET", "a")
    ∷ ("PAT_SIGNING_KEY_0_KID", "k1")
    ∷ ("PAT_SIGNING_KEY_0_FILE", "/keys/k1.pem")
    ∷ ("PAT_SIGNING_KID", "k1")
    ∷ []

abbrev signer : AssertionSigner
signer = record {
  issuer = "https://proxy.example";
  keys = record { kid = "k1"; private_key = key } ∷ [];
  active_kid = "k1";
}

abbrev loaded : ProxyConfig
loaded = record {
  public_url = "https://proxy.example";
  secret_key = "k";
  port = pos 8080;
  bind_host = "0.0.0.0";
  log_level = "INFO";
  cimd_debug = false;
  cimd_cache_ttl_min = 60;
  cimd_cache_ttl_max = 86400;
  cimd_max_bytes = 5120;
  cimd_fetch_timeout = 5000;
  default_resource = "https://mcp.example";
  scopes_supported = "openid" ∷ "offline_access" ∷ [];
  default_scope = "openid offline_access";
  resources =
      record {
        url = "https://mcp.example";
        issuer = "https://id.example/realms/r";
        client_id = "mcp";
        client_secret = "";
        pat_client_id = "pat";
        pat_client_secret = "p";
      }
      ∷ [];
  pat = some (record {
    database_url = "postgresql://db";
    database_schema = "cimd_proxy";
    realm_issuer = "https://id.example/realms/r";
    idp_alias = "proxy";
    admin_client_id = "admin";
    admin_client_secret = "a";
    scopes = "mcp" ∷ "mcp:write" ∷ [];
    signer = signer;
  });
}

load_signer_ends_example :
    (r : Result AssertionSigner) × (load_signer file env "https://proxy.example" ≡ some r)
load_signer_ends_example = load_signer_ends file env "https://proxy.example"

-- The fields of a payload that differs in the end of a code, in a record.
abbrev shown : String → Fields
shown code = to_fields (("client_id", str "https://app.example/id") ∷ ("code", str code) ∷ [])

abbrev logged : String → Dict Json
logged code = ("levelname", str "INFO") ∷ ("msg", obj (shown code)) ∷ []

filter_record-AlikeRecords_example :
    filter_record (logged "abcdef0123") ≡ filter_record (logged "abcdef45678")
unfolding cimd_proxy.Pat.Text.text_of cimd_proxy.Pkce.take_chars
filter_record-AlikeRecords_example =
    filter_record-AlikeRecords (logged "abcdef0123") (logged "abcdef45678") (
      same_attribute "levelname" (str "INFO") (
        payload_attribute {fs = shown "abcdef0123"} {gs = shown "abcdef45678"} "msg" refl refl
          (open_member "client_id" refl (same (str "https://app.example/id")) (
            secret_member {u = str "abcdef0123"} {v = str "abcdef45678"} "code" refl refl
              (λ _. refl) no_member))
          no_attribute))
