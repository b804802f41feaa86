-- ===== src/Tests/Setup.antt =====
-- A platform, a configuration, worlds and messages for the runs.
use cimd_proxy.Prelude.{
  ℕ, String, ◌≡◌, refl, true, false, Option, none, some, List, [], ◌∷◌, if◌then◌else◌, ◌==◌,
  all_chars, inl, inr, Bool-cases,
}
use cimd_proxy.Prelude.Int.{pos}
use cimd_proxy.Prelude.Dict.{lookup}
use cimd_proxy.Json.{Json, obj, fields, object, str, str_of, null, arr, strings}
use cimd_proxy.Platform.{Platform, IsLawful, is_ascii_char, ReadsBack}
use cimd_proxy.Effects.{World, Request, Reply, answered}
use cimd_proxy.Pat.Record.{rows}
use cimd_proxy.Envelope
use cimd_proxy.Envelope.{
  AuthorizeEnvelope, CodeEnvelope, RefreshEnvelope, RegistrationEnvelope, payload,
}
use cimd_proxy.Codec.{EnvelopeCodec}
use cimd_proxy.Config.{ProxyConfig, ResourceEntry}
use cimd_proxy.Fetcher.{Zones, CimdDocument}
use cimd_proxy.CimdService.{CimdService}
use cimd_proxy.Authorize.{AuthorizeParams, Validated, authorize_envelope}
use cimd_proxy.Callback.{code_envelope}
use cimd_proxy.Register.{Accepted}
use cimd_proxy.Register.Issued.{registration_of}
use cimd_proxy.Tests.Fernet.{
  mark, unseal, unseal-mark, unseal-mark_live, unseal-mark_stale, mark_ascii,
}

abbrev pub client_url : String
client_url = "https://app.example/client"

abbrev pub back : String
back = "https://app.example/cb"

abbrev pub entry : ResourceEntry
entry = record {
  url = "https://mcp.example";
  issuer = "https://id.example/realms/r/";
  client_id = "proxy";
  client_secret = "s3cret";
  pat_client_id = "";
  pat_client_secret = "";
}

abbrev pub config : ProxyConfig
config = record {
  public_url = "https://proxy.example";
  secret_key = "k";
  port = pos 8000;
  bind_host = "0.0.0.0";
  log_level = "INFO";
  cimd_debug = false;
  cimd_cache_ttl_min = 300;
  cimd_cache_ttl_max = 86400;
  cimd_max_bytes = 65536;
  cimd_fetch_timeout = 5;
  default_resource = "https://mcp.example/";
  scopes_supported = [];
  default_scope = "openid";
  resources = entry ∷ [];
  pat = none;
}

abbrev pub codec : EnvelopeCodec
codec = record { key = "k" }

-- The body of the metadata document.
abbrev pub metadata : Json
metadata = object (
    ("client_id", str client_url)
    ∷ ("redirect_uris", arr (strings (back ∷ "ftp://app.example/x" ∷ [])))
    ∷ [])

abbrev pub document : CimdDocument
document = record {
  client_id = client_url;
  redirect_uris = back ∷ [];
  raw =
      ("client_id", str client_url)
      ∷ ("redirect_uris", arr (strings (back ∷ "ftp://app.example/x" ∷ [])))
      ∷ [];
  cache_control = some "max-age=600";
}

abbrev pub public_zones : Zones
public_zones = record {
  is_private = false;
  is_loopback = false;
  is_link_local = false;
  is_reserved = false;
  is_multicast = false;
  is_unspecified = false;
}

abbrev pub ip_address : String → Option Zones
ip_address s =
    if s == "127.0.0.1"
    then some (record public_zones { is_loopback = true })
    else some public_zones

abbrev pub cimd : CimdService
cimd = record {
  fetcher = record { max_bytes = 65536; timeout_seconds = 5; user_agent = "cimd-proxy/0.2" };
  ttl_min = 300;
  ttl_max = 86400;
}

-- The upstream serves the document and answers the token endpoint.
abbrev pub upstream : Request → Reply
upstream q = answered (
    if q.method == "GET"
    then record {
      status_code = 200;
      cache_control = some "max-age=600";
      chunks = "m" ∷ "d" ∷ [];
      json = none;
    }
    else record {
      status_code = 200;
      cache_control = none;
      chunks = [];
      json = some (object (("access_token", str "at") ∷ ("refresh_token", str "rt-up") ∷ []));
    })

abbrev pub world : ℕ → World
world now = record {
  now = now;
  noise = 0;
  names = λ _. some ("93.184.216.34" ∷ []);
  upstream = upstream;
  table = λ _. rows [];
}

abbrev pub params : AuthorizeParams
params = record {
  response_type = some "code";
  client_id = some client_url;
  redirect_uri = some back;
  code_challenge = some "AQID";
  code_challenge_method = some "S256";
  state = some "xyz";
  resource = none;
  scope = none;
}

abbrev pub validated : Validated
validated = record {
  client_id = client_url;
  redirect_uri = back;
  code_challenge = "AQID";
  state = "xyz";
  scope = "openid";
  resource_entry = entry;
  document = some document;
  via = "cimd";
}

abbrev pub own : String
own = "AAAAAAAAAAAAAAAAAAAAAAAAAAAAAAAAAAAAAAAAAAAAAAAAAAAAAAAAAAAAAAAA"

abbrev pub cid : String
cid = "AAAAAAAAAAAAA"

abbrev pub state_envelope : AuthorizeEnvelope
state_envelope = authorize_envelope validated cid own 3

abbrev pub code_of : CodeEnvelope
code_of = code_envelope state_envelope "up-code" 5

abbrev pub refresh_of : RefreshEnvelope
refresh_of = record { resource = "https://mcp.example"; upstream_refresh_token = str "rt-up" }

abbrev pub accepted : Accepted
accepted = record { redirect_uris = back ∷ []; auth_method = "none"; client_name = "App" }

-- A JSON text is named by the tag of what it holds.
abbrev named : Option String → String
named none = "o"
named (some t) =
    if t == "az"
    then "a"
    else if t == "cd"
    then "c"
    else if t == "rt"
    then "r"
    else if t == "rg"
    then "g"
    else "o"

unfoldable pub dumps : Json → String
unfolding lookup
dumps (obj fs) = named (str_of (lookup "tag" (fields fs)))
dumps _ = "o"

unfoldable pub loads : String → Option Json
unfolding payload
loads s =
    if s == "a"
    then some (object (payload (Envelope.authorize state_envelope)))
    else if s == "c"
    then some (object (payload (Envelope.code code_of)))
    else if s == "r"
    then some (object (payload (Envelope.refresh refresh_of)))
    else if s == "g"
    then some (object (payload (Envelope.registration (registration_of accepted 3))))
    else if s == "md"
    then some metadata
    else none

-- A text as it is, and no text as an empty one.
abbrev pub form_values : Json → List String
form_values (str s) = s ∷ []
form_values _ = "" ∷ []

abbrev pub platform : Platform
platform = record {
  encrypt = λ key time iv blob. mark time blob;
  decrypt = λ key ttl now token. unseal ttl now token;
  dumps = dumps;
  loads = loads;
  sha256 = λ _. 1 ∷ 2 ∷ 3 ∷ [];
  form_values = form_values;
  rsa_sign = λ _ _. [];
}

named_ascii : (t : Option String) → all_chars is_ascii_char (named t) ≡ true
unfolding all_chars
named_ascii none = refl
named_ascii (some t) = elim (Bool-cases (t == "az")) [
  | inl e ↦ rw e
  | inr e1 ↦ elim (Bool-cases (t == "cd")) [
    | inl e ↦ rw (e1, e)
    | inr e2 ↦ elim (Bool-cases (t == "rt")) [
      | inl e ↦ rw (e1, e2, e)
      | inr e3 ↦ elim (Bool-cases (t == "rg")) [
        | inl e ↦ rw (e1, e2, e3, e)
        | inr e ↦ rw (e1, e2, e3, e)
      ]
    ]
  ]
]

dumps_ascii : (v : Json) → all_chars is_ascii_char (dumps v) ≡ true
unfolding all_chars dumps
dumps_ascii (obj fs) = named_ascii (str_of (lookup "tag" (fields fs)))
dumps_ascii null = refl
dumps_ascii v = refl

pub lawful : IsLawful platform
lawful = record {
  form_values-str = λ text. refl;
  decrypt-encrypt = λ key time iv now blob. unseal-mark time now blob;
  decrypt-encrypt_live = λ key time iv ttl now blob _ live. unseal-mark_live time ttl now blob live;
  decrypt-encrypt_stale =
      λ key time iv ttl now blob stale. unseal-mark_stale time ttl now blob stale;
  encrypt_ascii = λ key time iv blob h. mark_ascii time blob h;
  dumps_ascii = dumps_ascii;
}

pub reads_state : ReadsBack platform (object (payload (Envelope.authorize state_envelope)))
unfolding dumps loads payload authorize_envelope
reads_state = refl

pub reads_code : ReadsBack platform (object (payload (Envelope.code code_of)))
unfolding dumps loads payload code_envelope authorize_envelope
reads_code = refl

pub reads_refresh : ReadsBack platform (object (payload (Envelope.refresh refresh_of)))
unfolding dumps loads payload
reads_refresh = refl

pub reads_registration :
    ReadsBack platform (object (payload (Envelope.registration (registration_of accepted 3))))
unfolding dumps loads payload
reads_registration = refl
