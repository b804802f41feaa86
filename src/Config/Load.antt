-- ===== src/Config/Load.antt =====
-- `load_config` and `_load_pat` of src/cimd_proxy/config.py.
use cimd_proxy.Prelude.{
  ℕ, String, ◌<>◌, Bool, false, not, ◌&&◌, ◌||◌, Option, none, some, List, [], ◌∷◌, ◌==◌,
  if◌then◌else◌, leb, ltb, is_truthy, is_empty, any, keep, join, strip, rstrip, rstrip_slash,
  split_words, starts_with, is_char, is_digit, all_chars, repr, is_lower,
}
use cimd_proxy.Prelude.Int.{ℤ}
use cimd_proxy.Errors.{Result, ok, ◌>>=◌, ◌>>◌}
use Prim.Native.String.{count}
use cimd_proxy.Assertion.{AssertionSigner}
use cimd_proxy.Config.{ResourceEntry, ProxyConfig, PatConfig, accepts_pat}
use cimd_proxy.Config.Signer.{Pem, names, sorted, load_signer}
use cimd_proxy.Config.Env.{
  Env, config_refused, refuse_if, value_or, required, int_of, bool_of, positive, parse_scope_string,
  or_default, upper,
}
use cimd_proxy.Config.Resources.{load_resources}

-- `_SCHEMA_NAME`: a lower-case letter or an underscore, and up to 62
-- of these and digits.
unfoldable pub is_schema_name : String → Bool
unfolding all_chars
is_schema_name String.[] = false
is_schema_name (String.◌∷◌ c s) =
    (is_lower c || is_char b'_' c)
    && leb (count s) 62
    && all_chars (λ d. is_lower d || is_digit d || is_char b'_' d) s

-- `"_PAT_CLIENT_" in key`
unfoldable pub names_pat_client : String → Bool
names_pat_client String.[] = false
names_pat_client (String.◌∷◌ c s) =
    starts_with (String.◌∷◌ c s) "_PAT_CLIENT_" || names_pat_client s

-- The keys of the block that are set.
unfoldable pub stray : Env → List String
unfolding sorted names_pat_client strip
stray env = sorted (
    names (
      keep
        (λ ((k, v) : String × String).
          (starts_with k "PAT_" || names_pat_client k) && is_truthy (strip v))
        env))

-- The loop over the resources that accept personal access tokens.
unfoldable pub check_issuers : (realm_issuer : String) → List ResourceEntry → Result (Unit {0})
check_issuers realm_issuer [] = ok tt
check_issuers realm_issuer (r ∷ rs) = do
  refuse_if (not (r.issuer == realm_issuer)) (
      "resource "
      <> repr r.url
      <> " accepts personal access tokens but its issuer "
      <> repr r.issuer
      <> " is not PAT_REALM_ISSUER "
      <> repr realm_issuer)
  check_issuers realm_issuer rs

pub record Limits : Type 0 where
  pub port : ℤ
  pub cimd_debug : Bool
  pub ttl_min : ℕ
  pub ttl_max : ℕ
  pub max_bytes : ℕ
  pub fetch_timeout : ℕ

pub record Tables : Type 0 where
  pub default_resource : String
  pub resources : List ResourceEntry
  pub pat : Option PatConfig

-- What `float(text)` gives, as far as the program looks at it: whether it is at most 0, and the
-- number in milliseconds. `none` is the `ValueError`.
pub record Seconds : Type 0 where
  pub nonpositive : Bool
  pub milliseconds : ℕ

-- The signer, when the loop of its keys has ended.
abbrev pub signer_or_raise : Option (Result AssertionSigner) → Result AssertionSigner
signer_or_raise none = config_refused "out of fuel"
signer_or_raise (some r) = r

module _ (file : String → Option Pem) (seconds : String → Option Seconds) where
  -- The block where it is switched on.
  unfoldable pub load_pat_block :
      Env → (public_url : String) → List ResourceEntry → (database_url : String) → Result PatConfig
  unfolding is_schema_name required value_or strip split_words rstrip check_issuers load_signer
  load_pat_block env public_url resources database_url = do
    let schema = strip (value_or "cimd_proxy" "PAT_DATABASE_SCHEMA" env)
    refuse_if (not (is_schema_name schema))
        ("PAT_DATABASE_SCHEMA " <> repr schema <> " is not a plain lower-case identifier")
    realm ← required env "PAT_REALM_ISSUER"
    scopes ← required env "PAT_SCOPES"
    let pat_resources = keep accepts_pat resources
    refuse_if (is_empty pat_resources)
        "PAT_DATABASE_URL is set but no RESOURCE_n_PAT_CLIENT_ID is; a personal access token could not name any resource"
    check_issuers (rstrip_slash realm) pat_resources
    idp_alias ← required env "PAT_IDP_ALIAS"
    admin_client_id ← required env "PAT_ADMIN_CLIENT_ID"
    admin_client_secret ← required env "PAT_ADMIN_CLIENT_SECRET"
    signer ← signer_or_raise (load_signer file env public_url)
    ok (record {
      database_url = database_url;
      database_schema = schema;
      realm_issuer = rstrip_slash realm;
      idp_alias = idp_alias;
      admin_client_id = admin_client_id;
      admin_client_secret = admin_client_secret;
      scopes = split_words scopes;
      signer = signer;
    })

  -- `_load_pat`
  unfoldable pub load_pat :
      Env → (public_url : String) → List ResourceEntry → Result (Option PatConfig)
  unfolding stray load_pat_block value_or strip join
  load_pat env public_url resources =
      let database_url = strip (value_or "" "PAT_DATABASE_URL" env) in
      if is_truthy database_url
      then (do block ← load_pat_block env public_url resources database_url; ok (some block))
      else refuse_if (not (is_empty (stray env))) (
          join ", " (stray env)
          <> " set but PAT_DATABASE_URL is not; personal access tokens are either fully configured or off")
        >> ok none

  -- `_float` with the test that follows it.
  unfoldable pub timeout_of : String → Result ℕ
  timeout_of raw = parsed (seconds raw)
    where
      parsed : Option Seconds → Result ℕ
      parsed none = config_refused ("CIMD_FETCH_TIMEOUT must be a number, got " <> repr raw)
      parsed (some s) =
          if s.nonpositive
          then config_refused "CIMD_FETCH_TIMEOUT must be positive"
          else ok s.milliseconds

  -- The part of `load_config` that reads the numbers and the switch.
  unfoldable pub load_limits : Env → Result Limits
  unfolding value_or int_of bool_of positive timeout_of
  load_limits env = do
    port ← int_of (value_or "8080" "PROXY_PORT" env) "PROXY_PORT"
    cimd_debug ← bool_of (value_or "false" "CIMD_DEBUG" env) "CIMD_DEBUG"
    min ← int_of (value_or "300" "CIMD_CACHE_TTL_MIN" env) "CIMD_CACHE_TTL_MIN"
    max ← int_of (value_or "86400" "CIMD_CACHE_TTL_MAX" env) "CIMD_CACHE_TTL_MAX"
    ttl_min ← positive min "CIMD_CACHE_TTL_MIN and CIMD_CACHE_TTL_MAX must be positive"
    ttl_max ← positive max "CIMD_CACHE_TTL_MIN and CIMD_CACHE_TTL_MAX must be positive"
    refuse_if (ltb ttl_max ttl_min) "CIMD_CACHE_TTL_MIN must be <= CIMD_CACHE_TTL_MAX"
    bytes ← int_of (value_or "5120" "CIMD_MAX_BYTES" env) "CIMD_MAX_BYTES"
    max_bytes ← positive bytes "CIMD_MAX_BYTES must be positive"
    fetch_timeout ← timeout_of (value_or "5" "CIMD_FETCH_TIMEOUT" env)
    ok (record {
      port = port;
      cimd_debug = cimd_debug;
      ttl_min = ttl_min;
      ttl_max = ttl_max;
      max_bytes = max_bytes;
      fetch_timeout = fetch_timeout;
    })

  -- The part that reads the table of resources and the block of the personal access tokens.
  unfoldable pub load_tables : Env → (public_url : String) → Result Tables
  unfolding value_or strip load_resources load_pat
  load_tables env public_url = do
    let default_resource = strip (value_or "" "DEFAULT_RESOURCE" env)
    resources ← load_resources env
    refuse_if
        (is_truthy default_resource
          && not (any (λ (r : ResourceEntry). r.url == default_resource) resources))
        ("DEFAULT_RESOURCE " <> repr default_resource <> " is not present in the RESOURCE_n table")
    pat ← load_pat env public_url resources
    ok (record { default_resource = default_resource; resources = resources; pat = pat })

  unfoldable pub load_config : Env → Result ProxyConfig
  unfolding required value_or parse_scope_string strip upper split_words rstrip load_limits
      load_tables
  load_config env = do
    public_url ← required env "PROXY_PUBLIC_URL"
    secret_key ← required env "PROXY_SECRET_KEY"
    limits ← load_limits env
    tables ← load_tables env (rstrip_slash public_url)
    ok (record {
      public_url = rstrip_slash public_url;
      secret_key = secret_key;
      port = limits.port;
      bind_host = or_default (strip (value_or "0.0.0.0" "PROXY_BIND_HOST" env)) "0.0.0.0";
      log_level = or_default (upper (strip (value_or "INFO" "LOG_LEVEL" env))) "INFO";
      cimd_debug = limits.cimd_debug;
      cimd_cache_ttl_min = limits.ttl_min;
      cimd_cache_ttl_max = limits.ttl_max;
      cimd_max_bytes = limits.max_bytes;
      cimd_fetch_timeout = limits.fetch_timeout;
      default_resource = tables.default_resource;
      scopes_supported =
          split_words (value_or "openid offline_access" "PROXY_SCOPES_SUPPORTED" env);
      default_scope =
          parse_scope_string (value_or "openid offline_access" "PROXY_DEFAULT_SCOPE" env);
      resources = tables.resources;
      pat = tables.pat;
    })
