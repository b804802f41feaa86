-- ===== src/Config.antt =====
-- src/cimd_proxy/config.py: the configuration and the lookup of a resource. A timeout is in
-- milliseconds.
pub mod Lookup
pub mod Env
pub mod Resources
pub mod Signer
pub mod Load
pub mod Sound
pub mod Block
pub mod Loaded
use cimd_proxy.Prelude.{
  ℕ, String, Bool, true, false, not, ◌&&◌, ◌||◌, Option, none, some, List, [], ◌∷◌, map, ◌==◌,
  if◌then◌else◌, is_truthy,
}
use cimd_proxy.Prelude.Int.{ℤ}
use cimd_proxy.Errors.{Result, ok, err, ◌>>=◌}
use cimd_proxy.Url.{SplitResult, urlsplit, without_path}
use cimd_proxy.Assertion.{AssertionSigner}

pub record ResourceEntry : Type 0 where
  pub url : String
  pub issuer : String
  pub client_id : String
  pub client_secret : String
  pub pat_client_id : String
  pub pat_client_secret : String

abbrev pub is_public : ResourceEntry → Bool
is_public e = not (is_truthy e.client_secret)

abbrev pub accepts_pat : ResourceEntry → Bool
accepts_pat e = is_truthy e.pat_client_id

pub record PatConfig : Type 0 where
  pub database_url : String
  pub database_schema : String
  pub realm_issuer : String
  pub idp_alias : String
  pub admin_client_id : String
  pub admin_client_secret : String
  pub scopes : List String
  pub signer : AssertionSigner

pub record ProxyConfig : Type 0 where
  pub public_url : String
  pub secret_key : String
  pub port : ℤ
  pub bind_host : String
  pub log_level : String
  pub cimd_debug : Bool
  pub cimd_cache_ttl_min : ℕ
  pub cimd_cache_ttl_max : ℕ
  pub cimd_max_bytes : ℕ
  pub cimd_fetch_timeout : ℕ
  pub default_resource : String
  pub scopes_supported : List String
  pub default_scope : String
  pub resources : List ResourceEntry
  pub pat : Option PatConfig

-- `_normalise_requested_url`, after `urlsplit`.
unfoldable pub fold_root : String → SplitResult → String
fold_root url parts =
    if parts.path == "/" && not (is_truthy parts.query) && not (is_truthy parts.fragment)
    then without_path parts
    else url

unfoldable pub normalise_requested_url : String → Result String
unfolding fold_root
normalise_requested_url url =
    if not (is_truthy url) then ok url else (do parts ← urlsplit url; ok (fold_root url parts))

-- The loop of `resource_by_url`.
unfoldable pub entry_with_url : String → List ResourceEntry → Option ResourceEntry
entry_with_url target [] = none
entry_with_url target (e ∷ es) = if e.url == target then some e else entry_with_url target es

unfoldable pub resource_by_url : ProxyConfig → String → Result (Option ResourceEntry)
resource_by_url config url = do
  target ← normalise_requested_url url
  ok (entry_with_url target config.resources)

abbrev pub known_resources : ProxyConfig → List String
known_resources config = map (λ (e : ResourceEntry). e.url) config.resources
