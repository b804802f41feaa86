-- ===== src/Config/Loaded.antt =====
-- What a whole configuration guarantees: `load_config` of src/cimd_proxy/config.py.
use cimd_proxy.Prelude.{
  ℕ, ◌<◌, ◌≤◌, String, ◌≡◌, ◌⊎◌, true, false, Option, none, some, refl, All, In, length, is_truthy,
}
use cimd_proxy.Config.{ResourceEntry, ProxyConfig}
use cimd_proxy.Config.Env.{Env}
use cimd_proxy.Config.Resources.{resource_index}
use cimd_proxy.Config.Signer.{Pem}
use cimd_proxy.Config.Load.{Seconds, Limits, Tables}
use cimd_proxy.Config.Sound.{AreEntries}
use cimd_proxy.Config.Block.{IsBlockOrOff}

module _ (file : String → Option Pem) (seconds : String → Option Seconds) where
  -- The bounds of the cache and the limit of a document.
  pub record IsBounded (l : Limits) : Type 0 where
    pub ttl_positive : 1 ≤ l.ttl_min
    pub ttl_ordered : l.ttl_min ≤ l.ttl_max
    pub bytes_positive : 1 ≤ l.max_bytes

  abbrev pub IsBelow : ℕ → Option ℕ → Type 0
  IsBelow bound none = Unit
  IsBelow bound (some n) = n < bound

  -- No key of the environment names an index from the bound on.
  abbrev pub Covers : Env → ℕ → Type 0
  Covers env bound =
      All (λ ((key, value) : String × String). IsBelow bound (resource_index key)) env

  below : (bound : ℕ) (o : Option ℕ) → ((n : ℕ) → o ≡ some n → n < bound) → IsBelow bound o
  below bound none h = tt
  below bound (some n) h = h n refl

  -- The table of resources with the default and the block.
  pub record IsTables (env : Env) (t : Tables) : Type 0 where
    pub entries : AreEntries env 0 t.resources
    pub complete : Covers env (length t.resources)
    pub default_known :
        (is_truthy t.default_resource ≡ false)
        ⊎ ((r : ResourceEntry) × In r t.resources × (r.url ≡ t.default_resource))
    pub block : IsBlockOrOff file seconds env t.resources t.pat

  -- A configuration that the program can run with.
  pub record IsLoaded (env : Env) (c : ProxyConfig) : Type 0 where
    pub secret : is_truthy c.secret_key ≡ true
    pub ttl_positive : 1 ≤ c.cimd_cache_ttl_min
    pub ttl_ordered : c.cimd_cache_ttl_min ≤ c.cimd_cache_ttl_max
    pub bytes_positive : 1 ≤ c.cimd_max_bytes
    pub entries : AreEntries env 0 c.resources
    pub complete : Covers env (length c.resources)
    pub default_known :
        (is_truthy c.default_resource ≡ false)
        ⊎ ((r : ResourceEntry) × In r c.resources × (r.url ≡ c.default_resource))
    pub block : IsBlockOrOff file seconds env c.resources c.pat
