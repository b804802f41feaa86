-- ===== src/Cache/Ttl.antt =====
-- How long a document is kept: `choose_ttl` of src/cimd_proxy/cache.py.
use cimd_proxy.Prelude.{String, ◌≡◌, refl, Option, none, some, lower}
use cimd_proxy.Prelude.Int.{ℤ, pos, min_ℤ, max_ℤ, ◌≤ℤ◌, ≤ℤ_clamp, parse_int}
use cimd_proxy.Cache.{choose_ttl, base_from_directive, extract_max_age}

-- Where the lower bound is no greater than the upper, the lifetime lies between the two, whatever
-- the header says.
pub choose_ttl_bounds :
    (cache_control : Option String) (lo hi : ℤ) (default_ttl : Option ℤ)
    → lo ≤ℤ hi
    → (lo ≤ℤ choose_ttl cache_control lo hi default_ttl)
      × (choose_ttl cache_control lo hi default_ttl ≤ℤ hi)
unfolding choose_ttl
choose_ttl_bounds cache_control lo hi default_ttl h = ≤ℤ_clamp lo _ hi h

-- Where the header names a `max-age`, nothing else in the header counts: `no-store` and `no-cache`
-- do not bring the lifetime down to the minimum.
pub choose_ttl-max_age :
    (cache_control : String) (lo hi age : ℤ) (default_ttl : Option ℤ)
    → extract_max_age (lower cache_control) ≡ some age
    → choose_ttl (some cache_control) lo hi default_ttl ≡ max_ℤ lo (min_ℤ age hi)
unfolding choose_ttl base_from_directive
choose_ttl-max_age cache_control lo hi age default_ttl h = rw h

no_store_is_outweighed :
    choose_ttl (some "No-Store, max-age=86400") (pos 300) (pos 86400) none ≡ pos 86400
unfolding choose_ttl base_from_directive extract_max_age parse_int
no_store_is_outweighed = refl

no_store_alone : choose_ttl (some "no-store") (pos 300) (pos 86400) none ≡ pos 300
unfolding choose_ttl base_from_directive extract_max_age
no_store_alone = refl
