-- ===== src/Cache.antt =====
-- src/cimd_proxy/cache.py. A cache is its entries; the clock's reading is an argument, and the lock
-- makes each method one step. Times are in seconds.
pub mod Entries
pub mod Ttl
use Prim.Native.String.{find, len}
use cimd_proxy.Prelude.{
  ℕ, ◌+◌, String, Bool, ◌||◌, Option, none, some, List, [], ◌∷◌, leb, if◌then◌else◌, starts_with,
  lower, strip, split_at, partition, is_char, length, rstrip, lstrip,
}
use cimd_proxy.Prelude.Dict.{Dict, lookup, insert, erase}
use cimd_proxy.Prelude.Int.{ℤ, pos, negsuc, min_ℤ, max_ℤ, parse_int}

pub record Entry {ℓ} (T : Type ℓ) : Type ℓ where
  pub value : T
  pub expires_at : ℕ

abbrev pub TtlCache {ℓ} : Type ℓ → Type ℓ
TtlCache T = Dict (Entry T)

module _ {ℓ} {T : Type ℓ} where
  -- What `get` does with the entry that it finds.
  unfoldable pub judge : ℕ → String → TtlCache T → Option (Entry T) → Option T × TtlCache T
  judge now key entries none = (none, entries)
  judge now key entries (some entry) =
      if leb entry.expires_at now then (none, erase key entries) else (some entry.value, entries)

  -- `get`, with the entries that it leaves.
  unfoldable pub get : ℕ → String → TtlCache T → Option T × TtlCache T
  unfolding judge lookup erase
  get now key entries = judge now key entries (lookup key entries)

  unfoldable pub put : ℕ → String → T → ℤ → TtlCache T → TtlCache T
  unfolding insert
  put now key value (negsuc n) entries = entries
  put now key value (pos ttl) entries =
      if leb ttl 0
      then entries
      else insert key (record { value = value; expires_at = now + ttl }) entries

  unfoldable pub invalidate : String → TtlCache T → TtlCache T
  unfolding erase
  invalidate key entries = erase key entries

  unfoldable pub clear : TtlCache T → TtlCache T
  clear entries = []

  unfoldable pub size : TtlCache T → ℕ
  size entries = length entries

-- `needle in text`
abbrev has_text : String → String → Bool
has_text needle text = leb (find text needle) (len text)

-- The number behind `max-age`: `int(rhs)` of what follows `=`, quotes and white space taken off.
max_age_value : String → Option ℤ
unfolding partition strip rstrip lstrip parse_int
max_age_value directive =
    let (_, _, rhs) = partition (is_char b'=') directive in
    parse_int (rstrip (is_char 34) (lstrip (is_char 34) (strip rhs)))

unfoldable pub first_max_age : List String → Option ℤ
unfolding max_age_value strip
first_max_age [] = none
first_max_age (raw ∷ rest) =
    if starts_with (strip raw) "max-age" then max_age_value (strip raw) else first_max_age rest

unfoldable pub extract_max_age : String → Option ℤ
unfolding first_max_age split_at
extract_max_age cache_control_lower = first_max_age (split_at (is_char b',') cache_control_lower)

-- `default_ttl if default_ttl is not None else min_ttl`
abbrev pub default_or : Option ℤ → ℤ → ℤ
default_or none min_ttl = min_ttl
default_or (some ttl) min_ttl = ttl

unfoldable pub directive_base : String → Option ℤ → ℤ → Option ℤ → ℤ
directive_base cache_control_lower default_ttl min_ttl (some max_age) = max_age
directive_base cache_control_lower default_ttl min_ttl none =
    if has_text "no-store" cache_control_lower || has_text "no-cache" cache_control_lower
    then min_ttl
    else default_or default_ttl min_ttl

-- `_base_from_directive`
unfoldable pub base_from_directive : String → Option ℤ → ℤ → ℤ
unfolding directive_base
base_from_directive cache_control_lower default_ttl min_ttl =
    directive_base cache_control_lower default_ttl min_ttl (extract_max_age cache_control_lower)

abbrev base_of : Option String → Option ℤ → ℤ → ℤ
base_of none default_ttl min_ttl = default_or default_ttl min_ttl
base_of (some cache_control) default_ttl min_ttl =
    base_from_directive (lower cache_control) default_ttl min_ttl

unfoldable pub choose_ttl : Option String → ℤ → ℤ → Option ℤ → ℤ
unfolding lower
choose_ttl cache_control min_ttl max_ttl default_ttl =
    max_ℤ min_ttl (min_ℤ (base_of cache_control default_ttl min_ttl) max_ttl)
