-- ===== src/Cache/Entries.antt =====
-- What `get` returns after `put`: src/cimd_proxy/cache.py.
use cimd_proxy.Prelude.{
  ℕ, ◌+◌, ◌≤◌, ◌<◌, String, ◌≡◌, refl, ◌⊎◌, inl, inr, Bool, false, Option, none, some, arith, leb,
  ltb, ◌&&◌, ◌==◌, eq_iff, if◌then◌else◌, Bool-cases, Option-cases,
}
use cimd_proxy.Prelude.Dict.{lookup, lookup-insert, lookup-erase}
use cimd_proxy.Prelude.Int.{ℤ, pos, negsuc}
use cimd_proxy.Cache.{Entry, TtlCache, get, put}

-- A lifetime that `put` keeps.
abbrev pub is_positive : ℤ → Bool
is_positive (pos n) = ltb 0 n
is_positive (negsuc n) = false

-- `now + ttl`
abbrev pub expiry : ℕ → ℤ → ℕ
expiry now (pos ttl) = now + ttl
expiry now (negsuc n) = now

module _ {ℓ} {T : Type ℓ} where
  -- What a read finds is what the dictionary holds, if it has not expired.
  pub get-live :
      (now : ℕ) (key : String) (c : TtlCache T) (v : T)
      → (get now key c).0 ≡ some v
      → (e : Entry T) × (lookup key c ≡ some e)
        × (e.value ≡ v)
        × (now < e.expires_at)
        × ((get now key c).1 ≡ c)
  unfolding get
  get-live now key c v h = elim (Option-cases (lookup key c)) [
    | inl e ↦ absurd (ground (arith, e))
    | inr (e, found) ↦
        (e, found, ground (arith, found), ground (arith, found), ground (arith, found))
  ]

  -- The value that `get` returns for a key, from the entry that the dictionary holds.
  abbrev seen : ℕ → Option (Entry T) → Option T
  seen now none = none
  seen now (some e) = if leb e.expires_at now then none else some e.value

  get-seen : (now : ℕ) (key : String) (c : TtlCache T) → (get now key c).0 ≡ seen now (lookup key c)
  unfolding get
  get-seen now key c = elim (Option-cases (lookup key c)) [
    | inl e ↦ rw e
    | inr (x, e) ↦ ground (arith, e)
  ]

  pub lookup-put :
      (now : ℕ) (k j : String) (v : T) (ttl : ℤ) (c : TtlCache T)
      → lookup j (put now k v ttl c) ≡ (
          if is_positive ttl && k == j
          then some (record { value = v; expires_at = expiry now ttl })
          else lookup j c)
  unfolding put
  lookup-put now k j v (negsuc n) c = refl
  lookup-put now k j v (pos ttl) c =
      ground (arith, lookup-insert k j (record { value = v; expires_at = now + ttl }) c)

  -- After `put` a key reads as its new value up to the expiry and as nothing from then on; a lifetime
  -- of zero or less stores nothing; and every other key reads as before.
  pub get-put :
      (now later : ℕ) (k j : String) (v : T) (ttl : ℤ) (c : TtlCache T)
      → (get later j (put now k v ttl c)).0 ≡ (
          if is_positive ttl && k == j
          then (if leb (expiry now ttl) later then none else some v)
          else (get later j c).0)
  get-put now later k j v ttl c = rw (get-seen, get-seen, lookup-put) (ground arith)

  pub lookup-get :
      (now : ℕ) (k j : String) (c : TtlCache T)
      → (lookup j (get now k c).1 ≡ lookup j c)
        ⊎ ((e : Entry T) × (lookup j c ≡ some e)
            × (e.expires_at ≤ now)
            × (lookup j (get now k c).1 ≡ none))
  unfolding get
  lookup-get now k j c = elim (Option-cases (lookup k c)) [
    | inl e ↦ inl (rw e)
    | inr (x, e) ↦ elim (Bool-cases (leb x.expires_at now && k == j)) [
      | inl gone ↦
          inr
            (x, ground (arith, e, eq_iff k j), ground arith, ground (arith, e, lookup-erase k j c))
      | inr kept ↦ inl (ground (arith, e, lookup-erase k j c))
    ]
  ]

  -- A read removes expired entries alone: whatever is read, later reads give the same.
  pub get-get :
      (now later : ℕ) (k j : String) (c : TtlCache T)
      → now ≤ later
      → (get later j (get now k c).1).0 ≡ (get later j c).0
  get-get now later k j c h =
      rw (get-seen, get-seen)
        (elim (lookup-get now k j c) [
          | inl same ↦ rw same
          | inr (e, found, old, gone) ↦ rw (found, gone) (ground arith)
        ])
