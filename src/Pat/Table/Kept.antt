-- ===== src/Pat/Table/Kept.antt =====
-- The constraints of src/cimd_proxy/migrations/V1__personal_access_token.sql, written out.
use Prim.Native.String.{count}
use cimd_proxy.Prelude.{
  ◌≤◌, ◌<◌, ◌≡◌, ◌≢◌, ◌↔◌, refl, inl, inr, true, false, [], ◌∷◌, arith, All, Bool-cases, any,
  is_truthy, is_empty, length, eqb,
}
use cimd_proxy.Pat.Table.{Row, Table, same_bytes, passes_checks, collides}
use cimd_proxy.Pat.Table.Reach.{Reach}
use cimd_proxy.Pat.Table.WellFormed.{Distinct, Reach-IsWellFormed}
use cimd_proxy.Pat.Table.Find.{same_bytes_refl, same_bytes_sound, clash, apart}

-- What a row is checked for.
pub record IsChecked (r : Row) : Type 0 where
  pub tenant : is_truthy r.token.tenant ≡ true
  pub name : (1 ≤ count r.token.name) × (count r.token.name ≤ 100)
  pub hash : length r.token_hash ≡ 32
  pub resources : is_empty r.token.resources ≡ false
  pub lifetime : r.token.created_at < r.token.expires_at

-- No two rows have one id or one hash.
abbrev pub Apart : Table → Type 0
Apart [] = Unit
Apart (r ∷ t) =
    All (λ (s : Row). (r.token.id ≢ s.token.id) × (r.token_hash ≢ s.token_hash)) t × Apart t

pub record IsKept (t : Table) : Type 0 where
  pub checked : All IsChecked t
  pub unique : Apart t

passes_checks-IsChecked : (r : Row) → (passes_checks r ≡ true) ↔ IsChecked r
unfolding passes_checks
passes_checks-IsChecked r = (
  λ h. record {
    tenant = ground arith;
    name = (ground arith, ground arith);
    hash = ground arith;
    resources = ground arith;
    lifetime = ground arith;
  },
  λ c. ground (arith, c.tenant, c.name.0, c.name.1, c.hash, c.resources, c.lifetime),
)

IsChecked-rows : (t : Table) → All (λ r. passes_checks r ≡ true) t ↔ All IsChecked t
IsChecked-rows [] = (λ h. tt, λ h. tt)
IsChecked-rows (r ∷ t) = (
  λ (h, hs). ((passes_checks-IsChecked r).0 h, (IsChecked-rows t).0 hs),
  λ (h, hs). ((passes_checks-IsChecked r).1 h, (IsChecked-rows t).1 hs),
)

collides-none :
    (a b : Row)
    → (collides a b ≡ false) ↔ ((a.token.id ≢ b.token.id) × (a.token_hash ≢ b.token_hash))
unfolding collides
collides-none a b = (
  λ h. (apart a b h, λ e. clash a b h (rw e (same_bytes_refl b.token_hash))),
  λ (ids, hashes). elim (Bool-cases (same_bytes a.token_hash b.token_hash)) [
    | inl same ↦ absurd (hashes (same_bytes_sound a.token_hash b.token_hash same))
    | inr other ↦ elim (Bool-cases (eqb a.token.id b.token.id)) [
      | inl same ↦ absurd (ids (ground arith))
      | inr apart' ↦ rw (apart', other) refl
    ]
  ],
)

none_collides :
    (a : Row) (t : Table)
    → (any (collides a) t ≡ false)
      ↔ All (λ (s : Row). (a.token.id ≢ s.token.id) × (a.token_hash ≢ s.token_hash)) t
none_collides a [] = (λ h. tt, λ h. refl)
none_collides a (x ∷ t) = (
  λ h. ((collides-none a x).0 (ground arith), (none_collides a t).0 (ground arith)),
  λ (h, hs).
      let first : collides a x ≡ false = (collides-none a x).1 h in
      let rest : any (collides a) t ≡ false = (none_collides a t).1 hs in ground arith,
)

Distinct-Apart : (t : Table) → Distinct t ↔ Apart t
Distinct-Apart [] = (λ h. tt, λ h. tt)
Distinct-Apart (r ∷ t) = (
  λ (h, hs). ((none_collides r t).0 h, (Distinct-Apart t).0 hs),
  λ (h, hs). ((none_collides r t).1 h, (Distinct-Apart t).1 hs),
)

-- Whatever statements follow, a table keeps its constraints: each row has an organization, a name of
-- 1 to 100 characters, a hash of 32 bytes, a resource, and an expiry after its creation, and no two
-- rows have one id or one hash.
pub Reach-IsKept : {t t' : Table} → Reach t t' → IsKept t → IsKept t'
Reach-IsKept {t} {t'} later kept =
    let after = Reach-IsWellFormed later (record {
      checked = (IsChecked-rows t).1 kept.checked;
      distinct = (Distinct-Apart t).1 kept.unique;
    }) in
    record {
      checked = (IsChecked-rows t').0 after.checked;
      unique = (Distinct-Apart t').0 after.distinct;
    }
