-- ===== src/Pat/Schema/Numbered.antt =====
-- What the check of the schema at start guarantees: `check_schema` of src/cimd_proxy/pat_store.py.
use mathlib.Core.List.{Perm}
use mathlib.Core.Path.{subst}
use cimd_proxy.Prelude.{
  ℕ, ◌≤◌, String, ◌≡◌, refl, ap, ◌∙◌, ◌⊎◌, inl, inr, true, Option, none, some, List, [], ◌∷◌, arith,
  In, Option-cases, Bool-cases, if◌then◌else◌, leb, ltb, length,
}
use cimd_proxy.Prelude.Sort.{sort-perm}
use cimd_proxy.Errors.{ok, >>=-eq-ok, ok-injective}
use cimd_proxy.Pat.Schema.{
  numbered, in_order, range, same_numbers, versions, latest_version, Migration, highest,
  current_version, check_schema,
}

same_numbers_sound : (a b : List ℕ) → same_numbers a b ≡ true → a ≡ b
same_numbers_sound [] [] h = refl
same_numbers_sound [] (y ∷ b) h = absurd (cc h)
same_numbers_sound (x ∷ a) [] h = absurd (cc h)
same_numbers_sound (x ∷ a) (y ∷ b) h =
    let e : x ≡ y = ground arith in rw (e, same_numbers_sound a b (ground arith))

-- A migration that succeeded, at a version or above it.
pub record Applied (rows : List Migration) (n : ℕ) : Type 0 where
  pub row : Migration
  pub there : In row rows
  pub succeeded : row.success ≡ true
  pub version : ℕ
  pub version_is : row.version ≡ some version
  pub reaches : n ≤ version

larger_reaches : (v n rest : ℕ) → n ≤ (if ltb rest v then v else rest) → (n ≤ v) ⊎ (n ≤ rest)
larger_reaches v n rest h = elim (Bool-cases (ltb rest v)) [
  | inl more ↦ inl (rw more at h)
  | inr other ↦ inr (rw other at h)
]

further : (m : Migration) (rows : List Migration) (n : ℕ) → Applied rows n → Applied (m ∷ rows) n
further m rows n a = record {
  row = a.row;
  there = inr a.there;
  succeeded = a.succeeded;
  version = a.version;
  version_is = a.version_is;
  reaches = a.reaches;
}

skipped :
    (m : Migration) (rows : List Migration) (n : ℕ)
    → (n ≡ 0) ⊎ Applied rows n
    → (n ≡ 0) ⊎ Applied (m ∷ rows) n
skipped m rows n (inl nothing) = inl nothing
skipped m rows n (inr a) = inr (further m rows n a)

highest_reached : (rows : List Migration) (n : ℕ) → n ≤ highest rows → (n ≡ 0) ⊎ Applied rows n
unfolding highest
highest_reached [] n h = inl (omega arith)
highest_reached (m ∷ rows) n h = elim (Bool-cases m.success) [
  | inr failed ↦ skipped m rows n (highest_reached rows n (rw failed at h))
  | inl succeeded ↦ elim (Option-cases m.version) [
    | inl unnamed ↦ skipped m rows n (highest_reached rows n (rw (succeeded, unnamed) at h))
    | inr (v, named) ↦ elim (larger_reaches v n (highest rows) (rw (succeeded, named) at h)) [
      | inr below ↦ skipped m rows n (highest_reached rows n below)
      | inl here ↦ inr (record {
        row = m;
        there = inl refl;
        succeeded = succeeded;
        version = v;
        version_is = named;
        reaches = here;
      })
    ]
  ]
]

-- The history that is there, if any.
abbrev pub rows_of : Option (List Migration) → List Migration
rows_of none = []
rows_of (some rows) = rows

current_reached :
    (history : Option (List Migration)) (n : ℕ)
    → n ≤ current_version history
    → (n ≡ 0) ⊎ Applied (rows_of history) n
unfolding current_version
current_reached none n h = inl (omega arith)
current_reached (some rows) n h = highest_reached rows n h

latest_version_sound :
    (names : List String) (n : ℕ) → latest_version names ≡ ok n → Perm (range 1 n) (numbered names)
unfolding latest_version versions in_order
latest_version_sound names n h =
    let sorted = in_order (numbered names) in
    let (found, good, h1) = >>=-eq-ok (versions names) _ h in
    elim (Bool-cases (same_numbers sorted (range 1 (length sorted)))) [
      | inr gap ↦ absurd (cc (rw gap at good))
      | inl dense ↦
          let long : length sorted ≡ n =
            ap length (ok-injective (rw dense at good)) ∙ ok-injective h1 in
          subst (λ k. Perm (range 1 k) (numbered names)) long
            (subst (λ l. Perm l (numbered names)) (same_numbers_sound _ _ dense)
              (sort-perm leb (numbered names)))
    ]

-- A start that goes through has migration files that are numbered from 1 on, each number once, and
-- where there is one, a migration of the database that succeeded at the last number or above it.
pub check_schema_sound :
    (names : List String) (history : Option (List Migration))
    → check_schema names history ≡ ok tt
    → (n : ℕ) × Perm (range 1 n) (numbered names) × ((n ≡ 0) ⊎ Applied (rows_of history) n)
unfolding check_schema
check_schema_sound names history h =
    let (needed, latest, h1) = >>=-eq-ok (latest_version names) _ h in
    (
      needed,
      latest_version_sound names needed latest,
      elim (Bool-cases (ltb (current_version history) needed)) [
        | inl behind ↦ absurd (cc (rw behind at h1))
        | inr fine ↦ current_reached history needed (ground arith)
      ],
    )
