-- ===== src/Pat/Table/WellFormed.antt =====
-- The constraints of the token table, as an invariant of every handler.
use mathlib.Core.Path.{subst}
use cimd_proxy.Prelude.{
  ◌≡◌, refl, sym, ◌∙◌, inl, inr, Bool, true, false, [], ◌∷◌, arith, Bool-cases, if◌then◌else◌, any,
  not, ◌&&◌, eqb, All,
}
use cimd_proxy.Pat.Record.{
  PatRecord, Time, Statement, insert, find_by_hash, list_for_owner, revoke, touch,
}
use cimd_proxy.Pat.Table.{
  Row, Table, update, mark_revoked, mark_used, revocable, execute, passes_checks, collides, new_row,
}
use cimd_proxy.Pat.Table.Reach.{Reach, here, next}

-- No two rows share an id or a hash.
abbrev pub Distinct : Table → Type 0
Distinct [] = Unit
Distinct (r ∷ t) = (any (collides r) t ≡ false) × Distinct t

pub record IsWellFormed (t : Table) : Type 0 where
  pub checked : All (λ r. passes_checks r ≡ true) t
  pub distinct : Distinct t

-- A change that leaves the id and the columns under a constraint alone.
record IsMild (change : PatRecord → PatRecord) : Type 0 where
  id : (r : PatRecord) → (change r).id ≡ r.id
  checks : (r : Row) → passes_checks (record r { token = change r.token }) ≡ passes_checks r

module _ (test : PatRecord → Bool) (change : PatRecord → PatRecord) (mild : IsMild change) where
  changed : Row → Row
  changed r = if test r.token then record r { token = change r.token } else r

  changed-collides :
      (a b : Row)
      → (collides (changed a) b ≡ collides a b) × (collides a (changed b) ≡ collides a b)
  unfolding changed collides
  changed-collides a b = elim (Bool-cases (test a.token)) [
    | inl p ↦ elim (Bool-cases (test b.token)) [
      | inl q ↦ rw (p, q, mild.id a.token, mild.id b.token) (refl, refl)
      | inr q ↦ rw (p, q, mild.id a.token) (refl, refl)
    ]
    | inr p ↦ elim (Bool-cases (test b.token)) [
      | inl q ↦ rw (p, q, mild.id b.token) (refl, refl)
      | inr q ↦ rw (p, q) (refl, refl)
    ]
  ]

  any-update : (a : Row) (t : Table) → any (collides a) (update test change t) ≡ any (collides a) t
  unfolding update changed
  any-update a [] = refl
  any-update a (r ∷ t) = rw ((changed-collides a r).1, any-update a t)

  any-changed : (a : Row) (t : Table) → any (collides (changed a)) t ≡ any (collides a) t
  any-changed a [] = refl
  any-changed a (r ∷ t) = rw ((changed-collides a r).0, any-changed a t)

  changed-checks : (a : Row) → passes_checks (changed a) ≡ passes_checks a
  unfolding changed
  changed-checks a = elim (Bool-cases (test a.token)) [
    | inl p ↦ rw p (mild.checks a)
    | inr p ↦ rw p
  ]

  update-checked :
      (t : Table)
      → All (λ r. passes_checks r ≡ true) t
      → All (λ r. passes_checks r ≡ true) (update test change t)
  unfolding update changed
  update-checked [] h = tt
  update-checked (r ∷ t) (h, hs) = (changed-checks r ∙ h, update-checked t hs)

  update-Distinct : (t : Table) → Distinct t → Distinct (update test change t)
  unfolding update changed
  update-Distinct [] h = tt
  update-Distinct (r ∷ t) (h, hs) =
      (any-changed r (update test change t) ∙ any-update r t ∙ h, update-Distinct t hs)

  update-IsWellFormed : (t : Table) → IsWellFormed t → IsWellFormed (update test change t)
  update-IsWellFormed t h = record {
    checked = update-checked t h.checked;
    distinct = update-Distinct t h.distinct;
  }

revoking : (now : Time) → IsMild (mark_revoked now)
unfolding mark_revoked passes_checks
revoking now = record { id = λ r. refl; checks = λ r. refl }

using : (at' : Time) → IsMild (mark_used at')
unfolding mark_used passes_checks
using at' = record { id = λ r. refl; checks = λ r. refl }

execute-IsWellFormed :
    (now : Time) (s : Statement) (t : Table) → IsWellFormed t → IsWellFormed (execute now s t).1
unfolding execute
execute-IsWellFormed now (insert x hash) t h =
    let row = new_row x hash in
    elim (Bool-cases (passes_checks row && not (any (collides row) t))) [
      | inl good ↦
          rw good
            (record { checked = (ground arith, h.checked); distinct = (ground arith, h.distinct) })
      | inr bad ↦ rw bad h
    ]
execute-IsWellFormed now (find_by_hash hash) t h = h
execute-IsWellFormed now (list_for_owner realm owner) t h = h
execute-IsWellFormed now (revoke realm owner id) t h =
    update-IsWellFormed (revocable realm owner id) (mark_revoked now) (revoking now) t h
execute-IsWellFormed now (touch id used_at) t h =
    update-IsWellFormed (λ (x : PatRecord). eqb x.id id) (mark_used used_at) (using used_at) t h

-- Whatever statements of whatever handlers follow, in any order, a table that keeps its constraints
-- still keeps them: no two rows share an id or a hash, and every row passes the checks of its columns.
pub Reach-IsWellFormed : {t u : Table} → Reach t u → IsWellFormed t → IsWellFormed u
Reach-IsWellFormed here h = h
Reach-IsWellFormed (next {u} {v} p now s e) h =
    subst IsWellFormed (sym e) (execute-IsWellFormed now s u (Reach-IsWellFormed p h))
