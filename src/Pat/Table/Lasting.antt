-- ===== src/Pat/Table/Lasting.antt =====
-- What no statement of src/cimd_proxy/pat_store.py changes in a row.
use mathlib.Core.Path.{subst}
use cimd_proxy.Prelude.{
  ◌≡◌, refl, sym, ap, ◌∙◌, inl, inr, Bool, true, some, [], ◌∷◌, arith, In, Bool-cases, any, not,
  ◌&&◌, eqb,
}
use cimd_proxy.Pat.Record.{
  PatRecord, Time, Uuid, Statement, insert, find_by_hash, list_for_owner, revoke, touch,
}
use cimd_proxy.Pat.Table.{
  Row, Table, update, mark_revoked, mark_used, revocable, execute, passes_checks, collides, new_row,
}
use cimd_proxy.Pat.Table.Reach.{Reach, here, next}

-- A later state of a row: every column but the two times is the same, and a revocation stays as it
-- was made.
pub record Continues (r r' : Row) : Type 0 where
  pub same :
      r'.token
      ≡ record r.token { last_used_at = r'.token.last_used_at; revoked_at = r'.token.revoked_at }
  pub hash : r'.token_hash ≡ r.token_hash
  pub stays : (at' : Time) → r.token.revoked_at ≡ some at' → r'.token.revoked_at ≡ some at'

pub Continues-refl : (r : Row) → Continues r r
Continues-refl r = record { same = refl; hash = refl; stays = λ _ h. h }

pub Continues-trans : (a b c : Row) → Continues a b → Continues b c → Continues a c
Continues-trans a b c p q = record {
  same =
      q.same
      ∙ ap
          (λ (x : PatRecord). record x {
            last_used_at = c.token.last_used_at;
            revoked_at = c.token.revoked_at;
          })
          p.same;
  hash = q.hash ∙ p.hash;
  stays = λ at' h. q.stays at' (p.stays at' h);
}

abbrev pub Lasts : Row → Table → Type 0
Lasts r t = (r' : Row) × In r' t × Continues r r'

update-Lasts :
    (test : PatRecord → Bool) (change : PatRecord → PatRecord)
    (lasting : (r : Row) → test r.token ≡ true → Continues r (record r { token = change r.token }))
    (t : Table) (r : Row)
    → In r t
    → Lasts r (update test change t)
unfolding update
update-Lasts test change lasting [] r m = absurd m
update-Lasts test change lasting (x ∷ t) r (inl e) = elim (Bool-cases (test x.token)) [
  | inl yes' ↦ rw (yes', e) (record x { token = change x.token }, inl refl, lasting x yes')
  | inr no' ↦ rw (no', e) (x, inl refl, Continues-refl x)
]
update-Lasts test change lasting (x ∷ t) r (inr m) =
    let (r', m', c) = update-Lasts test change lasting t r m in (r', inr m', c)

revoking :
    (now : Time) (realm owner : _) (id : Uuid) (r : Row)
    → revocable realm owner id r.token ≡ true
    → Continues r (record r { token = mark_revoked now r.token })
unfolding revocable mark_revoked
revoking now realm owner id r h = record {
  same = refl;
  hash = refl;
  stays = λ at' e. absurd (ground arith);
}

using : (at' : Time) (r : Row) → Continues r (record r { token = mark_used at' r.token })
unfolding mark_used
using at' r = record { same = refl; hash = refl; stays = λ _ h. h }

execute-Lasts :
    (now : Time) (s : Statement) (t : Table) (r : Row) → In r t → Lasts r (execute now s t).1
unfolding execute
execute-Lasts now (insert x hash) t r m =
    let row = new_row x hash in
    elim (Bool-cases (passes_checks row && not (any (collides row) t))) [
      | inl good ↦ rw good (r, inr m, Continues-refl r)
      | inr bad ↦ rw bad (r, m, Continues-refl r)
    ]
execute-Lasts now (find_by_hash hash) t r m = (r, m, Continues-refl r)
execute-Lasts now (list_for_owner realm owner) t r m = (r, m, Continues-refl r)
execute-Lasts now (revoke realm owner id) t r m =
    update-Lasts (revocable realm owner id) (mark_revoked now) (revoking now realm owner id) t r m
execute-Lasts now (touch id used_at) t r m =
    update-Lasts (λ (x : PatRecord). eqb x.id id) (mark_used used_at) (λ x _. using used_at x) t r m

-- Whatever statements of whatever handlers follow, in any order, every row of the table is still there:
-- none of its columns but the two times has changed, and where it was revoked, it is revoked at the
-- same time.
pub Reach-Lasts : {t u : Table} → Reach t u → (r : Row) → In r t → Lasts r u
Reach-Lasts here r m = (r, m, Continues-refl r)
Reach-Lasts (next {u} {v} p now s e) r m =
    let (r1, here1, c1) = Reach-Lasts p r m in
    let (r2, here2, c2) = execute-Lasts now s u r1 here1 in
    (r2, subst (In r2) (sym e) here2, Continues-trans r r1 r2 c1 c2)
