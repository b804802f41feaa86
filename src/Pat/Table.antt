-- ===== src/Pat/Table.antt =====
-- The token table: what the statements of src/cimd_proxy/pat_store.py do to it, under the constraints
-- of src/cimd_proxy/migrations/V1__personal_access_token.sql. Each statement is a
-- transaction. The order of the rows means nothing.
pub mod Play
pub mod Reach
pub mod Lasting
pub mod WellFormed
pub mod Laws
pub mod Find
pub mod Kept
use Prim.Native.String.{count}
use cimd_proxy.Prelude.{
  ℕ, zero, suc, ◌+◌, String, Bool, true, false, not, ◌&&◌, ◌||◌, Option, none, some, List, [], ◌∷◌,
  ◌==◌, map, if◌then◌else◌, eqb, leb, ltb, is_truthy, is_some, is_empty, length, any, keep,
}
use cimd_proxy.Prelude.Sort.{sort}
use cimd_proxy.Pat.Record.{
  PatRecord, Time, Uuid, Statement, Answer, insert, find_by_hash, list_for_owner, revoke, touch,
  rows, row_count, violated,
}

-- The columns that the program reads, and the hash.
pub record Row : Type 0 where
  pub token : PatRecord
  pub token_hash : List ℕ

abbrev pub Table : Type 0
Table = List Row

-- Equality of byte strings.
abbrev pub same_bytes : List ℕ → List ℕ → Bool
same_bytes [] [] = true
same_bytes (a ∷ as') (b ∷ bs) = eqb a b && same_bytes as' bs
same_bytes [] (b ∷ bs) = false
same_bytes (a ∷ as') [] = false

-- The CHECK constraints.
unfoldable pub passes_checks : Row → Bool
passes_checks r =
    is_truthy r.token.tenant
    && leb 1 (count r.token.name)
    && leb (count r.token.name) 100
    && eqb (length r.token_hash) 32
    && not (is_empty r.token.resources)
    && ltb r.token.created_at r.token.expires_at

-- The PRIMARY KEY and the UNIQUE constraint: a row with the same id or the same hash.
unfoldable pub collides : Row → Row → Bool
collides a b = eqb a.token.id b.token.id || same_bytes a.token_hash b.token_hash

-- The row that `insert` writes: the two columns that it does not name are NULL.
unfoldable pub new_row : PatRecord → List ℕ → Row
new_row r hash = record {
  token = record r { last_used_at = none; revoked_at = none };
  token_hash = hash;
}

unfoldable pub owned : String → String → PatRecord → Bool
owned realm owner r = r.realm_issuer == realm && r.owner_sub == owner

-- The WHERE clause of `_q_revoke`.
unfoldable pub revocable : String → String → Uuid → PatRecord → Bool
unfolding owned
revocable realm owner id r = eqb r.id id && owned realm owner r && not (is_some r.revoked_at)

-- ORDER BY created_at, id
unfoldable pub precedes : PatRecord → PatRecord → Bool
precedes a b = ltb a.created_at b.created_at || (eqb a.created_at b.created_at && leb a.id b.id)

unfoldable pub ordered : List PatRecord → List PatRecord
unfolding precedes sort
ordered = sort precedes

-- UPDATE: the rows that pass the test are changed.
unfoldable pub update : (PatRecord → Bool) → (PatRecord → PatRecord) → Table → Table
update test change [] = []
update test change (r ∷ t) =
    (if test r.token then record r { token = change r.token } else r) ∷ update test change t

unfoldable pub mark_revoked : Time → PatRecord → PatRecord
mark_revoked now r = record r { revoked_at = some now }

unfoldable pub mark_used : Time → PatRecord → PatRecord
mark_used at' r = record r { last_used_at = some at' }

abbrev pub tokens : Table → List PatRecord
tokens = map (λ (r : Row). r.token)

-- A statement at a time, with what it gives back and the table after it.
unfoldable pub execute : Time → Statement → Table → Answer × Table
unfolding passes_checks collides new_row ordered update revocable owned mark_revoked mark_used
execute now (insert r hash) t =
    let row = new_row r hash in
    if passes_checks row && not (any (collides row) t)
    then (row_count 1, row ∷ t)
    else (violated, t)
execute now (find_by_hash hash) t =
    (rows (tokens (keep (λ (r : Row). same_bytes r.token_hash hash) t)), t)
execute now (list_for_owner realm owner) t =
    (rows (ordered (keep (owned realm owner) (tokens t))), t)
execute now (revoke realm owner id) t = (
  row_count (length (keep (revocable realm owner id) (tokens t))),
  update (revocable realm owner id) (mark_revoked now) t,
)
execute now (touch id used_at) t = (
  row_count (length (keep (λ (r : PatRecord). eqb r.id id) (tokens t))),
  update (λ (r : PatRecord). eqb r.id id) (mark_used used_at) t,
)
