-- ===== src/Pat/Record.antt =====
-- src/cimd_proxy/pat_store.py: a row of the token table, and the statements on the table.
use cimd_proxy.Prelude.{ℕ, ◌*◌, String, Option, List}

-- A `uuid.UUID`, as its 128-bit number.
abbrev pub Uuid : Type 0
Uuid = ℕ

-- A `datetime`, in microseconds.
abbrev pub Time : Type 0
Time = ℕ

-- `datetime.now(UTC)`, of a clock in seconds.
abbrev pub instant : ℕ → Time
instant now = now * 1000000

pub record PatRecord : Type 0 where
  pub id : Uuid
  pub tenant : String
  pub realm_issuer : String
  pub owner_sub : String
  pub name : String
  pub resources : List String
  pub scopes : List String
  pub created_at : Time
  pub expires_at : Time
  pub last_used_at : Option Time
  pub revoked_at : Option Time

-- The five statements of `PostgresPatStore`, with their bound parameters.
pub data Statement : Type 0 where
  insert : PatRecord → (token_hash : List ℕ) → Statement
  find_by_hash : (token_hash : List ℕ) → Statement
  list_for_owner : (realm_issuer owner_sub : String) → Statement
  revoke : (realm_issuer owner_sub : String) → Uuid → Statement
  touch : Uuid → (used_at : Time) → Statement

-- What a statement gives back: rows, a row count, or the refusal of a row that breaks a constraint.
pub data Answer : Type 0 where
  rows : List PatRecord → Answer
  row_count : ℕ → Answer
  violated : Answer
