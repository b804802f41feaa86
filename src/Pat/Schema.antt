-- ===== src/Pat/Schema.antt =====
-- The check of the database schema at start: src/cimd_proxy/migrations/__init__.py and `check_schema`
-- of src/cimd_proxy/pat_store.py. No name of a file holds a line break.
pub mod Numbered
use cimd_proxy.Prelude.{
  ℕ, zero, suc, ◌+◌, String, ◌<>◌, Bool, true, false, not, ◌&&◌, ◌||◌, Option, none, some, List, [],
  ◌∷◌, ◌==◌, if◌then◌else◌, eqb, leb, ltb, length, starts_with, is_truthy, partition, is_char,
  is_digit, is_lower, all_chars,
}
use cimd_proxy.Prelude.Sort.{sort}
use cimd_proxy.Digits.{decimal}
use cimd_proxy.Errors.{Result, ok, err, runtime_error, ◌>>=◌}
use cimd_proxy.Pat.Format.{drop_chars}
use cimd_proxy.Config.Signer.{number_until}

-- `_FILE`: the number in the name of a migration.
unfoldable pub version_of : String → Option ℕ
unfolding drop_chars partition all_chars number_until
version_of name =
    let (digits, found, tail) = partition (is_char b'_') (drop_chars 1 name) in
    let (body, dotted, extension) = partition (is_char b'.') (drop_chars 1 tail) in
    if starts_with name "V"
      && is_truthy digits
      && all_chars is_digit digits
      && found
      && starts_with tail "_"
      && is_truthy body
      && all_chars (λ c. is_lower c || is_digit c || is_char b'_' c) body
      && dotted
      && extension == "sql"
    then some (number_until 0 digits)
    else none

unfoldable pub numbered : List String → List ℕ
unfolding version_of
numbered [] = []
numbered (name ∷ names) = put (version_of name) (numbered names)
  where
    put : Option ℕ → List ℕ → List ℕ
    put none ns = ns
    put (some n) ns = n ∷ ns

unfoldable pub in_order : List ℕ → List ℕ
unfolding sort
in_order = sort leb

-- `list(range(first, first + count))`
abbrev pub range : (first count : ℕ) → List ℕ
range first zero = []
range first (suc count) = first ∷ range (first + 1) count

abbrev pub same_numbers : List ℕ → List ℕ → Bool
same_numbers [] [] = true
same_numbers (a ∷ as') (b ∷ bs) = eqb a b && same_numbers as' bs
same_numbers [] (b ∷ bs) = false
same_numbers (a ∷ as') [] = false

-- `versions`, of the names in the directory.
unfoldable pub versions : List String → Result (List ℕ)
unfolding numbered in_order
versions names =
    let found = in_order (numbered names) in
    if same_numbers found (range 1 (length found))
    then ok found
    else err (runtime_error "migration versions must run 1..n without gaps")

unfoldable pub latest_version : List String → Result ℕ
unfolding versions
latest_version names = do found ← versions names; ok (length found)

-- A row of Flyway's history.
pub record Migration : Type 0 where
  pub version : Option ℕ
  pub success : Bool

-- The highest version of the rows that count, and 0 without one.
unfoldable pub highest : List Migration → ℕ
highest [] = 0
highest (m ∷ ms) = (let rest = highest ms in if m.success then larger m.version rest else rest)
  where
    larger : Option ℕ → ℕ → ℕ
    larger none rest = rest
    larger (some v) rest = if ltb rest v then v else rest

-- `current`: `none` is a database without the history or the schema.
unfoldable pub current_version : Option (List Migration) → ℕ
unfolding highest
current_version none = 0
current_version (some rows) = highest rows

unfoldable pub check_schema : List String → Option (List Migration) → Result (Unit {0})
unfolding current_version latest_version
check_schema names history = do
  needed ← latest_version names
  if ltb (current_version history) needed
      then err (
          runtime_error (
            "database schema is at version "
            <> decimal (current_version history)
            <> ", this code needs "
            <> decimal needed
            <> "; run the cimd-proxy-migrations image of the same release"))
      else ok tt
