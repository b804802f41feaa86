-- ===== src/Tests/Start.antt =====
-- A run of the check of the schema at start.
use mathlib.Core.List.{Perm}
use cimd_proxy.Prelude.{ℕ, String, ◌≡◌, refl, true, some, List, [], ◌∷◌, ◌⊎◌}
use cimd_proxy.Errors.{ok}
use cimd_proxy.Pat.Schema.{Migration, numbered, range, check_schema}
use cimd_proxy.Pat.Schema.Numbered.{Applied, check_schema_sound}

abbrev names : List String
names = "__init__.py" ∷ "V2__used_at.sql" ∷ "V1__personal_access_token.sql" ∷ []

abbrev history : List Migration
history =
    record { version = some 1; success = true } ∷ record { version = some 2; success = true } ∷ []

checked : check_schema names (some history) ≡ ok tt
unfolding check_schema
checked = refl

check_schema_sound_example :
    (n : ℕ) × Perm (range 1 n) (numbered names) × ((n ≡ 0) ⊎ Applied history n)
check_schema_sound_example = check_schema_sound names (some history) checked
