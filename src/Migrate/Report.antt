-- ===== src/Migrate/Report.antt =====
-- services/MigrationReport.ts: what a migration has done, and the exit code of several.

use docker_claudebox.Base.{Bool, List, Option, Text, any, false, if◌then◌else◌, ltb, true, ℕ}

-- `merged` counts the collisions and holds their suffix.
pub data MigrationOutcome : Type 0 where
  nothing_to_do : MigrationOutcome
  applied : Text → Text → Option Text → MigrationOutcome
  merged : Text → Text → ℕ → ℕ → Option Text → MigrationOutcome
  skipped_conflict : Text → List Text → MigrationOutcome

pub record MigrationReport : Type 0 where
  pub item : Text
  pub outcome : MigrationOutcome

unfoldable pub is_skip : MigrationOutcome → Bool
is_skip nothing_to_do = false
is_skip (applied from to _) = false
is_skip (merged from to clean collisions suffix) = ltb 0 collisions
is_skip (skipped_conflict reason hints) = true

unfoldable pub accumulate_rc : List MigrationReport → ℕ
accumulate_rc reports = if any (λ r. is_skip r.outcome) reports then 1 else 0
