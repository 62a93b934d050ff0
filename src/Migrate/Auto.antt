-- ===== src/Migrate/Auto.antt =====
-- services/AutoMigrate.ts: the migrations at the first call in a project that has only `.claudebox/`.
use docker_claudebox.Files.{FileSystem, Outcome, ◌>>->◌}
use docker_claudebox.Config.Project.{project_id}
use docker_claudebox.Config.Machine.{config_home}
use docker_claudebox.Migrate.Report.{MigrationReport}
use docker_claudebox.Migrate.Moves.{migrate_data_dir, migrate_machine_config}
use docker_claudebox.Migrate.StateDirs.{Host, migrate_state_dirs}
use docker_claudebox.Migrate.Workspace.{migrate_workspace}
use docker_claudebox.Base.{
  Bool, Dict, List, Option, Text, [], contains, false, if◌then◌else◌, lookup, none, not, ok, some,
  text, text_eq, ◌++◌, ◌∷◌,
}

abbrev pub truthy : Option Text → Bool
truthy none = false
truthy (some v) = contains (text "1" ∷ text "true" ∷ text "yes" ∷ text "on" ∷ []) v

module _ {W : Type 0} (fs : FileSystem W) (host : Host W) where
  abbrev pub migrate_data_of : Text → Option Text → W → Outcome (List MigrationReport) W
  migrate_data_of xdg none w = (ok [], w)
  migrate_data_of xdg (some id) w = migrate_data_dir fs xdg id w

  -- The four migrations; the project's id is read after the workspace has moved.
  unfoldable pub migrate_all : Text → Text → W → Outcome (List MigrationReport) W
  unfolding project_id
  migrate_all root xdg w = migrate_workspace fs root w >>-> λ first w₁.
      let new_config = root ++ text "/.dridock/config.yml" in
      let config =
        if fs.exists new_config w₁ then new_config else root ++ text "/.claudebox/config.yml" in
      migrate_data_of xdg (project_id fs config w₁) w₁ >>-> λ second w₂.
      migrate_machine_config fs xdg w₂ >>-> λ third w₃.
      migrate_state_dirs fs host xdg w₃ >>-> λ fourth w₄.
      (ok (first ++ (second ++ (third ++ fourth))), w₄)

  unfoldable pub auto_migrate_if_needed :
      Dict Text → Text → Text → W → Outcome (List MigrationReport) W
  unfolding migrate_all config_home
  auto_migrate_if_needed env home root w =
      if truthy (lookup (text "DRIDOCK_NO_AUTO_MIGRATE") env)
      then (ok [], w)
      else if not (fs.is_directory (root ++ text "/.claudebox") w)
      then (ok [], w)
      else if fs.is_directory (root ++ text "/.dridock") w
      then (ok [], w)
      else migrate_all root (config_home env home) w
