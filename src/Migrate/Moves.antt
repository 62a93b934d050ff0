-- ===== src/Migrate/Moves.antt =====
-- services/migrators/DataDirMigrator.ts and MachineConfigMigrator.ts, which move one path, and
-- services/DotDirMigrator.ts, which does so at each launch and reports every throw.

pub mod Complete
use docker_claudebox.Files.{FileSystem, Outcome, ◌>>->◌, Done}
use docker_claudebox.Migrate.Report.{
  MigrationOutcome, nothing_to_do, applied, skipped_conflict, MigrationReport,
}
use docker_claudebox.Base.{List, Text, [], err, if◌then◌else◌, none, not, ok, text, ◌++◌, ◌∷◌}

pub data DotMigrateOutcome : Type 0 where
  not_needed : Text → DotMigrateOutcome
  migrated : Text → Text → DotMigrateOutcome
  failed : Text → DotMigrateOutcome

abbrev pub report : Text → MigrationOutcome → MigrationReport
report item outcome = record { item = item; outcome = outcome }

-- "Pick which to keep …"
abbrev pub pick_hint : Text → Text → Text
pick_hint old new =
    text "Pick which to keep ("
    ++ (old ++ (text " vs " ++ (new ++ text "), delete the other, then re-run 'dridock migrate'.")))

unfoldable pub data_dir_conflict : Text → Text
data_dir_conflict id =
    text "data dir " ++ (id ++ text ": both claudebox/ and dridock/ have it — leaving both")

module _ {W : Type 0} (fs : FileSystem W) where
  -- `mkdirRecursive(dir)`, `move(old, new)` and the report of the move.
  unfoldable pub move_under : Text → Text → Text → Text → W → Outcome (List MigrationReport) W
  move_under item dir old new w = fs.mkdir_recursive dir w >>-> λ _ w₁.
      fs.move old new w₁ >>-> λ _ w₂. (ok (report item (applied old new none) ∷ []), w₂)

  unfoldable pub migrate_data_dir : Text → Text → W → Outcome (List MigrationReport) W
  unfolding data_dir_conflict move_under
  migrate_data_dir xdg id w =
      let item = text "data-dir(" ++ (id ++ text ")") in
      let new_root = xdg ++ text "/dridock/projects" in
      let old = xdg ++ (text "/claudebox/projects/" ++ id) in
      let new = xdg ++ (text "/dridock/projects/" ++ id) in
      if not (fs.is_directory old w)
      then (ok (report item nothing_to_do ∷ []), w)
      else if fs.exists new w
      then (
        ok (report item (skipped_conflict (data_dir_conflict id) (pick_hint old new ∷ [])) ∷ []),
        w,
      )
      else move_under item new_root old new w

  unfoldable pub migrate_machine_config : Text → W → Outcome (List MigrationReport) W
  unfolding move_under
  migrate_machine_config xdg w =
      let item = text "machine-config" in
      let old = xdg ++ text "/claudebox/config.yml" in
      let new = xdg ++ text "/dridock/config.yml" in
      let reason =
        text
          "machine config: both claudebox/config.yml and dridock/config.yml exist — leaving both" in
      if not (fs.exists old w)
      then (ok (report item nothing_to_do ∷ []), w)
      else if fs.exists new w
      then (ok (report item (skipped_conflict reason (pick_hint old new ∷ [])) ∷ []), w)
      else move_under item (xdg ++ text "/dridock") old new w

  -- After the move: it is checked, not trusted.
  unfoldable pub check_moved : Text → Text → Outcome Done W → DotMigrateOutcome × W
  check_moved legacy target (err message, w) = (
    failed (text "moving " ++ (legacy ++ (text " -> " ++ (target ++ (text ": " ++ message))))),
    w,
  )
  check_moved legacy target (ok _, w) =
      if fs.exists target w
      then (migrated legacy target, w)
      else (failed (text "move reported success but " ++ (target ++ text " does not exist")), w)

  unfoldable pub migrate_dot_dir : Text → W → DotMigrateOutcome × W
  unfolding check_moved
  migrate_dot_dir root w =
      let legacy = root ++ text "/claude" in
      let dot = root ++ text "/dot" in
      let target = root ++ text "/dot/.claude" in
      if not (fs.exists legacy w)
      then (
        not_needed (if fs.exists target w then text "already migrated" else text "fresh project"),
        w,
      )
      else if fs.exists target w
      then (
        failed (
            text "both "
            ++ (legacy
                ++ (text " and "
                    ++ (target
                        ++ (text " exist — refusing to merge. "
                            ++ text
                                "Keep whichever holds your current session and remove the other, then re-run."))))),
        w,
      )
      else if not (fs.is_directory legacy w)
      then (failed (legacy ++ text " exists but is not a directory"), w)
      else check_moved legacy target
          (fs.mkdir_recursive dot w >>-> λ _ w₁. fs.move legacy target w₁)
