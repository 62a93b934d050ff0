-- ===== src/Migrate/Workspace.antt =====
-- services/migrators/WorkspaceMigrator.ts: a project's `.claudebox/` becomes `.dridock/`, file by file.
use docker_claudebox.Files.{FileSystem, Outcome, ◌>>->◌, Done}
use docker_claudebox.Migrate.Report.{nothing_to_do, applied, skipped_conflict, MigrationReport}
use docker_claudebox.Migrate.Moves.{report}
use docker_claudebox.Base.{
  Bool, List, Option, Text, [], after_prefix, false, if◌then◌else◌, join_with, length, map, none,
  not, ok, show_number, some, split_on, text, text_eq, true, ◌&&◌, ◌++◌, ◌==◌, ◌∷◌,
}

abbrev pub known_files : List Text
known_files =
    text "config.yml" ∷ text "config.sample.yml" ∷ text "secrets.env" ∷ text "BRIEF.md" ∷ []

-- The names moved and the names found in both directories; `anyMoved` and `anySkipped` say that a
-- list is not empty.
pub record MoveLog : Type 0 where
  pub moved_names : List Text
  pub conflicts : List Text

abbrev pub has_names : List Text → Bool
has_names [] = false
has_names (_ ∷ _) = true

-- `l.replace(/^\/\.claudebox\//, "/.dridock/")`
abbrev pub with_prefix : Option Text → Text → Text
with_prefix none l = l
with_prefix (some rest) l = text "/.dridock/" ++ rest

unfoldable pub rewrite_line : Text → Text
rewrite_line l = with_prefix (after_prefix (text "/.claudebox/") l) l

unfoldable pub rewrite_gitignore : Text → Text
unfolding rewrite_line
rewrite_gitignore s = join_with (text "\n") (map rewrite_line (split_on 10 s))

unfoldable pub workspace_reports : Text → Text → MoveLog → List MigrationReport
workspace_reports src dst log =
    let item = text "workspace" in
    let comma = text ", " in
    let note =
      text "moved "
      ++ (show_number (length log.moved_names)
          ++ (text " file(s): " ++ join_with comma log.moved_names)) in
    let reason =
      show_number (length log.conflicts)
      ++ (text " file(s) exist in BOTH .claudebox/ and .dridock/: "
          ++ join_with comma log.conflicts) in
    let hint = text "Then re-run 'dridock migrate' to remove the empty " ++ (src ++ text "/.") in
    (if has_names log.moved_names then report item (applied src dst (some note)) ∷ [] else [])
    ++ ((if has_names log.conflicts
          then report item (
              skipped_conflict reason (
                text "Both copies were preserved — pick the one you want and delete the other."
                ∷ hint
                ∷ []))
            ∷ []
          else [])
        ++ (if not (has_names log.moved_names) && not (has_names log.conflicts)
            then report item nothing_to_do ∷ []
            else []))

module _ {W : Type 0} (fs : FileSystem W) where
  unfoldable pub protect : Text → Text → W → Outcome Done W
  protect name to w = if name == text "secrets.env" then fs.chmod to 0o600 w else (ok Done.done, w)

  unfoldable pub move_file : Text → Text → Text → MoveLog → W → Outcome MoveLog W
  unfolding protect
  move_file name from to log w = fs.move from to w >>-> λ _ w₁. protect name to w₁ >>-> λ _ w₂.
      (ok (record log { moved_names = log.moved_names ++ (name ∷ []) }), w₂)

  -- One round of the loop.
  unfoldable pub move_known : Text → Text → Text → MoveLog → W → Outcome MoveLog W
  unfolding move_file
  move_known src dst name log w =
      let from = src ++ (text "/" ++ name) in
      let to = dst ++ (text "/" ++ name) in
      if not (fs.exists from w)
      then (ok log, w)
      else if fs.exists to w
      then (ok (record log { conflicts = log.conflicts ++ (name ∷ []) }), w)
      else move_file name from to log w

  unfoldable pub move_files : List Text → Text → Text → MoveLog → W → Outcome MoveLog W
  unfolding move_known
  move_files [] src dst log w = (ok log, w)
  move_files (name ∷ names) src dst log w =
      move_known src dst name log w >>-> λ log₁ w₁. move_files names src dst log₁ w₁

  abbrev pub rewrite_file : Text → Option Text → W → Outcome Done W
  rewrite_file path none w = (ok Done.done, w)
  rewrite_file path (some s) w =
      if not (rewrite_gitignore s == s)
      then fs.write_text_atomic path (rewrite_gitignore s) w
      else (ok Done.done, w)

  unfoldable pub remove_legacy : Text → MoveLog → W → Outcome Done W
  remove_legacy src log w =
      if has_names log.moved_names && not (has_names log.conflicts)
      then fs.rm_dir_if_empty src w
      else (ok Done.done, w)

  unfoldable pub migrate_workspace : Text → W → Outcome (List MigrationReport) W
  unfolding move_files rewrite_gitignore remove_legacy workspace_reports
  migrate_workspace root w =
      let src = root ++ text "/.claudebox" in
      let dst = root ++ text "/.dridock" in
      let gitignore = root ++ text "/.gitignore" in
      if not (fs.is_directory src w)
      then (ok (report (text "workspace") nothing_to_do ∷ []), w)
      else (fs.mkdir_recursive dst w >>-> λ _ w₁.
          move_files known_files src dst (record { moved_names = []; conflicts = [] }) w₁
          >>-> λ log w₂.
              rewrite_file gitignore (fs.read_text_or_undefined gitignore w₂) w₂ >>-> λ _ w₃.
              remove_legacy src log w₃ >>-> λ _ w₄. (ok (workspace_reports src dst log), w₄))
