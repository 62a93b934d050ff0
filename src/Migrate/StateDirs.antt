-- ===== src/Migrate/StateDirs.antt =====
-- services/migrators/StateDirsMigrator.ts: the directories of state that all projects share.
use docker_claudebox.Files.{FileSystem, Outcome, ◌>>->◌}
use docker_claudebox.Migrate.Report.{
  MigrationOutcome, nothing_to_do, applied, merged, skipped_conflict, MigrationReport,
}
use docker_claudebox.Migrate.Moves.{report}
use docker_claudebox.Base.{
  Bool, List, Result, Text, [], err, false, if◌then◌else◌, ltb, none, not, ok, some, text, text_eq,
  true, ℕ, ◌&&◌, ◌++◌, ◌+◌, ◌==◌, ◌∷◌,
}

-- The processes and the clock of the host.
pub record Host (W : Type 0) : Type 0 where
  pub process_matching_cmdline : Text → W → Bool
  pub timestamp : W → Text

abbrev pub state_names : List Text
state_names = text "cdp" ∷ text "consult" ∷ text "framework-bugs" ∷ text "host-agent" ∷ []

-- The entries that kept their names, and those that got the suffix.
pub record MergeCounts : Type 0 where
  pub clean : ℕ
  pub collisions : ℕ

unfoldable pub counted : Bool → MergeCounts → MergeCounts
counted true n = record n { clean = n.clean + 1 }
counted false n = record n { collisions = n.collisions + 1 }

unfoldable pub merged_outcome : Text → Text → Text → MergeCounts → MigrationOutcome
merged_outcome old new suffix n =
    merged old new n.clean n.collisions (if ltb 0 n.collisions then some suffix else none)

unfoldable pub chrome_conflict : Text → MigrationOutcome
chrome_conflict old = skipped_conflict (text "state dir cdp: Chrome is running against " ++ old) (
    text "Close Chrome (or run 'dridock browser-bridge down'), then 'dridock migrate' again."
    ∷ text "The bridge keeps working from the legacy path until then."
    ∷ [])

abbrev pub split_conflict : MigrationOutcome
split_conflict =
    skipped_conflict
      (text "state dir cdp: SPLIT — both roots exist. "
        ++ text "Cannot auto-merge a Chrome profile safely.")
      ((text "'dridock browser-bridge down', close Chrome, then keep whichever profile you want "
          ++ text "and delete the other.")
        ∷ [])

module _ {W : Type 0} (fs : FileSystem W) (host : Host W) where
  -- Each entry goes to its own name, or under the suffix where that is taken.
  unfoldable pub merge_entries :
      List Text → Text → Text → Text → MergeCounts → W → Outcome MergeCounts W
  unfolding counted
  merge_entries [] old new suffix n w = (ok n, w)
  merge_entries (entry ∷ rest) old new suffix n w =
      let clean_to = new ++ (text "/" ++ entry) in
      let free = not (fs.exists clean_to w) in
      fs.move (old ++ (text "/" ++ entry)) (if free then clean_to else clean_to ++ suffix) w
      >>-> λ _ w₁. merge_entries rest old new suffix (counted free n) w₁

  abbrev pub merge_listed :
      Text → Text → Text → Text → Result Text (List Text) → W → Outcome MigrationReport W
  merge_listed item old new suffix (err thrown) w = (err thrown, w)
  merge_listed item old new suffix (ok entries) w =
      merge_entries entries old new suffix (record { clean = 0; collisions = 0 }) w >>-> λ n w₁.
      fs.rm_dir_if_empty old w₁ >>-> λ _ w₂.
      (ok (report item (merged_outcome old new suffix n)), w₂)

  unfoldable pub merge_dirs : Text → Text → Text → W → Outcome MigrationReport W
  unfolding merge_entries merged_outcome
  merge_dirs item old new w =
      merge_listed item old new (text ".legacy-" ++ host.timestamp w) (fs.list_dir old w) w

  unfoldable pub move_dir : Text → Text → Text → Text → W → Outcome MigrationReport W
  move_dir xdg item old new w = fs.mkdir_recursive (xdg ++ text "/dridock") w >>-> λ _ w₁.
      fs.move old new w₁ >>-> λ _ w₂. (ok (report item (applied old new none)), w₂)

  unfoldable pub migrate_one : Text → Text → W → Outcome MigrationReport W
  unfolding chrome_conflict merge_dirs move_dir
  migrate_one xdg name w =
      let item = text "state:" ++ name in
      let old = xdg ++ (text "/claudebox/" ++ name) in
      let new = xdg ++ (text "/dridock/" ++ name) in
      let is_cdp = name == text "cdp" in
      if not (fs.is_directory old w)
      then (ok (report item nothing_to_do), w)
      else if is_cdp && host.process_matching_cmdline (text "--user-data-dir=" ++ old) w
      then (ok (report item (chrome_conflict old)), w)
      else if fs.exists new w
      then (if is_cdp then (ok (report item split_conflict), w) else merge_dirs item old new w)
      else move_dir xdg item old new w

  unfoldable pub migrate_names : Text → List Text → W → Outcome (List MigrationReport) W
  unfolding migrate_one
  migrate_names xdg [] w = (ok [], w)
  migrate_names xdg (name ∷ names) w =
      migrate_one xdg name w >>-> λ r w₁. migrate_names xdg names w₁ >>-> λ rs w₂. (ok (r ∷ rs), w₂)

  unfoldable pub migrate_state_dirs : Text → W → Outcome (List MigrationReport) W
  unfolding migrate_names
  migrate_state_dirs xdg w = migrate_names xdg state_names w >>-> λ rs w₁.
      fs.rm_dir_if_empty (xdg ++ text "/claudebox") w₁ >>-> λ _ w₂. (ok rs, w₂)
