-- ===== src/Team/Dir/Reaped.antt =====
-- What `team dir` removes, and when it hands the directory out.
use docker_claudebox.Files.{FileSystem}
use docker_claudebox.Team.Roster.{Roster}
use docker_claudebox.Team.Send.{Shell}
use docker_claudebox.Team.Dir.Given.{AreGiven}
use docker_claudebox.Team.Dir.{
  DirOutcome, DirOptions, ReapCandidate, dir_refused, in_container, not_all_removed, dir_ready,
  trimmed_or_empty, team_shared_dir, lacks_sticky, ensure_sticky, ensure_all_sticky, candidates,
  parent_chain,
}
use docker_claudebox.Base.{
  Dict, List, Option, Text, [], false, keep, lookup, ltb, ok, some, text, text_eq, true, ℕ, ◌&&◌,
  ◌++◌, ◌==◌, ◌∷◌, ◌≡◌, ◌≢◌, ◌⊎◌,
}

-- Every removal that is tried is logged; the other calls remove nothing.
pub record IsRemovalLogged {W : Type 0} (fs : FileSystem W) (sh : Shell W) (log : W → List Text)
    : Type 0 where
  pub remove_file_logs : (p : Text) (w : W) → log (fs.remove_file p w).1 ≡ log w ++ (p ∷ [])
  pub mkdir_recursive_silent : (p : Text) (w : W) → log (fs.mkdir_recursive p w).1 ≡ log w
  pub chmod_silent : (p : Text) (mode : ℕ) (w : W) → log (fs.chmod p mode w).1 ≡ log w
  pub run_capture_silent : (command : Text) (w : W) → log (sh.run_capture command w).1 ≡ log w

-- The paths of entries.
abbrev pub paths_in : Text → List ReapCandidate → List Text
paths_in dir [] = []
paths_in dir (e ∷ es) = (dir ++ (text "/" ++ e.name)) ∷ paths_in dir es

module _ {W : Type 0} (fs : FileSystem W) (sh : Shell W) (env : Dict Text)
    (read_days : Text → Option ℕ) (log : W → List Text) (law : IsRemovalLogged fs sh log) where
  -- The entries that are strictly older than the limit go, and no others.
  abbrev pub ReapedAt : Text → DirOptions → W → List Text → Type 0
  ReapedAt dir o w new =
      (names : List Text) × (limit : ℕ) × (fs.list_dir dir w ≡ ok names)
      × (o.older_than ≡ some limit)
      × (new
          ≡ paths_in dir
              (keep (λ e. ltb limit e.age_ms) (candidates fs sh env read_days dir names w)))

  -- The directory with its parents, after the modes are set.
  abbrev pub prepared : Text → W → W
  prepared dir w =
      (ensure_sticky fs sh env read_days dir
        (ensure_all_sticky fs sh env read_days (parent_chain dir) w)).1

  -- The directory is not known to lack the sticky bit.
  abbrev pub Handed : Text → DirOptions → W → List Text → Type 0
  Handed dir o w new =
      (lacks_sticky fs sh env read_days (fs.stat_mode dir w) ≡ false)
      × (((o.reap ≡ false) × (new ≡ [])) ⊎ ((o.reap ≡ true) × ReapedAt dir o w new))

  unfoldable pub Reaps : Text → DirOptions → W → DirOutcome → List Text → Type 0
  Reaps dir o v (dir_refused e) new = new ≡ []
  Reaps dir o v in_container new = ⊥
  Reaps dir o v (not_all_removed names) new = (names ≢ []) × Handed dir o v new
  Reaps dir o v (dir_ready d) new = (d ≡ dir) × Handed dir o v new

  abbrev Ends : Text → DirOptions → W → W → DirOutcome × W → Type 0
  Ends dir o w v r = (new : List Text) × (log r.1 ≡ log w ++ new) × Reaps dir o v r.0 new

  -- Where the directory may be handed out: on the host, or where it is named.
  abbrev pub IsRendezvous : Roster → W → Text → Type 0
  IsRendezvous roster w dir =
      (team : Text) × (roster.team ≡ some team)
      × (team_shared_dir team (lookup (text "DRIDOCK_TEAM_DIR") env) ≡ ok dir)
      × ((fs.exists (text "/.dockerenv") w
            && (trimmed_or_empty (lookup (text "DRIDOCK_TEAM_DIR") env) == []))
          ≡ false)

  -- What an outcome of `team dir` says of the directory and of what was removed.
  unfoldable pub Settles : List Text → Roster → W → DirOutcome → List Text → Type 0
  Settles args roster w (dir_refused e) new = new ≡ []
  Settles args roster w in_container new = (new ≡ []) × (fs.exists (text "/.dockerenv") w ≡ true)
  Settles args roster w (not_all_removed names) new =
      (dir : Text) × (o : DirOptions) × AreGiven read_days args o
      × IsRendezvous roster w dir
      × (names ≢ [])
      × Handed dir o (prepared dir (fs.mkdir_recursive dir w).1) new
  Settles args roster w (dir_ready dir) new =
      (o : DirOptions) × AreGiven read_days args o
      × IsRendezvous roster w dir
      × Handed dir o (prepared dir (fs.mkdir_recursive dir w).1) new

  abbrev AllSettled : List Text → Roster → W → DirOutcome × W → Type 0
  AllSettled args roster w r =
      (new : List Text) × (log r.1 ≡ log w ++ new) × Settles args roster w r.0 new
