-- ===== src/Team/Dir.antt =====
-- cli/commands/TeamCommand.ts, runDir, and services/TeamSharedDir.ts: the team's shared directory.
pub mod Given
pub mod Reaped
use docker_claudebox.Files.{FileSystem, Outcome, Done}
use docker_claudebox.Team.Roster.{Roster, is_team_name}
use docker_claudebox.Team.Send.{Shell}
use docker_claudebox.Team.Shell.{shell_quote}
use docker_claudebox.Base.{
  Bool, Dict, List, Option, Result, Text, [], after_prefix, contains, err, false, if◌then◌else◌,
  keep, lookup, ltb, nat_beq, none, not, ok, some, split_on, text, text_eq, trim, true, ℕ, ◌%◌,
  ◌&&◌, ◌*◌, ◌++◌, ◌-◌, ◌/◌, ◌==◌, ◌∷◌,
}

abbrev pub team_shared_root : Text
team_shared_root = text "/tmp/dridock/teams"

abbrev pub team_dir_mode : ℕ
team_dir_mode = 0o1777

abbrev pub ms_per_day : ℕ
ms_per_day = 86400000

pub data DirError : Type 0 where
  bad_dir_argument : Text → DirError
  older_than_without_reap : DirError
  no_team : DirError
  bad_team : Text → DirError
  not_created : Text → DirError
  not_sticky : ℕ → DirError
  not_listed : Text → DirError
  bad_age : DirError

pub data DirOutcome : Type 0 where
  dir_refused : DirError → DirOutcome
  in_container : DirOutcome
  not_all_removed : List Text → DirOutcome
  dir_ready : Text → DirOutcome

unfoldable pub dir_rc : DirOutcome → ℕ
dir_rc (dir_refused e) = 1
dir_rc in_container = 3
dir_rc (not_all_removed names) = 1
dir_rc (dir_ready dir) = 0

abbrev pub trimmed_or_empty : Option Text → Text
trimmed_or_empty none = []
trimmed_or_empty (some v) = trim v

-- An override that is not blank wins.
unfoldable pub team_shared_dir : Text → Option Text → Result Text Text
team_shared_dir team override =
    if not (trimmed_or_empty override == [])
    then ok (trimmed_or_empty override)
    else if is_team_name team
    then ok (team_shared_root ++ (text "/" ++ team))
    else err team

-- An entry with its age in milliseconds; 0 when its time is unknown, or ahead of the clock.
pub record ReapCandidate : Type 0 where
  pub name : Text
  pub age_ms : ℕ

-- Entries strictly older than the limit, and the others; no limit is one that is not a
-- non-negative number.
unfoldable pub partition_for_reap :
    List ReapCandidate → Option ℕ → Option (List ReapCandidate × List ReapCandidate)
partition_for_reap entries none = none
partition_for_reap entries (some limit) =
    some (keep (λ e. ltb limit e.age_ms) entries, keep (λ e. not (ltb limit e.age_ms)) entries)

abbrev pub is_sticky : ℕ → Bool
is_sticky mode = nat_beq ((mode / 512) % 2) 1

abbrev longer : Text → List Text → List Text
longer so_far [] = []
longer so_far (part ∷ []) = []
longer so_far (part ∷ (next ∷ parts)) =
    let dir = so_far ++ (text "/" ++ part) in dir ∷ longer dir (next ∷ parts)

abbrev behind_first : List Text → List Text
behind_first [] = []
behind_first (part ∷ parts) = longer (text "/" ++ part) parts

-- The ancestors of two segments and more, outermost first.
unfoldable pub parent_chain : Text → List Text
parent_chain dir = behind_first (keep (λ p. not (p == [])) (split_on b'/' dir))

pub record DirOptions : Type 0 where
  pub reap : Bool
  pub older_than : Option ℕ

module _ {W : Type 0} (fs : FileSystem W) (sh : Shell W) (env : Dict Text)
    -- `Number(s)` days in milliseconds, rounded down, where it is finite and not negative.
    (read_days : Text → Option ℕ) where
  abbrev given_age : DirOptions → Text → Option Text → Result DirError DirOptions
  given_age o a none = err (bad_dir_argument a)
  given_age o a (some v) = ok (record o { older_than = read_days v })

  -- A last `--older-than` reads as no number.
  unfoldable pub parse_dir_args : List Text → DirOptions → Result DirError DirOptions
  parse_dir_args [] o = ok o
  parse_dir_args (a ∷ []) o =
      if a == text "--reap"
      then ok (record o { reap = true })
      else if a == text "--older-than"
      then ok (record o { older_than = none })
      else given_age o a (after_prefix (text "--older-than=") a)
  parse_dir_args (a ∷ (v ∷ rest)) o = elim (a == text "--reap") [
    | true ↦ parse_dir_args (v ∷ rest) (record o { reap = true })
    | false ↦ elim (a == text "--older-than") [
      | true ↦ parse_dir_args rest (record o { older_than = read_days v })
      | false ↦ elim (after_prefix (text "--older-than=") a) [
        | none ↦ err (bad_dir_argument a)
        | some age ↦ parse_dir_args (v ∷ rest) (record o { older_than = read_days age })
      ]
    ]
  ]

  abbrev pub lacks_sticky : Option ℕ → Bool
  lacks_sticky none = false
  lacks_sticky (some mode) = not (is_sticky mode)

  -- The mode is set, read back, and set by /bin/chmod where the sticky bit is missing.
  unfoldable pub ensure_sticky : Text → W → Option ℕ × W
  ensure_sticky path w =
      let w₁ = (fs.chmod path team_dir_mode w).1 in
      if lacks_sticky (fs.stat_mode path w₁)
      then (let w₂ = (sh.run_capture (text "chmod 1777 " ++ shell_quote path) w₁).1 in
          (fs.stat_mode path w₂, w₂))
      else (fs.stat_mode path w₁, w₁)

  unfoldable pub ensure_all_sticky : List Text → W → W
  unfolding ensure_sticky
  ensure_all_sticky [] w = w
  ensure_all_sticky (p ∷ ps) w = ensure_all_sticky ps (ensure_sticky p w).1

  abbrev pub age_of : ℕ → Option ℕ → ℕ
  age_of now none = 0
  age_of now (some mtime) = now - mtime

  unfoldable pub candidates : Text → List Text → W → List ReapCandidate
  candidates dir [] w = []
  candidates dir (name ∷ names) w =
      let age = age_of (sh.now_ms w) (fs.mtime_ms (dir ++ (text "/" ++ name)) w) in
      record { name = name; age_ms = age } ∷ candidates dir names w

  abbrev pub add_failure : Text → Result Text Done → List Text → List Text
  add_failure name (ok _) names = names
  add_failure name (err reason) names = name ∷ names

  -- Every entry is tried; the names of those that could not be removed.
  unfoldable pub remove_entries : Text → List ReapCandidate → W → List Text × W
  remove_entries dir [] w = ([], w)
  remove_entries dir (e ∷ es) w =
      let (removal, w₁) = fs.remove_file (dir ++ (text "/" ++ e.name)) w in
      let (names, w₂) = remove_entries dir es w₁ in (add_failure e.name removal names, w₂)

  abbrev pub after_removal : Text → List Text × W → DirOutcome × W
  after_removal dir ([], w) = (dir_ready dir, w)
  after_removal dir (n ∷ names, w) = (not_all_removed (n ∷ names), w)

  abbrev pub reap_parted :
      Text → Option (List ReapCandidate × List ReapCandidate) → W → DirOutcome × W
  reap_parted dir none w = (dir_refused bad_age, w)
  reap_parted dir (some (old, kept)) w = after_removal dir (remove_entries dir old w)

  abbrev pub reap_listed : Text → Option ℕ → Result Text (List Text) → W → DirOutcome × W
  reap_listed dir limit (err reason) w = (dir_refused (not_listed reason), w)
  reap_listed dir limit (ok names) w =
      reap_parted dir (partition_for_reap (candidates dir names w) limit) w

  abbrev pub reap_if : Bool → Text → Option ℕ → W → DirOutcome × W
  reap_if true dir limit w = reap_listed dir limit (fs.list_dir dir w) w
  reap_if false dir limit w = (dir_ready dir, w)

  abbrev pub with_mode : Text → DirOptions → Option ℕ × W → DirOutcome × W
  with_mode dir o (mode, w) =
      if lacks_sticky mode
      then (dir_refused (not_sticky (mode_or_zero mode)), w)
      else reap_if o.reap dir o.older_than w
    where
      mode_or_zero : Option ℕ → ℕ
      mode_or_zero none = 0
      mode_or_zero (some m) = m

  abbrev pub made : Text → DirOptions → Outcome Done W → DirOutcome × W
  made dir o (err reason, w) = (dir_refused (not_created reason), w)
  made dir o (ok _, w) =
      with_mode dir o (ensure_sticky dir (ensure_all_sticky (parent_chain dir) w))

  abbrev pub in_dir : DirOptions → Result Text Text → W → DirOutcome × W
  in_dir o (err team) w = (dir_refused (bad_team team), w)
  in_dir o (ok dir) w = made dir o (fs.mkdir_recursive dir w)

  abbrev pub for_team : DirOptions → Option Text → W → DirOutcome × W
  for_team o none w = (dir_refused no_team, w)
  for_team o (some team) w =
      let explicit = lookup (text "DRIDOCK_TEAM_DIR") env in
      if fs.exists (text "/.dockerenv") w && (trimmed_or_empty explicit == [])
      then (in_container, w)
      else in_dir o (team_shared_dir team explicit) w

  abbrev pub with_options : List Text → Roster → Result DirError DirOptions → W → DirOutcome × W
  with_options args roster (err e) w = (dir_refused e, w)
  with_options args roster (ok o) w =
      if not o.reap && contains args (text "--older-than")
      then (dir_refused older_than_without_reap, w)
      else for_team o roster.team w

  unfoldable pub run_dir : List Text → Roster → W → DirOutcome × W
  unfolding parse_dir_args team_shared_dir parent_chain ensure_sticky ensure_all_sticky candidates
      partition_for_reap remove_entries
  run_dir args roster w =
      let defaults : DirOptions = record { reap = false; older_than = some (7 * ms_per_day) } in
      with_options args roster (parse_dir_args args defaults) w
