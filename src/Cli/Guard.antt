-- ===== src/Cli/Guard.antt =====
-- services/NoDridockGuard.ts and services/WorkspaceGuard.ts: where dridock refuses to launch.
pub mod Marker
pub mod Parents
use mathlib.Core.List.{reverse}
use docker_claudebox.Base.{
  Bool, Dict, List, Option, Text, [], before_first, drop_run, false, if◌then◌else◌, lookup, nat_beq,
  none, not, refl, some, starts_with, suc, text, text_eq, true, zero, ℕ, ◌++◌, ◌==◌, ◌||◌, ◌∷◌, ◌≡◌,
}

abbrev pub no_dridock_marker : Text
no_dridock_marker = text ".nodridock"

abbrev pub slash : Text
slash = text "/"

-- `s.replace(/\/+$/, "")`
unfoldable pub strip_slashes : Text → Text
strip_slashes s = reverse (drop_run (λ c. nat_beq c b'/') (reverse s))

abbrev pub tail_of : Text → Text
tail_of [] = []
tail_of (c ∷ s) = s

-- `dir.substring(0, dir.lastIndexOf("/"))`; empty when there is no slash.
unfoldable pub parent_of : Text → Text
parent_of dir = reverse (tail_of (drop_run (λ c. not (nat_beq c b'/')) (reverse dir)))

unfoldable pub next_up : Text → Text
next_up dir = let parent = parent_of dir in if parent == text "" then slash else parent

unfoldable pub candidate_in : Text → Text
candidate_in dir =
    if dir == slash then slash ++ no_dridock_marker else dir ++ (slash ++ no_dridock_marker)

unfoldable pub normalized : Text → Text
normalized dir = if dir == slash then slash else strip_slashes dir

module _ (exists : Text → Bool) (home : Text) where
  -- The loop, with the rounds that are left.
  unfoldable pub walk_up : ℕ → Text → Option Text
  walk_up zero dir = none
  walk_up (suc n) dir =
      let rest = walk_up n (next_up dir) in
      if exists (candidate_in dir)
      then some (candidate_in dir)
      else if dir == slash || dir == home
      then none
      else rest

abbrev pub max_rounds : ℕ
max_rounds = 1024

-- `fs.exists` is the file system's answer.
unfoldable pub find_no_dridock_marker : (Text → Bool) → Text → Text → Option Text
find_no_dridock_marker exists cwd home =
    walk_up exists (normalized home) max_rounds (normalized cwd)

-- `DRIDOCK_MODE_CRON` is set and not empty.
unfoldable pub cron_mode_requested : Dict Text → Bool
cron_mode_requested env = elim (lookup (text "DRIDOCK_MODE_CRON") env) [
  | none ↦ false
  | some v ↦ not (v == text "")
]

unfoldable pub should_check_no_dridock : List Text → Dict Text → Bool
should_check_no_dridock [] env = true
should_check_no_dridock (first ∷ rest) env =
    if cron_mode_requested env
    then true
    else if first == text ""
    then true
    else if starts_with (text "-") first
    then true
    else (first == text "start" || first == text "bootstrap")

pub data WorkspaceGuardVerdict : Type 0 where
  ok_here : WorkspaceGuardVerdict
  in_dotdir : Text → Text → WorkspaceGuardVerdict

abbrev pub is_override : Option Text → Bool
is_override none = false
is_override (some v) = v == text "1" || (v == text "true" || (v == text "yes" || v == text "on"))

-- `cwd` is the dot directory of some directory, or lies in it.
unfoldable pub in_dot_dir : Text → Text → Bool
in_dot_dir dot cwd =
    let root = before_first (slash ++ dot) cwd in
    cwd == root ++ (slash ++ dot) || starts_with (root ++ (slash ++ (dot ++ slash))) cwd

abbrev pub or_root : Text → Text → Text
or_root [] root = root
or_root (c ∷ s) root = c ∷ s

unfoldable pub guard_workspace : Text → Dict Text → Text → WorkspaceGuardVerdict
guard_workspace cwd env project_root =
    if is_override (lookup (text "DRIDOCK_ALLOW_SUBDIR") env)
    then ok_here
    else if in_dot_dir (text ".dridock") cwd
    then in_dotdir (text ".dridock") (or_root (before_first (text "/.dridock") cwd) project_root)
    else if in_dot_dir (text ".claudebox") cwd
    then in_dotdir (text ".claudebox")
        (or_root (before_first (text "/.claudebox") cwd) project_root)
    else ok_here

nearest_found :
    find_no_dridock_marker
      (λ p. p == text "/home/u/.nodridock")
      (text "/home/u/a/b/")
      (text "/home/u")
    ≡ some (text "/home/u/.nodridock")
unfolding find_no_dridock_marker walk_up normalized strip_slashes next_up parent_of candidate_in
    drop_run
nearest_found = refl

dot_dir_found :
    guard_workspace (text "/p/.dridock/x") [] (text "/p") ≡ in_dotdir (text ".dridock") (text "/p")
unfolding guard_workspace in_dot_dir before_first starts_with lookup
dot_dir_found = refl
