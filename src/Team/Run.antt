-- ===== src/Team/Run.antt =====
-- cli/commands/TeamCommand.ts, run: the choice of the subcommand, the roster and the agent.
pub mod Acting
use docker_claudebox.Config.Root.{resolve_project}
use docker_claudebox.Files.{FileSystem, Outcome}
use docker_claudebox.Team.Dir.{DirOutcome, run_dir}
use docker_claudebox.Team.Fetcher.{FetcherOutcome, Processes, run_fetcher}
use docker_claudebox.Team.Roster.{
  Roster, RosterError, RosterResolve, from_env, from_single_agent, no_env_and_multi_agent,
  env_not_in_roster, parse_roster, resolve_self_name,
}
use docker_claudebox.Team.Send.{PostOutcome, Shell, run_post}
use docker_claudebox.Team.Watching.{WatchRuntime, run_watch}
use docker_claudebox.Base.{
  Bool, Dict, List, Option, Result, Text, [], any, err, false, if◌then◌else◌, none, ok, some, text,
  text_eq, true, ℕ, ◌++◌, ◌==◌, ◌||◌, ◌∷◌,
}

-- The subcommands that need an agent's name.
pub data SelfVerb : Type 0 where
  whoami watch fetcher post : SelfVerb

pub data TeamVerb : Type 0 where
  show_roster use_dir : TeamVerb
  as_self : SelfVerb → TeamVerb

pub data TeamOutcome : Type 0 where
  team_usage : Bool → TeamOutcome
  unknown_verb : Text → TeamOutcome
  verb_usage : TeamVerb → TeamOutcome
  roster_malformed : RosterError → TeamOutcome
  roster_absent : Text → TeamOutcome
  no_self : RosterResolve → TeamOutcome
  roster_shown : Roster → TeamOutcome
  self_shown : RosterResolve → TeamOutcome
  dir_ended : DirOutcome → TeamOutcome
  watch_ended : ℕ → TeamOutcome
  watch_threw : Text → TeamOutcome
  fetcher_ended : FetcherOutcome → TeamOutcome
  post_ended : PostOutcome → TeamOutcome

unfoldable pub verb_of : Text → Option TeamVerb
verb_of sub =
    if sub == text "whoami"
    then some (as_self whoami)
    else if sub == text "roster"
    then some show_roster
    else if sub == text "post"
    then some (as_self post)
    else if sub == text "watch"
    then some (as_self watch)
    else if sub == text "fetcher"
    then some (as_self fetcher)
    else if sub == text "dir"
    then some use_dir
    else none

abbrev pub is_help : Text → Bool
is_help a = a == text "-h" || a == text "--help"

-- What lies outside the command: the processes, the runtime, the top level that git names, the
-- readings of numbers and of letters, and the text on the standard input.
pub record TeamCommandDeps (W : Type 0) : Type 0 where
  pub host : Shell W
  pub processes : Processes W
  pub runtime : WatchRuntime W
  pub top_level : Text → W → Option Text
  pub read_days : Text → Option ℕ
  pub positive_integer : Text → Option ℕ
  pub has_alphanumeric : Text → Bool
  pub read_stdin : W → Text

module _ {W : Type 0} (fs : FileSystem W) (deps : TeamCommandDeps W) (env : Dict Text)
    (home cwd : Text) where
  abbrev pub roster_path : W → Text
  roster_path w = (resolve_project fs deps.top_level cwd w).dot_dir ++ text "/agents.yml"

  abbrev pub parsed : Option Text → Option (Result RosterError Roster)
  parsed none = none
  parsed (some s) = some (parse_roster s)

  unfoldable pub load_roster : Text → W → Option (Result RosterError Roster)
  load_roster path w = parsed (fs.read_text_or_undefined path w)

  abbrev pub watch_end : Option (Outcome ℕ W) → Option (TeamOutcome × W)
  watch_end none = none
  watch_end (some (ok rc, w)) = some (watch_ended rc, w)
  watch_end (some (err message, w)) = some (watch_threw message, w)

  abbrev fetcher_end : FetcherOutcome × W → TeamOutcome × W
  fetcher_end (o, w) = (fetcher_ended o, w)

  abbrev post_end : PostOutcome × W → TeamOutcome × W
  post_end (o, w) = (post_ended o, w)

  abbrev dir_end : DirOutcome × W → TeamOutcome × W
  dir_end (o, w) = (dir_ended o, w)

  unfoldable pub as_agent :
      ℕ → SelfVerb → List Text → Roster → RosterResolve → Text → W → Option (TeamOutcome × W)
  as_agent fuel whoami args r found self w = some (self_shown found, w)
  as_agent fuel watch args r found self w =
      watch_end (run_watch fs deps.host deps.runtime env home fuel args self r w)
  as_agent fuel fetcher args r found self w =
      some (fetcher_end (run_fetcher fs deps.processes env home self args w))
  as_agent fuel post args r found self w = some (
      post_end (
        run_post fs deps.host env home deps.positive_integer deps.has_alphanumeric args self r
          (deps.read_stdin w) w))

  unfoldable pub with_self :
      ℕ → SelfVerb → List Text → Roster → RosterResolve → W → Option (TeamOutcome × W)
  unfolding as_agent
  with_self fuel verb args r (from_env self) w = as_agent fuel verb args r (from_env self) self w
  with_self fuel verb args r (from_single_agent self) w =
      as_agent fuel verb args r (from_single_agent self) self w
  with_self fuel verb args r (no_env_and_multi_agent names) w =
      some (no_self (no_env_and_multi_agent names), w)
  with_self fuel verb args r (env_not_in_roster v names) w =
      some (no_self (env_not_in_roster v names), w)

  unfoldable pub with_roster :
      ℕ → TeamVerb → List Text → Option (Result RosterError Roster) → W → Option (TeamOutcome × W)
  unfolding with_self
  with_roster fuel verb args none w = some (roster_absent (roster_path w), w)
  with_roster fuel verb args (some (err e)) w = some (roster_malformed e, w)
  with_roster fuel show_roster args (some (ok r)) w = some (roster_shown r, w)
  with_roster fuel use_dir args (some (ok r)) w =
      some (dir_end (run_dir fs deps.host env deps.read_days args r w))
  with_roster fuel (as_self verb) args (some (ok r)) w =
      with_self fuel verb args r (resolve_self_name env r) w

  abbrev pub run_verb : ℕ → Text → List Text → Option TeamVerb → W → Option (TeamOutcome × W)
  run_verb fuel sub args none w = some (unknown_verb sub, w)
  run_verb fuel sub args (some verb) w =
      if any is_help args
      then some (verb_usage verb, w)
      else with_roster fuel verb args (load_roster (roster_path w) w) w

  -- Fuel counts the rounds of the live loop of the watcher.
  unfoldable pub run_team : ℕ → List Text → W → Option (TeamOutcome × W)
  unfolding verb_of load_roster with_roster
  run_team fuel [] w = some (team_usage false, w)
  run_team fuel (sub ∷ args) w =
      if sub == text ""
      then some (team_usage false, w)
      else if is_help sub
      then some (team_usage true, w)
      else run_verb fuel sub args (verb_of sub) w
