-- ===== src/Team/Fetcher.antt =====
-- cli/commands/TeamCommand.ts, runFetcher: the status of the detached fetcher and its end.
pub mod Signals
use mathlib.Core.List.{reverse}
use docker_claudebox.Files.{FileSystem, Outcome, Done}
use docker_claudebox.Config.Machine.{xdg_root}
use docker_claudebox.Watch.Inbox.{inbox_path_for, pidfile_for, logfile_for}
use docker_claudebox.Watch.Liveness.{ProcessProbe, is_pid_alive}
use docker_claudebox.Base.{
  Bool, Dict, List, Option, Result, Text, [], after_prefix, err, false, if◌then◌else◌, includes,
  none, not, ok, some, split_on, suc, take, text, text_eq, trim, true, ℕ, ◌==◌, ◌||◌, ◌∷◌,
}

pub data FetcherVerb : Type 0 where
  status stop show_log : FetcherVerb

pub record FetcherOptions : Type 0 where
  pub inbox : Option Text
  pub lines : ℕ

-- How a call of the fetcher's verbs has ended.
pub data FetcherOutcome : Type 0 where
  usage : Bool → FetcherOutcome
  unknown_subcommand : Text → FetcherOutcome
  bad_argument : Text → FetcherOutcome
  no_pidfile : FetcherOutcome
  malformed_pidfile : FetcherOutcome
  reported : Bool → FetcherOutcome
  stale_pidfile : FetcherOutcome
  signalled : ℕ → FetcherOutcome
  already_gone : FetcherOutcome
  signal_failed : FetcherOutcome
  no_log : FetcherOutcome
  printed : List Text → FetcherOutcome

-- The exit code, for the verb that was run.
unfoldable pub fetcher_rc : FetcherVerb → FetcherOutcome → ℕ
fetcher_rc verb (usage asked) = if asked then 0 else 1
fetcher_rc verb (unknown_subcommand sub) = 1
fetcher_rc verb (bad_argument a) = 1
fetcher_rc verb no_pidfile = 2
fetcher_rc verb malformed_pidfile = 1
fetcher_rc verb (reported alive) = if alive then 0 else 1
fetcher_rc verb stale_pidfile = 0
fetcher_rc verb (signalled pid) = 0
fetcher_rc verb already_gone = 0
fetcher_rc verb signal_failed = 1
fetcher_rc verb no_log = 2
fetcher_rc verb (printed lines) = 0

-- The number that a pidfile holds, where it is finite and positive; the value of `--lines`, rounded
-- down, where it is finite and at least 1; the processes; and `process.kill(pid, "SIGTERM")`, whose
-- throw is its message.
pub record Processes (W : Type 0) : Type 0 where
  pub read_pid : Text → Option ℕ
  pub read_lines : Text → Option ℕ
  pub probe : W → ProcessProbe
  pub terminate : ℕ → W → Outcome Done W

abbrev verb_of : Text → Option FetcherVerb
verb_of sub =
    if sub == text "status"
    then some status
    else if sub == text "stop"
    then some stop
    else if sub == text "log"
    then some show_log
    else none

abbrev drop_empty_end : List Text → List Text
drop_empty_end [] = []
drop_empty_end (l ∷ []) = if l == [] then [] else l ∷ []
drop_empty_end (l ∷ (m ∷ ls)) = l ∷ drop_empty_end (m ∷ ls)

-- `all.slice(-lines - 1)` without an empty last line.
unfoldable pub last_lines : ℕ → Text → List Text
last_lines n s = drop_empty_end (reverse (take (suc n) (reverse (split_on 10 s))))

module _ {W : Type 0} (fs : FileSystem W) (ps : Processes W) (env : Dict Text)
    (home self : Text) where
  abbrev given_inbox : FetcherOptions → Text → Option Text → Result Text FetcherOptions
  given_inbox o a none = err a
  given_inbox o a (some path) = ok (record o { inbox = some path })

  -- The flags; `--inbox` and `--lines` want a value.
  unfoldable pub parse_fetcher_args : List Text → FetcherOptions → Result Text FetcherOptions
  parse_fetcher_args [] o = ok o
  parse_fetcher_args (a ∷ []) o = given_inbox o a (after_prefix (text "--inbox=") a)
  parse_fetcher_args (a ∷ (v ∷ rest)) o = elim (a == text "--inbox") [
    | true ↦ parse_fetcher_args rest (record o { inbox = some v })
    | false ↦ elim (after_prefix (text "--inbox=") a) [
      | some path ↦ parse_fetcher_args (v ∷ rest) (record o { inbox = some path })
      | none ↦ elim (a == text "--lines") [
        | false ↦ err a
        | true ↦ elim (ps.read_lines v) [
          | none ↦ err v
          | some n ↦ parse_fetcher_args rest (record o { lines = n })
        ]
      ]
    ]
  ]

  abbrev inbox_or_default : Option Text → W → Text
  inbox_or_default (some path) w = path
  inbox_or_default none w = inbox_path_for (xdg_root fs env home w) self

  abbrev report_pid : Text → Option ℕ → W → FetcherOutcome × W
  report_pid inbox none w = (malformed_pidfile, w)
  report_pid inbox (some pid) w = (reported (is_pid_alive pid (some inbox) (ps.probe w)), w)

  abbrev report_status : Text → Option Text → W → FetcherOutcome × W
  report_status inbox none w = (no_pidfile, w)
  report_status inbox (some s) w = report_pid inbox (ps.read_pid (trim s)) w

  unfoldable pub fetcher_status : Text → W → FetcherOutcome × W
  fetcher_status inbox w = report_status inbox (fs.read_text_or_undefined (pidfile_for inbox) w) w

  -- A file that cannot be removed is left.
  abbrev without : Text → W → W
  without path w = (fs.remove_file path w).1

  -- The answer of the signal: a process that is gone has been stopped.
  abbrev pub after_signal : Text → ℕ → Outcome Done W → FetcherOutcome × W
  after_signal inbox pid (ok _, w) = (signalled pid, w)
  after_signal inbox pid (err message, w) =
      if includes (text "ESRCH") message || includes (text "no such process") message
      then (already_gone, without (pidfile_for inbox) w)
      else (signal_failed, w)

  abbrev pub stop_pid : Text → Option ℕ → W → FetcherOutcome × W
  stop_pid inbox none w = (malformed_pidfile, without (pidfile_for inbox) w)
  stop_pid inbox (some pid) w =
      if not (is_pid_alive pid (some inbox) (ps.probe w))
      then (stale_pidfile, without (pidfile_for inbox) w)
      else after_signal inbox pid (ps.terminate pid w)

  abbrev pub stop_recorded : Text → Option Text → W → FetcherOutcome × W
  stop_recorded inbox none w = (no_pidfile, w)
  stop_recorded inbox (some s) w = stop_pid inbox (ps.read_pid (trim s)) w

  unfoldable pub fetcher_stop : Text → W → FetcherOutcome × W
  fetcher_stop inbox w = stop_recorded inbox (fs.read_text_or_undefined (pidfile_for inbox) w) w

  abbrev print_log : ℕ → Option Text → FetcherOutcome
  print_log n none = no_log
  print_log n (some s) = printed (last_lines n s)

  unfoldable pub fetcher_log : Text → ℕ → W → FetcherOutcome × W
  unfolding last_lines
  fetcher_log inbox n w = (print_log n (fs.read_text_or_undefined (logfile_for inbox) w), w)

  abbrev run_verb : FetcherVerb → Result Text FetcherOptions → W → FetcherOutcome × W
  run_verb verb (err a) w = (bad_argument a, w)
  run_verb status (ok o) w = fetcher_status (inbox_or_default o.inbox w) w
  run_verb stop (ok o) w = fetcher_stop (inbox_or_default o.inbox w) w
  run_verb show_log (ok o) w = fetcher_log (inbox_or_default o.inbox w) o.lines w

  abbrev run_verb_in : Text → Option FetcherVerb → List Text → W → FetcherOutcome × W
  run_verb_in sub none args w = (unknown_subcommand sub, w)
  run_verb_in sub (some verb) args w =
      run_verb verb (parse_fetcher_args args (record { inbox = none; lines = 40 })) w

  unfoldable pub run_fetcher : List Text → W → FetcherOutcome × W
  unfolding parse_fetcher_args fetcher_status fetcher_stop fetcher_log
  run_fetcher [] w = (usage false, w)
  run_fetcher (sub ∷ args) w =
      if sub == text ""
      then (usage false, w)
      else if (sub == text "-h") || (sub == text "--help")
      then (usage true, w)
      else run_verb_in sub (verb_of sub) args w
