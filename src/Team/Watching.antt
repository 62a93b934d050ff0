-- ===== src/Team/Watching.antt =====
-- cli/commands/TeamCommand.ts, runWatch: the arguments, the sinks and the live loop.
pub mod Stop
use docker_claudebox.Config.Machine.{xdg_root}
use docker_claudebox.Files.{FileSystem, Outcome, ◌>>->◌, Done}
use docker_claudebox.Team.Post.{checked_repo, or_roster, PostError, is_repo}
use docker_claudebox.Team.Roster.{Roster}
use docker_claudebox.Team.Send.{Shell}
use docker_claudebox.Watch.Event.{github, WatcherEvent}
use docker_claudebox.Watch.Github.{Runtime, poll_github}
use docker_claudebox.Watch.Inbox.{InboxRecord, deliver_to_inbox, pidfile_for}
use docker_claudebox.Watch.Loop.{
  Answer, accepts, refuses, WatcherSink, WatcherTickSummary, WatcherLoopDeps, poll_failed, polled,
  TickKind, run_one_tick,
}
use docker_claudebox.Watch.Persist.{Json, load_state, save_state}
use docker_claudebox.Watch.Store.{default_dedup_cap}
use docker_claudebox.Base.{
  Bool, Dict, List, Option, Result, Text, [], after_prefix, any, err, false, if◌then◌else◌, lookup,
  ltb, nat_beq, none, not, ok, show_number, some, suc, text, text_eq, true, zero, ℕ, ◌++◌, ◌==◌,
  ◌||◌, ◌∷◌,
}

pub record WatchOptions : Type 0 where
  pub once : Bool
  pub interval_ms : ℕ
  pub repo : Option Text
  pub state_dir : Option Text
  pub inbox : Option Text

abbrev pub default_options : WatchOptions
default_options = record {
  once = false;
  interval_ms = 30000;
  repo = none;
  state_dir = none;
  inbox = none;
}

-- The record of a tick that a sink writes as JSON.
pub record Heartbeat : Type 0 where
  pub summary : WatcherTickSummary
  pub at_iso : Text
  pub self_name : Text
  pub repo : Text
  pub inbox : Option Text

-- What the runtime gives: `Number(s)` in milliseconds where it is finite and at least 1000, rounded
-- down; JSON; the clock; the sleep; and whether a signal has asked for the end.
pub record WatchRuntime (W : Type 0) : Type 0 where
  pub read_interval : Text → Option ℕ
  pub github_runtime : Runtime
  pub parse_json : Text → Option Json
  pub stringify : Json → Text
  pub stringify_record : InboxRecord → Text
  pub stringify_heartbeat : Heartbeat → Text
  pub now_iso : W → Text
  pub now : W → ℕ × W
  pub sleep : ℕ → W → W
  pub stopped : W → Bool

module _ {W : Type 0} (fs : FileSystem W) (sh : Shell W) (rt : WatchRuntime W) (env : Dict Text)
    (home : Text) where
  abbrev flag_with_value : WatchOptions → Text → Option WatchOptions
  flag_with_value o a = elim (a == text "--once") [
    | true ↦ some (record o { once = true })
    | false ↦ elim (after_prefix (text "--repo=") a) [
      | some repo ↦ some (record o { repo = some repo })
      | none ↦ elim (after_prefix (text "--inbox=") a) [
        | some inbox ↦ some (record o { inbox = some inbox })
        | none ↦ none
      ]
    ]
  ]

  abbrev with_interval : WatchOptions → Option ℕ → Option WatchOptions
  with_interval o none = none
  with_interval o (some n) = some (record o { interval_ms = n })

  -- A flag and the value behind it: not such a flag, or what it makes of the options.
  abbrev flag_before : WatchOptions → Text → Text → Option (Option WatchOptions)
  flag_before o a v =
      if a == text "--repo"
      then some (some (record o { repo = some v }))
      else if a == text "--interval"
      then some (with_interval o (rt.read_interval v))
      else if a == text "--state-dir"
      then some (some (record o { state_dir = some v }))
      else if a == text "--inbox"
      then some (some (record o { inbox = some v }))
      else none

  unfoldable pub parse_watch_flags : List Text → WatchOptions → Option WatchOptions
  parse_watch_flags [] o = some o
  parse_watch_flags (a ∷ []) o = flag_with_value o a
  parse_watch_flags (a ∷ (v ∷ rest)) o = elim (flag_before o a v) [
    | some none ↦ none
    | some (some o₁) ↦ parse_watch_flags rest o₁
    | none ↦ elim (flag_with_value o a) [ none ↦ none | some o₁ ↦ parse_watch_flags (v ∷ rest) o₁ ]
  ]

  abbrev from_env : WatchOptions → Option Text → WatchOptions
  from_env o none = o
  from_env o (some v) = elim (rt.read_interval v) [
    | none ↦ o
    | some n ↦ if v == [] then o else record o { interval_ms = n }
  ]

  abbrev env_over : Option WatchOptions → Option WatchOptions
  env_over none = none
  env_over (some o) = some (from_env o (lookup (text "DRIDOCK_WATCH_POLL_INTERVAL_MS") env))

  unfoldable pub parse_watch_args : List Text → Option WatchOptions
  unfolding parse_watch_flags
  parse_watch_args args = env_over (parse_watch_flags args default_options)

  abbrev answer_of : Bool × W → Answer × W
  answer_of (true, w) = (accepts, w)
  answer_of (false, w) = (refuses, w)

  abbrev is_poll_failed : TickKind → Bool
  is_poll_failed poll_failed = true
  is_poll_failed polled = false

  abbrev is_quiet : WatcherTickSummary → Bool
  is_quiet s =
      not (ltb 0 s.seen || (ltb 0 s.failed || (ltb 0 s.abandoned || is_poll_failed s.kind)))

  -- The heartbeat is overwritten at every tick; a write that throws is passed over.
  unfoldable pub beat : Text → Text → W → W
  beat heartbeat line w = (fs.write_text heartbeat line w).1

  -- The history grows by the ticks that did something.
  unfoldable pub note_tick : Text → WatcherTickSummary → Text → W → W
  unfolding beat
  note_tick heartbeat summary line w =
      let w₁ = beat heartbeat line w in
      if is_quiet summary
      then w₁
      else (fs.append_text (heartbeat ++ text ".log") (line ++ text "\n") w₁).1

  abbrev line_of : Text → Text → Option Text → WatcherTickSummary → W → Text
  line_of self repo inbox summary w = rt.stringify_heartbeat (record {
    summary = summary;
    at_iso = rt.now_iso w;
    self_name = self;
    repo = repo;
    inbox = inbox;
  })

  unfoldable pub inbox_sink : Text → Text → Text → Text → WatcherSink W
  unfolding note_tick
  inbox_sink inbox self repo heartbeat = record {
    on_event = λ event w. answer_of (deliver_to_inbox fs rt.stringify_record inbox repo event w);
    on_event_abandoned = some (λ event tries w. (ok Done.done, w));
    on_poll_failed = some (λ source reason w. (ok Done.done, w));
    on_tick_complete = some (λ summary w.
        (ok Done.done, note_tick heartbeat summary (line_of self repo (some inbox) summary w) w));
  }

  -- What is printed changes no state.
  unfoldable pub stdout_sink : Text → Text → Text → WatcherSink W
  unfolding beat
  stdout_sink self repo heartbeat = record {
    on_event = λ event w. (accepts, w);
    on_event_abandoned = none;
    on_poll_failed = some (λ source reason w. (ok Done.done, w));
    on_tick_complete =
        some (λ summary w. (ok Done.done, beat heartbeat (line_of self repo none summary w) w));
  }

  abbrev sink_for : Option Text → Text → Text → Text → WatcherSink W
  sink_for (some inbox) self repo heartbeat = inbox_sink inbox self repo heartbeat
  sink_for none self repo heartbeat = stdout_sink self repo heartbeat

  unfoldable pub watch_deps : WatchOptions → Text → Text → Text → WatcherLoopDeps W
  unfolding inbox_sink stdout_sink
  watch_deps o repo dir self = record {
    source = github;
    poll = poll_github rt.github_runtime repo sh rt.now_iso;
    load = λ w. (load_state fs rt.parse_json rt.stringify dir github default_dedup_cap w, w);
    save = save_state fs rt.parse_json rt.stringify dir github default_dedup_cap;
    sink = sink_for o.inbox self repo (dir ++ text "/github.heartbeat");
    self_name = self;
    now = rt.now;
  }

  -- The loop after a tick: a throw of the tick ends it; else the end may have been asked for.
  abbrev pub after_tick :
      Outcome WatcherTickSummary W → Option (Outcome Done W) → Option (Outcome Done W)
  after_tick (err message, w) later = some (err message, w)
  after_tick (ok summary, w) later = if rt.stopped w then some (ok Done.done, w) else later

  -- One tick, unless the end was asked for; then the sleep, which a signal cuts short. Fuel counts
  -- the rounds; none is left when the loop has not ended.
  unfoldable pub watch_loop : ℕ → WatcherLoopDeps W → ℕ → W → Option (Outcome Done W)
  watch_loop zero deps interval w = none
  watch_loop (suc n) deps interval w =
      let later = watch_loop n deps interval (rt.sleep interval (run_one_tick deps w).1) in
      if rt.stopped w then some (ok Done.done, w) else after_tick (run_one_tick deps w) later

  -- `inbox.substring(0, inbox.lastIndexOf("/"))`
  unfoldable pub folder_of : Text → Text
  folder_of [] = []
  folder_of (c ∷ s) = let rest = folder_of s in if any (λ d. nat_beq d b'/') s then c ∷ rest else []

  -- The pidfile of a live fetcher; a write that throws is reported and passed over.
  abbrev write_pidfile : Option Text → W → W
  write_pidfile none w = w
  write_pidfile (some inbox) w =
      (fs.mkdir_recursive (folder_of inbox) w >>-> λ _ w₁.
      fs.write_text (pidfile_for inbox) (show_number sh.pid ++ text "\n") w₁).1

  abbrev drop_pidfile : Option Text → W → W
  drop_pidfile none w = w
  drop_pidfile (some inbox) w = (fs.remove_file (pidfile_for inbox) w).1

  -- The pidfile is removed however the loop ends.
  abbrev ended : Option Text → Option (Outcome Done W) → Option (Outcome ℕ W)
  ended inbox none = none
  ended inbox (some (ok _, w)) = some (ok 0, drop_pidfile inbox w)
  ended inbox (some (err message, w)) = some (err message, drop_pidfile inbox w)

  abbrev ticked : Outcome WatcherTickSummary W → Outcome ℕ W
  ticked (ok _, w) = (ok 0, w)
  ticked (err message, w) = (err message, w)

  abbrev state_dir_of : Option Text → W → Text
  state_dir_of (some dir) w = dir
  state_dir_of none w = xdg_root fs env home w ++ text "/watch-cursors"

  abbrev watch_repo : ℕ → WatchOptions → Text → Result PostError Text → W → Option (Outcome ℕ W)
  watch_repo fuel o self (err e) w = some (ok 1, w)
  watch_repo fuel o self (ok repo) w =
      let deps = watch_deps o repo (state_dir_of o.state_dir w) self in
      if o.once
      then some (ticked (run_one_tick deps w))
      else ended o.inbox (watch_loop fuel deps o.interval_ms (write_pidfile o.inbox w))

  abbrev watch_with : ℕ → Text → Roster → Option WatchOptions → W → Option (Outcome ℕ W)
  watch_with fuel self roster none w = some (ok 1, w)
  watch_with fuel self roster (some o) w =
      watch_repo fuel o self (checked_repo (or_roster o.repo roster.github_repo)) w

  unfoldable pub run_watch : ℕ → List Text → Text → Roster → W → Option (Outcome ℕ W)
  unfolding parse_watch_args watch_deps watch_loop folder_of is_repo
  run_watch fuel args self roster w = watch_with fuel self roster (parse_watch_args args) w
