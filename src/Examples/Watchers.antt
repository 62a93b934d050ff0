-- ===== src/Examples/Watchers.antt =====
-- The watcher's file of state and a poll, at concrete inputs.
use docker_claudebox.Examples.Desk.{Desk, desk_files, desk_shell}
use docker_claudebox.Files.{Done, ◌>>->◌}
use docker_claudebox.Files.Memory.{Memory, memory, memory-IsLawful}
use docker_claudebox.Team.Watching.{WatchRuntime, watch_deps, watch_loop, default_options}
use docker_claudebox.Team.Watching.Stop.{EndsBy, rounds, watch_loop-EndsBy}
use docker_claudebox.Watch.Event.{github, WatcherEvent}
use docker_claudebox.Watch.Github.{
  Runtime, build_event, poll_github, sort_events, bump_iso_1ms, latest_of,
}
use docker_claudebox.Watch.Loop.{WatcherLoopDeps}
use docker_claudebox.Watch.Persist.{Json, encode_state, load_state, save_state, state_path}
use docker_claudebox.Watch.Persist.RoundTrip.{IsStorable, load-save_state}
use docker_claudebox.Watch.Store.{WatcherStoreState}
use docker_claudebox.Base.{
  List, Option, Result, Text, [], arith, drop_run, insert, is_space, leb, length, lookup, ltb, none,
  ok, read_number, refl, show_number, some, text, trim, trim_end, trim_start, ◌∷◌, ◌≡◌,
}

abbrev held : WatcherStoreState
held = record {
  cursor = text "2026-07-22T01:02:03Z";
  delivered = text "h1" ∷ text "h2" ∷ [];
  attempts = (text "h3", 4) ∷ [];
}

abbrev print_held : Json → Text
print_held j = text "{held}"

abbrev parse_held : Text → Option Json
parse_held s = some (encode_state 500 held)

abbrev held_file : Memory
held_file = (text "/x/watch/github.state.json", text "{held}") ∷ []

held-IsStorable : IsStorable 500 held
unfolding lookup
held-IsStorable = record { fits = omega arith; counts = (omega arith, refl, tt) }

held_is_saved :
    save_state memory parse_held print_held (text "/x/watch") github 500 held []
    ≡ (ok Done.done, held_file)
unfolding save_state state_path ◌>>->◌ insert
held_is_saved = refl

load-save_state_example :
    load_state memory parse_held print_held (text "/x/watch") github 500 held_file ≡ held
unfolding trim trim_start trim_end drop_run is_space
load-save_state_example =
    load-save_state memory memory-IsLawful parse_held print_held (text "/x/watch") github 500 held
      refl (λ e. cc e) held-IsStorable Done.done [] held_file held_is_saved

-- Every line is the body of a comment on issue 7; texts are ordered by their lengths.
abbrev lines_runtime : Runtime
lines_runtime = record {
  parse_comment = λ line. some (
      some (record {
        id = some 5;
        body = some line;
        issue_url = some (text "https://x/issues/7");
        created_at = some (text "t1");
        updated_at = none;
      }));
  parse_issue = λ line. some (
      some (record {
        number = some 8;
        body = some line;
        created_at = some (text "t");
        updated_at = none;
      }));
  encode_uri_component = λ s. s;
  not_greater = λ a b. leb (length a) (length b);
  parse_date = λ s. some (length s);
  to_iso = λ t. show_number t;
  bun_hash = some (λ s. 7);
}

abbrev quiet_desk : Desk
quiet_desk = record { files = []; log = []; signals = []; removed = [] }

-- What the poll of the desk sees.
unfoldable polled_events : List WatcherEvent
polled_events = sort_events lines_runtime (text "o/r") (
    build_event lines_runtime (text "o/r") (text "github:#7#comment-5")
      (text "https://example.org/1") (text "t1")
    ∷ build_event lines_runtime (text "o/r") (text "github:#8#body") (text "https://example.org/1")
        (text "t")
    ∷ [])

unfoldable polled_cursor : Text
unfolding polled_events
polled_cursor =
    bump_iso_1ms lines_runtime (text "o/r")
      (latest_of lines_runtime (text "o/r") (text "c") polled_events)

unfoldable polled_desk : Desk
polled_desk =
    (poll_github lines_runtime (text "o/r") desk_shell (λ w. text "now") (text "c") quiet_desk).1

-- A signal lands in the first sleep.
abbrev asked_desk : Desk
asked_desk = record { files = []; log = []; signals = 15 ∷ []; removed = [] }

abbrev idle_desk : Desk
idle_desk = record { files = []; log = []; signals = []; removed = [] }

abbrev pub signalled_runtime : WatchRuntime Desk
signalled_runtime = record {
  read_interval = λ s. some (read_number s);
  github_runtime = lines_runtime;
  parse_json = parse_held;
  stringify = print_held;
  stringify_record = λ r. r.ref;
  stringify_heartbeat = λ h. h.at_iso;
  now_iso = λ w. text "2026-07-22T01:02:03Z";
  now = λ w. (0, w);
  sleep = λ ms w. asked_desk;
  stopped = λ w. ltb 0 (length w.signals);
}

abbrev signalled_deps : WatcherLoopDeps Desk
signalled_deps =
    watch_deps desk_files desk_shell signalled_runtime [] (text "/h") default_options (text "a/b")
      (text "/x/watch") (text "Bear")

watch_loop-EndsBy_example :
    (r : Result Text Done) × (w' : Desk) × (watch_loop desk_files desk_shell signalled_runtime []
        (text "/h")
        2
        signalled_deps
        30000
        idle_desk
      ≡ some (r, w'))
    × EndsBy desk_files desk_shell signalled_runtime []
        (text "/h")
        signalled_deps
        30000
        1
        idle_desk
        r
        w'
unfolding rounds
watch_loop-EndsBy_example =
    watch_loop-EndsBy desk_files desk_shell signalled_runtime [] (text "/h") signalled_deps 30000 1
      idle_desk refl
