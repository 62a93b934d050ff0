-- ===== src/Examples/Watch.antt =====
-- The agent-team watcher at concrete inputs.
use docker_claudebox.Files.{Done, ◌>>->◌}
use docker_claudebox.Watch.Header.{
  is_token, check_recipients, header_line, format_header, parse_header, surfaces_for_agent,
}
use docker_claudebox.Watch.Header.RoundTrip.{parse-format_header}
use docker_claudebox.Watch.Header.Delivery.{IsAddressed, post-surfaces_iff}
use docker_claudebox.Watch.Event.{WatcherEvent, github, comment}
use docker_claudebox.Watch.Store.{empty_state, default_dedup_cap, mark_delivered, is_delivered}
use docker_claudebox.Watch.Store.Bounds.{mark_delivered-bounded}
use docker_claudebox.Watch.Loop.{
  WatcherSink, WatcherLoopDeps, WatcherTickSummary, polled, finish_tick, save_progress, refuses,
  polled_ok, handle_events, handle_event, refuse_event, hold_event, earlier, begin_tick,
  saved_state, run_one_tick,
}
use docker_claudebox.Watch.Loop.Accounting.{IsAccounted, run_one_tick-IsAccounted}
use docker_claudebox.Watch.Loop.Sound.{IsSound, saved_state-IsSound}
use docker_claudebox.Watch.Loop.Rewind.{IsAccountedFor, saved_state-IsAccountedFor}
use docker_claudebox.Watch.Loop.Budget.{ticks, refused_event-abandoned}
use docker_claudebox.Base.{
  All, Distinct, Text, [], arith, false, insert, length, lookup, none, ok, refl, some, suc, text,
  text_eq, text_ltb, true, ℕ, ◌++◌, ◌+◌, ◌<◌, ◌↔◌, ◌∷◌, ◌≡◌, ◌≢◌, ◌≤◌,
}

abbrev to_bear : Text
to_bear = text "Arfy->Bear:"

format_to_bear : format_header (text "Arfy") (text "Bear" ∷ []) ≡ ok to_bear
unfolding format_header check_recipients is_token header_line
format_to_bear = refl

parse-format_header_example :
    parse_header (to_bear ++ text " merged")
    ≡ some (record { sender = some (text "Arfy"); recipients = text "Bear" ∷ []; legacy = false })
parse-format_header_example =
    parse-format_header (text "Arfy") (text "Bear" ∷ []) to_bear (text " merged") format_to_bear

post-surfaces_iff_example :
    (surfaces_for_agent (parse_header (to_bear ++ text " merged")) (text "Bear") ≡ true)
    ↔ ((text "Arfy" ≢ text "Bear") × IsAddressed (text "Bear" ∷ []) (text "Bear"))
post-surfaces_iff_example =
    post-surfaces_iff (text "Arfy") (text "Bear" ∷ []) to_bear (text " merged") (text "Bear")
      format_to_bear

-- An event without a header, which every agent gets.
abbrev note : Text → Text → WatcherEvent
note hash at = record {
  source = github;
  kind = comment;
  ref = text "github:#1#body";
  header = none;
  summary = [];
  event_hash = hash;
  cursor = at;
  observed_at = at;
}

abbrev first_note : WatcherEvent
first_note = note (text "aa") (text "2026-01-01")

abbrev second_note : WatcherEvent
second_note = note (text "bb") (text "2026-01-02")

-- A sink that refuses everything, and counts what it is offered.
abbrev refusing : WatcherSink ℕ
refusing = record {
  on_event = λ e w. (refuses, w + 1);
  on_event_abandoned = none;
  on_poll_failed = none;
  on_tick_complete = none;
}

abbrev refusing_deps : WatcherLoopDeps ℕ
refusing_deps = record {
  source = github;
  poll = λ c w. (ok (polled_ok (second_note ∷ (first_note ∷ [])) (text "2026-01-03")), w);
  load = λ w. (empty_state, w);
  save = λ s w. (ok Done.done, w);
  sink = refusing;
  self_name = text "Bear";
  now = λ w. (0, w);
}

-- Both are refused, and held.
abbrev two_held : WatcherTickSummary
two_held = record {
  source = github;
  kind = polled;
  seen = 2;
  surfaced = 0;
  skipped = 0;
  deduped = 0;
  failed = 2;
  abandoned = 0;
  elapsed_ms = 0;
}

tick_runs : run_one_tick refusing_deps 0 ≡ (ok two_held, 2)
unfolding run_one_tick finish_tick save_progress handle_events handle_event is_delivered
    surfaces_for_agent refuse_event hold_event earlier lookup insert text_ltb ◌>>->◌
tick_runs = refl

run_one_tick-IsAccounted_example : IsAccounted two_held
run_one_tick-IsAccounted_example = run_one_tick-IsAccounted refusing_deps 0 two_held 2 tick_runs

-- Both refused, the cursor goes back to the earlier one.
rewound :
    (saved_state
      (handle_events refusing
        (text "Bear")
        (second_note ∷ (first_note ∷ []))
        (begin_tick empty_state 0))
      (text "2026-01-03")).cursor
    ≡ text "2026-01-01"
unfolding saved_state handle_events handle_event is_delivered surfaces_for_agent refuse_event
    hold_event earlier lookup insert text_ltb
rewound = refl

empty-IsSound : IsSound empty_state
unfolding lookup
empty-IsSound = record {
  distinct = tt;
  bounded = omega arith;
  budget = λ h n e. cc e;
  settled = λ h e. refl;
}

saved_state-IsSound_example : IsSound (
    saved_state
      (handle_events refusing (text "Bear") (first_note ∷ []) (begin_tick empty_state 0))
      (text "2026-01-03"))
saved_state-IsSound_example =
    saved_state-IsSound refusing (text "Bear") (first_note ∷ []) empty_state 0 (text "2026-01-03")
      empty-IsSound

first_quiet :
    (handle_events refusing (text "Bear") (first_note ∷ []) (begin_tick empty_state 0)).thrown
    ≡ none
unfolding handle_events handle_event is_delivered surfaces_for_agent refuse_event hold_event lookup
first_quiet = refl

saved_state-IsAccountedFor_example :
    All
      (IsAccountedFor (text "Bear") (
        saved_state
          (handle_events refusing (text "Bear") (first_note ∷ []) (begin_tick empty_state 0))
          (text "2026-01-03")))
      (first_note ∷ [])
saved_state-IsAccountedFor_example =
    saved_state-IsAccountedFor refusing (text "Bear") (first_note ∷ []) empty_state 0
      (text "2026-01-03") (omega arith) first_quiet

surfaces_first : surfaces_for_agent first_note.header (text "Bear") ≡ true
unfolding surfaces_for_agent
surfaces_first = refl

not_delivered_first : is_delivered empty_state first_note.event_hash ≡ false
unfolding is_delivered
not_delivered_first = refl

uncounted_first : lookup {V = ℕ} first_note.event_hash [] ≡ none
unfolding lookup
uncounted_first = refl

refused_event-abandoned_example :
    ((n : ℕ)
      → n < 9
      → (is_delivered
            (ticks refusing (text "Bear") first_note (text "2026-01-03") (suc n) (empty_state, 0)).0
            first_note.event_hash
          ≡ false)
        × ((ticks refusing
              (text "Bear")
              first_note
              (text "2026-01-03")
              (suc n)
              (empty_state, 0)).0.cursor
            ≡ first_note.cursor))
    × (is_delivered
          (ticks refusing (text "Bear") first_note (text "2026-01-03") 10 (empty_state, 0)).0
          first_note.event_hash
        ≡ true)
    × (lookup first_note.event_hash
          (ticks refusing
            (text "Bear")
            first_note
            (text "2026-01-03")
            10
            (empty_state, 0)).0.attempts
        ≡ none)
    × ((ticks refusing (text "Bear") first_note (text "2026-01-03") 10 (empty_state, 0)).0.cursor
        ≡ text "2026-01-03")
refused_event-abandoned_example =
    refused_event-abandoned refusing (text "Bear") first_note (text "2026-01-03") (empty_state, 0)
      surfaces_first (λ w. refl) (λ n w. refl) not_delivered_first uncounted_first

mark_delivered-bounded_example :
    Distinct (mark_delivered empty_state (text "aa") [] default_dedup_cap).delivered
    × (length (mark_delivered empty_state (text "aa") [] default_dedup_cap).delivered
        ≤ default_dedup_cap)
mark_delivered-bounded_example =
    mark_delivered-bounded empty_state (text "aa") [] default_dedup_cap tt
