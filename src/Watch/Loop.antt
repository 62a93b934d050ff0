-- ===== src/Watch/Loop.antt =====
-- services/WatcherLoop.ts: one poll cycle.
pub mod Accounting
pub mod Sound
pub mod Cases
pub mod Rewind
pub mod Budget
use docker_claudebox.Files.{Outcome, ◌>>->◌, Done}
use docker_claudebox.Watch.Header.{surfaces_for_agent}
use docker_claudebox.Watch.Event.{WatcherSource, WatcherEvent}
use docker_claudebox.Watch.Store.{
  WatcherStoreState, default_dedup_cap, is_delivered, mark_delivered,
}
use docker_claudebox.Base.{
  Bool, Dict, List, Option, Result, Text, [], err, false, if◌then◌else◌, insert, leb, length,
  lookup, none, not, ok, remove, some, text_ltb, true, ℕ, ◌+◌, ◌-◌, ◌∷◌,
}

abbrev pub max_delivery_attempts : ℕ
max_delivery_attempts = 10

-- What `onEvent` does: return true or nothing, return false, or throw.
pub data Answer : Type 0 where
  accepts refuses throws : Answer

pub data TickKind : Type 0 where
  polled poll_failed : TickKind

pub record WatcherTickSummary : Type 0 where
  pub source : WatcherSource
  pub kind : TickKind
  pub seen : ℕ
  pub surfaced : ℕ
  pub skipped : ℕ
  pub deduped : ℕ
  pub failed : ℕ
  pub abandoned : ℕ
  pub elapsed_ms : ℕ

-- `WatcherSink`, over the state `W` of everything outside the loop. An optional callback that is
-- left out is `none`.
pub record WatcherSink (W : Type 0) : Type 0 where
  pub on_event : WatcherEvent → W → Answer × W
  pub on_event_abandoned : Option (WatcherEvent → ℕ → W → Outcome Done W)
  pub on_poll_failed : Option (WatcherSource → Text → W → Outcome Done W)
  pub on_tick_complete : Option (WatcherTickSummary → W → Outcome Done W)

-- `WatchSourcePollOutcome`
pub data PollOutcome : Type 0 where
  polled_ok : List WatcherEvent → Text → PollOutcome
  polled_badly : Text → PollOutcome

pub record WatcherLoopDeps (W : Type 0) : Type 0 where
  pub source : WatcherSource
  pub poll : Text → W → Outcome PollOutcome W
  pub load : W → WatcherStoreState × W
  pub save : WatcherStoreState → W → Outcome Done W
  pub sink : WatcherSink W
  pub self_name : Text
  pub now : W → ℕ × W

-- The variables of the delivery loop, and what it threw, if it did.
pub record Progress (W : Type 0) : Type 0 where
  pub next_state : WatcherStoreState
  pub surfaced : ℕ
  pub skipped : ℕ
  pub deduped : ℕ
  pub failed : ℕ
  pub abandoned : ℕ
  pub attempts : Dict ℕ
  pub earliest_failed_cursor : Option Text
  pub thrown : Option Text
  pub world : W

abbrev pub accepted : Answer → Bool
accepted accepts = true
accepted _ = false

-- `earliestFailedCursor === undefined || event.cursor < earliestFailedCursor`
unfoldable pub earlier : Option Text → Text → Option Text
earlier none c = some c
earlier (some e) c = if text_ltb c e then some c else some e

abbrev pub or_zero : Option ℕ → ℕ
or_zero none = 0
or_zero (some n) = n

-- `earliestFailedCursor ?? outcome.newCursor`
abbrev pub cursor_or : Option Text → Text → Text
cursor_or none c = c
cursor_or (some e) c = e

abbrev pub failed_summary : WatcherSource → ℕ → WatcherTickSummary
failed_summary source elapsed = record {
  source = source;
  kind = poll_failed;
  seen = 0;
  surfaced = 0;
  skipped = 0;
  deduped = 0;
  failed = 0;
  abandoned = 0;
  elapsed_ms = elapsed;
}

abbrev pub thrown_in : Result Text Done → Option Text
thrown_in (ok _) = none
thrown_in (err message) = some message

module _ {W : Type 0} where
  abbrev pub tell_abandoned : WatcherSink W → WatcherEvent → ℕ → W → Outcome Done W
  tell_abandoned sink event tries w = elim sink.on_event_abandoned [
    | none ↦ (ok Done.done, w)
    | some f ↦ f event tries w
  ]

  abbrev tell_poll_failed : WatcherSink W → WatcherSource → Text → W → Outcome Done W
  tell_poll_failed sink source reason w = elim sink.on_poll_failed [
    | none ↦ (ok Done.done, w)
    | some f ↦ f source reason w
  ]

  -- The end of a tick: the summary, unless the callback throws.
  abbrev pub tell_complete : WatcherSink W → WatcherTickSummary → W → Outcome WatcherTickSummary W
  tell_complete sink summary w = elim sink.on_tick_complete [
    | none ↦ (ok summary, w)
    | some f ↦ f summary w >>-> λ _ w₁. (ok summary, w₁)
  ]

  -- The branch `!accepted`, for the given count of tries: give up on the event, or hold it.
  unfoldable pub abandon_event : WatcherSink W → WatcherEvent → ℕ → W → Progress W → Progress W
  abandon_event sink event tries w p = record p {
    abandoned = p.abandoned + 1;
    attempts = remove event.event_hash p.attempts;
    next_state = mark_delivered p.next_state event.event_hash event.cursor default_dedup_cap;
    thrown = thrown_in (tell_abandoned sink event tries w).0;
    world = (tell_abandoned sink event tries w).1;
  }

  unfoldable pub hold_event : WatcherEvent → ℕ → W → Progress W → Progress W
  hold_event event tries w p = record p {
    attempts = insert event.event_hash tries p.attempts;
    failed = p.failed + 1;
    earliest_failed_cursor = earlier p.earliest_failed_cursor event.cursor;
    world = w;
  }

  unfoldable pub refuse_event : WatcherSink W → WatcherEvent → W → Progress W → Progress W
  refuse_event sink event w p =
      let tries = or_zero (lookup event.event_hash p.attempts) + 1 in
      if leb max_delivery_attempts tries
      then abandon_event sink event tries w p
      else hold_event event tries w p

  unfoldable pub accept_event : WatcherEvent → W → Progress W → Progress W
  accept_event event w p = record p {
    attempts = remove event.event_hash p.attempts;
    next_state = mark_delivered p.next_state event.event_hash event.cursor default_dedup_cap;
    surfaced = p.surfaced + 1;
    world = w;
  }

  -- One round of `for (const event of outcome.events)`.
  unfoldable pub handle_event : WatcherSink W → Text → WatcherEvent → Progress W → Progress W
  handle_event sink self event p =
      if is_delivered p.next_state event.event_hash
      then record p { deduped = p.deduped + 1 }
      else if not (surfaces_for_agent event.header self)
      then record p { skipped = p.skipped + 1 }
      else let (answer, w) = sink.on_event event p.world in
        if accepted answer then accept_event event w p else refuse_event sink event w p

  -- A throw leaves the loop.
  abbrev pub unless_thrown : Option Text → Progress W → Progress W → Progress W
  unless_thrown none p later = later
  unless_thrown (some message) p later = p

  unfoldable pub handle_events : WatcherSink W → Text → List WatcherEvent → Progress W → Progress W
  handle_events sink self [] p = p
  handle_events sink self (e ∷ es) p =
      let q = handle_event sink self e p in unless_thrown q.thrown q (handle_events sink self es q)

  abbrev pub begin_tick : WatcherStoreState → W → Progress W
  begin_tick state w = record {
    next_state = state;
    surfaced = 0;
    skipped = 0;
    deduped = 0;
    failed = 0;
    abandoned = 0;
    attempts = state.attempts;
    earliest_failed_cursor = none;
    thrown = none;
    world = w;
  }

  -- The state that the tick saves.
  unfoldable pub saved_state : Progress W → Text → WatcherStoreState
  saved_state p new_cursor = record {
    cursor = cursor_or p.earliest_failed_cursor new_cursor;
    delivered = p.next_state.delivered;
    attempts = p.attempts;
  }

  abbrev pub polled_summary :
      WatcherSource → List WatcherEvent → Progress W → ℕ → WatcherTickSummary
  polled_summary source events p elapsed = record {
    source = source;
    kind = polled;
    seen = length events;
    surfaced = p.surfaced;
    skipped = p.skipped;
    deduped = p.deduped;
    failed = p.failed;
    abandoned = p.abandoned;
    elapsed_ms = elapsed;
  }

  -- After the loop: the state is saved, unless it threw.
  unfoldable pub save_progress :
      WatcherLoopDeps W
      → ℕ
      → List WatcherEvent
      → Text
      → Progress W
      → Option Text
      → Outcome WatcherTickSummary W
  save_progress deps start_ms events new_cursor p (some message) = (err message, p.world)
  save_progress deps start_ms events new_cursor p none =
      deps.save (saved_state p new_cursor) p.world >>-> λ _ w4.
      let (end_ms, w5) = deps.now w4 in
      tell_complete deps.sink (polled_summary deps.source events p (end_ms - start_ms)) w5

  -- The tick after the poll, by its outcome.
  unfoldable pub finish_tick :
      WatcherLoopDeps W → ℕ → WatcherStoreState → PollOutcome → W → Outcome WatcherTickSummary W
  unfolding save_progress
  finish_tick deps start_ms state (polled_badly reason) w3 =
      tell_poll_failed deps.sink deps.source reason w3 >>-> λ _ w4.
      let (end_ms, w5) = deps.now w4 in
      tell_complete deps.sink (failed_summary deps.source (end_ms - start_ms)) w5
  finish_tick deps start_ms state (polled_ok events new_cursor) w3 =
      let p = handle_events deps.sink deps.self_name events (begin_tick state w3) in
      save_progress deps start_ms events new_cursor p p.thrown

  unfoldable pub run_one_tick : WatcherLoopDeps W → W → Outcome WatcherTickSummary W
  run_one_tick deps w0 =
      let (start_ms, w1) = deps.now w0 in
      let (state, w2) = deps.load w1 in
      deps.poll state.cursor w2 >>-> λ outcome w3. finish_tick deps start_ms state outcome w3
