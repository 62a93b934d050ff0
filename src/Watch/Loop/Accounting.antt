-- ===== src/Watch/Loop/Accounting.antt =====
-- The five counters of a tick.
use docker_claudebox.Files.{Outcome, ◌>>->◌, Done}
use docker_claudebox.Watch.Event.{WatcherEvent}
use docker_claudebox.Watch.Loop.{
  WatcherSink, WatcherLoopDeps, Progress, refuse_event, accept_event, abandon_event, hold_event,
  handle_event, unless_thrown, handle_events, begin_tick, failed_summary, polled_summary,
  tell_complete, save_progress, run_one_tick, finish_tick, PollOutcome, polled_ok, polled_badly,
  WatcherTickSummary,
}
use docker_claudebox.Watch.Store.{WatcherStoreState}
use docker_claudebox.Base.{
  List, Option, Text, [], all, ap, arith, err, length, none, ok, ok_injective, refl, some, suc, ℕ,
  ◌+◌, ◌-◌, ◌∷◌, ◌≡◌,
}

-- The equation that the counters of a tick are meant to satisfy.
abbrev pub IsAccounted : WatcherTickSummary → Type 0
IsAccounted s = s.seen ≡ s.surfaced + s.skipped + s.deduped + s.failed + s.abandoned

module _ {W : Type 0} where
  abbrev pub counted : Progress W → ℕ
  counted p = p.surfaced + p.skipped + p.deduped + p.failed + p.abandoned

  counted-handle_event :
      (sink : WatcherSink W) (self : Text) (e : WatcherEvent) (p : Progress W)
      → counted (handle_event sink self e p) ≡ suc (counted p)
  unfolding handle_event refuse_event accept_event abandon_event hold_event
  counted-handle_event sink self e p = ground arith

  counted-unless :
      (sink : WatcherSink W) (self : Text) (e : WatcherEvent) (es : List WatcherEvent)
      (p : Progress W) (o : Option Text)
      → (handle_event sink self e p).thrown ≡ o
      → (unless_thrown o
          (handle_event sink self e p)
          (handle_events sink self es (handle_event sink self e p))).thrown
        ≡ none
      → ((handle_events sink self es (handle_event sink self e p)).thrown ≡ none
          → counted (handle_events sink self es (handle_event sink self e p))
            ≡ counted (handle_event sink self e p) + length es)
      → counted (
          unless_thrown o
            (handle_event sink self e p)
            (handle_events sink self es (handle_event sink self e p)))
        ≡ counted p + suc (length es)
  counted-unless sink self e es p (some message) threw h later = cc (threw, h)
  counted-unless sink self e es p none threw h later =
      omega (arith, later h, counted-handle_event sink self e p)

  -- When nothing threw, each event is counted once.
  counted-handle_events :
      (sink : WatcherSink W) (self : Text) (es : List WatcherEvent) (p : Progress W)
      → (handle_events sink self es p).thrown ≡ none
      → counted (handle_events sink self es p) ≡ counted p + length es
  unfolding handle_events
  counted-handle_events sink self [] p h = omega arith
  counted-handle_events sink self (e ∷ es) p h =
      counted-unless sink self e es p (handle_event sink self e p).thrown refl h
        (counted-handle_events sink self es (handle_event sink self e p))

  -- The summary that is returned is the one that was made.
  told_summary :
      (r : Outcome Done W) (made s : WatcherTickSummary) (w' : W)
      → (r >>-> λ _ w₁. (ok made, w₁)) ≡ (ok s, w')
      → made ≡ s
  unfolding ◌>>->◌
  told_summary (ok u, w) made s w' h = ok_injective (ap (λ x. x.0) h)
  told_summary (err message, w) made s w' h = cc (ap (λ x. x.0) h)

  tell_complete-summary :
      (sink : WatcherSink W) (made s : WatcherTickSummary) (w w' : W)
      → (o : Option (WatcherTickSummary → W → Outcome Done W)) → sink.on_tick_complete ≡ o
      → tell_complete sink made w ≡ (ok s, w')
      → made ≡ s
  tell_complete-summary sink made s w w' none e h = ok_injective (ap (λ x. x.0) (rw e at h))
  tell_complete-summary sink made s w w' (some f) e h =
      told_summary (f made w) made s w' (rw e at h)

  saved-IsAccounted :
      (deps : WatcherLoopDeps W) (n : ℕ) (es : List WatcherEvent) (p : Progress W)
      (r : Outcome Done W) (s : WatcherTickSummary) (w' : W)
      → counted p ≡ length es
      → (r >>-> λ _ w4.
          tell_complete deps.sink
            (polled_summary deps.source es p ((deps.now w4).0 - n))
            (deps.now w4).1)
        ≡ (ok s, w')
      → IsAccounted s
  unfolding ◌>>->◌
  saved-IsAccounted deps n es p (err message, w) s w' all h = cc (ap (λ x. x.0) h)
  saved-IsAccounted deps n es p (ok u, w) s w' all h =
      rw (← tell_complete-summary deps.sink _ s _ w' deps.sink.on_tick_complete refl h)
        (omega (arith, all))

  failed-IsAccounted :
      (deps : WatcherLoopDeps W) (n : ℕ) (r : Outcome Done W) (s : WatcherTickSummary) (w' : W)
      → (r >>-> λ _ w4.
          tell_complete deps.sink
            (failed_summary deps.source ((deps.now w4).0 - n))
            (deps.now w4).1)
        ≡ (ok s, w')
      → IsAccounted s
  unfolding ◌>>->◌
  failed-IsAccounted deps n (err message, w) s w' h = cc (ap (λ x. x.0) h)
  failed-IsAccounted deps n (ok u, w) s w' h =
      rw (← tell_complete-summary deps.sink _ s _ w' deps.sink.on_tick_complete refl h) refl

  progress-IsAccounted :
      (deps : WatcherLoopDeps W) (n : ℕ) (es : List WatcherEvent) (c : Text) (p : Progress W)
      (o : Option Text) (s : WatcherTickSummary) (w' : W)
      → (o ≡ none → counted p ≡ length es)
      → save_progress deps n es c p o ≡ (ok s, w')
      → IsAccounted s
  unfolding save_progress
  progress-IsAccounted deps n es c p (some message) s w' all h = cc (ap (λ x. x.0) h)
  progress-IsAccounted deps n es c p none s w' all h =
      saved-IsAccounted deps n es p _ s w' (all refl) h

  finish_tick-IsAccounted :
      (deps : WatcherLoopDeps W) (n : ℕ) (state : WatcherStoreState) (o : PollOutcome) (w : W)
      (s : WatcherTickSummary) (w' : W)
      → finish_tick deps n state o w ≡ (ok s, w')
      → IsAccounted s
  unfolding finish_tick
  finish_tick-IsAccounted deps n state (polled_badly reason) w s w' h =
      failed-IsAccounted deps n _ s w' h
  finish_tick-IsAccounted deps n state (polled_ok es c) w s w' h =
      let p = handle_events deps.sink deps.self_name es (begin_tick state w) in
      progress-IsAccounted deps n es c p p.thrown s w'
        (λ quiet.
          omega
            (arith, counted-handle_events deps.sink deps.self_name es (begin_tick state w) quiet))
        h

  polled-IsAccounted :
      (deps : WatcherLoopDeps W) (n : ℕ) (state : WatcherStoreState) (r : Outcome PollOutcome W)
      (s : WatcherTickSummary) (w' : W)
      → (r >>-> λ outcome w3. finish_tick deps n state outcome w3) ≡ (ok s, w')
      → IsAccounted s
  unfolding ◌>>->◌
  polled-IsAccounted deps n state (err message, w) s w' h = cc (ap (λ x. x.0) h)
  polled-IsAccounted deps n state (ok o, w) s w' h = finish_tick-IsAccounted deps n state o w s w' h

  -- In the summary of a tick, polled or failed, the events seen are the surfaced, skipped, deduped,
  -- failed and abandoned ones together; a tick that throws has no summary.
  pub run_one_tick-IsAccounted :
      (deps : WatcherLoopDeps W) (w : W) (s : WatcherTickSummary) (w' : W)
      → run_one_tick deps w ≡ (ok s, w')
      → IsAccounted s
  unfolding run_one_tick
  run_one_tick-IsAccounted deps w s w' h = polled-IsAccounted deps _ _ _ s w' h
