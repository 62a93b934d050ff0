-- ===== src/Watch/Loop/Budget.antt =====
-- The retry budget of one event.
use docker_claudebox.Files.{Done}
use docker_claudebox.Watch.Header.{surfaces_for_agent}
use docker_claudebox.Watch.Event.{WatcherEvent}
use docker_claudebox.Watch.Store.{WatcherStoreState, is_delivered}
use docker_claudebox.Watch.Store.Bounds.{contains-mark_delivered_self}
use docker_claudebox.Watch.Loop.{
  WatcherSink, Progress, tell_abandoned, accepted, or_zero, earlier, max_delivery_attempts,
  abandon_event, hold_event, refuse_event, handle_event, handle_events, begin_tick, saved_state,
}
use docker_claudebox.Base.{
  Option, Text, [], arith, eq_refl, false, lookup, lookup-insert, lookup-remove, none, ok, some,
  suc, text_eq, true, zero, ℕ, ◌+◌, ◌<◌, ◌∷◌, ◌≡◌, ◌≤◌,
}

module _ {W : Type 0} (sink : WatcherSink W) (self : Text) (e : WatcherEvent) (c : Text) where
  -- What the store holds after the loop: the state that is saved, or the old one when it threw.
  unfoldable stored : WatcherStoreState → Progress W → Option Text → WatcherStoreState × W
  stored s p (some message) = (s, p.world)
  stored s p none = (saved_state p c, p.world)

  -- One more tick, when the source reports this event alone.
  next_tick : WatcherStoreState × W → WatcherStoreState × W
  unfolding stored
  next_tick (s, w) =
      let p = handle_events sink self (e ∷ []) (begin_tick s w) in stored s p p.thrown

  pub ticks : ℕ → WatcherStoreState × W → WatcherStoreState × W
  ticks zero x = x
  ticks (suc n) x = next_tick (ticks n x)

  module _ (mine : surfaces_for_agent e.header self ≡ true)
      (refused : (w : W) → accepted (sink.on_event e w).0 ≡ false)
      (quiet : (n : ℕ) (w : W) → (tell_abandoned sink e n w).0 ≡ ok Done.done) where
    -- One refusal more, below the limit.
    next_tick-held :
        (x : WatcherStoreState × W)
        → is_delivered x.0 e.event_hash ≡ false
        → or_zero (lookup e.event_hash x.0.attempts) + 1 < max_delivery_attempts
        → (is_delivered (next_tick x).0 e.event_hash ≡ false)
          × (lookup e.event_hash (next_tick x).0.attempts
              ≡ some (or_zero (lookup e.event_hash x.0.attempts) + 1))
          × ((next_tick x).0.cursor ≡ e.cursor)
    unfolding next_tick stored handle_events handle_event refuse_event hold_event saved_state
        is_delivered earlier
    next_tick-held (s, w) new few =
        let tries = or_zero (lookup e.event_hash s.attempts) + 1 in
        ground (
          arith,
          mine,
          refused w,
          lookup-insert e.event_hash e.event_hash tries s.attempts,
          eq_refl e.event_hash,
        )

    -- The refusal that reaches the limit.
    next_tick-abandoned :
        (x : WatcherStoreState × W)
        → is_delivered x.0 e.event_hash ≡ false
        → max_delivery_attempts ≤ or_zero (lookup e.event_hash x.0.attempts) + 1
        → (is_delivered (next_tick x).0 e.event_hash ≡ true)
          × (lookup e.event_hash (next_tick x).0.attempts ≡ none)
          × ((next_tick x).0.cursor ≡ c)
    unfolding next_tick stored handle_events handle_event refuse_event abandon_event saved_state
        is_delivered
    next_tick-abandoned (s, w) new most = ground (
      arith,
      mine,
      refused w,
      quiet (or_zero (lookup e.event_hash s.attempts) + 1) (sink.on_event e w).1,
      lookup-remove e.event_hash e.event_hash s.attempts,
      eq_refl e.event_hash,
      contains-mark_delivered_self s e.event_hash e.cursor 499,
    )

    -- After `n` refusals, fewer than the limit, the event is held with `n` counted.
    ticks-held :
        (n : ℕ) (x : WatcherStoreState × W)
        → is_delivered x.0 e.event_hash ≡ false
        → lookup e.event_hash x.0.attempts ≡ none
        → n < max_delivery_attempts
        → (is_delivered (ticks n x).0 e.event_hash ≡ false)
          × (or_zero (lookup e.event_hash (ticks n x).0.attempts) ≡ n)
    unfolding ticks
    ticks-held zero x new fresh few = (new, rw fresh)
    ticks-held (suc n) x new fresh few =
        let (new', count) = ticks-held n x new fresh (omega arith) in
        let (kept, found, _) = next_tick-held (ticks n x) new' (omega arith) in
        (kept, rw found (omega arith))

-- When a source reports one event alone at every tick, always with the same new cursor, and the sink
-- refuses it every time, the event is offered for ten ticks: after one to nine of them it is not
-- delivered and the saved cursor is the event's, so that it is fetched again; the tenth marks it
-- delivered, clears its count and saves the new cursor. The event is addressed to the agent, at first
-- neither delivered nor counted, and the callback for an event given up on does not throw.
pub refused_event-abandoned :
    {W : Type 0} (sink : WatcherSink W) (self : Text) (e : WatcherEvent) (c : Text)
    (x : WatcherStoreState × W)
    → surfaces_for_agent e.header self ≡ true
    → ((w : W) → accepted (sink.on_event e w).0 ≡ false)
    → ((n : ℕ) (w : W) → (tell_abandoned sink e n w).0 ≡ ok Done.done)
    → is_delivered x.0 e.event_hash ≡ false
    → lookup e.event_hash x.0.attempts ≡ none
    → ((n : ℕ)
        → n < 9
        → (is_delivered (ticks sink self e c (suc n) x).0 e.event_hash ≡ false)
          × ((ticks sink self e c (suc n) x).0.cursor ≡ e.cursor))
      × (is_delivered (ticks sink self e c 10 x).0 e.event_hash ≡ true)
      × (lookup e.event_hash (ticks sink self e c 10 x).0.attempts ≡ none)
      × ((ticks sink self e c 10 x).0.cursor ≡ c)
unfolding ticks
refused_event-abandoned sink self e c x mine refused quiet new fresh =
    let held = ticks-held sink self e c mine refused quiet in
    let (new9, count9) = held 9 x new fresh (omega arith) in
    let (gone, cleared, moved) =
      next_tick-abandoned sink self e c mine refused quiet (ticks sink self e c 9 x) new9
        (omega arith) in
    (
      λ n few.
          let (new', count) = held n x new fresh (omega arith) in
          let (kept, _, back) =
            next_tick-held sink self e c mine refused quiet (ticks sink self e c n x) new'
              (omega arith) in
          (kept, back),
      gone,
      cleared,
      moved,
    )
