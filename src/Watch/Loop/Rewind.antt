-- ===== src/Watch/Loop/Rewind.antt =====
-- The saved cursor, and the events that were not delivered.
use docker_claudebox.Watch.Header.{surfaces_for_agent}
use docker_claudebox.Watch.Event.{WatcherEvent}
use docker_claudebox.Watch.Store.{
  WatcherStoreState, is_delivered, mark_delivered, default_dedup_cap,
}
use docker_claudebox.Watch.Store.Bounds.{contains-mark_delivered, length-mark_delivered}
use docker_claudebox.Watch.Loop.{
  WatcherSink, Progress, earlier, accept_event, abandon_event, hold_event, handle_event,
  unless_thrown, handle_events, begin_tick, saved_state,
}
use docker_claudebox.Watch.Loop.Cases.{handle_event_cases, unless_thrown-holds, unless_thrown-quiet}
use docker_claudebox.Base.{
  All, Bool-cases, IsTextLe, IsTextLe-refl, IsTextLe-trans, List, Option, Text, [], arith, contains,
  eq_refl, false, inl, inr, length, none, refl, some, suc, text_eq, text_lt-le, text_ltb, true, ℕ,
  ◌+◌, ◌==◌, ◌||◌, ◌∷◌, ◌≡◌, ◌≤◌, ◌⊎◌,
}

-- The rewind cursor is set, and not behind `c`.
abbrev pub Rewinds : Option Text → Text → Type 0
Rewinds none c = ⊥
Rewinds (some r) c = IsTextLe r c

earlier-Rewinds_new : (o : Option Text) (c : Text) → Rewinds (earlier o c) c
unfolding earlier
earlier-Rewinds_new none c = IsTextLe-refl c
earlier-Rewinds_new (some r) c = elim (Bool-cases (text_ltb c r)) [
  | inl less ↦ rw less (IsTextLe-refl c)
  | inr more ↦ rw more more
]

earlier-Rewinds_old : (o : Option Text) (c d : Text) → Rewinds o d → Rewinds (earlier o c) d
unfolding earlier
earlier-Rewinds_old none c d h = absurd h
earlier-Rewinds_old (some r) c d h = elim (Bool-cases (text_ltb c r)) [
  | inl less ↦ rw less (IsTextLe-trans c r d (text_lt-le c r less) h)
  | inr more ↦ rw more h
]

module _ {W : Type 0} where
  -- An event is dealt with: delivered, not for this agent, or covered by the rewind.
  abbrev pub IsHandled : Text → WatcherEvent → Progress W → Type 0
  IsHandled self e p =
      (is_delivered p.next_state e.event_hash ≡ true)
      ⊎ ((surfaces_for_agent e.header self ≡ false) ⊎ Rewinds p.earliest_failed_cursor e.cursor)

module _ {W : Type 0} (sink : WatcherSink W) (self : Text) where
  module _ (e : WatcherEvent) (p : Progress W) (n : ℕ)
      (room : length p.next_state.delivered + suc n ≤ default_dedup_cap) where
    marked :
        (h : Text)
        → contains (mark_delivered p.next_state e.event_hash e.cursor default_dedup_cap).delivered h
          ≡ (e.event_hash == h || contains p.next_state.delivered h)
    marked h =
        contains-mark_delivered p.next_state e.event_hash e.cursor default_dedup_cap h (omega arith)

    handle_event-IsHandled : IsHandled self e (handle_event sink self e p)
    unfolding is_delivered accept_event abandon_event hold_event
    handle_event-IsHandled =
        handle_event_cases sink self e p (IsHandled self e) (λ old. inl old)
          (λ _ other. inr (inl other))
          (λ _ _ _. inl (rw (marked e.event_hash, eq_refl e.event_hash)))
          (λ _ _ _ _ _ _. inl (rw (marked e.event_hash, eq_refl e.event_hash)))
          (λ _ _ _ _ _ _. inr (inr (earlier-Rewinds_new p.earliest_failed_cursor e.cursor)))

    handle_event-room :
        length (handle_event sink self e p).next_state.delivered + n ≤ default_dedup_cap
    unfolding accept_event abandon_event hold_event
    handle_event-room =
        handle_event_cases sink self e p
          (λ q. length q.next_state.delivered + n ≤ default_dedup_cap) (λ _. omega arith)
          (λ _ _. omega arith)
          (λ _ _ _.
            omega
              (arith, length-mark_delivered p.next_state e.event_hash e.cursor default_dedup_cap))
          (λ _ _ _ _ _ _.
            omega
              (arith, length-mark_delivered p.next_state e.event_hash e.cursor default_dedup_cap))
          (λ _ _ _ _ _ _. omega arith)

    -- A round leaves what was dealt with dealt with.
    handle_event-keeps :
        (d : WatcherEvent) → IsHandled self d p → IsHandled self d (handle_event sink self e p)
    unfolding is_delivered accept_event abandon_event hold_event
    handle_event-keeps d h =
        handle_event_cases sink self e p (IsHandled self d) (λ _. h) (λ _ _. h)
          (λ _ _ _. ground (arith, marked d.event_hash))
          (λ _ _ _ _ _ _. ground (arith, marked d.event_hash))
          (λ _ _ _ _ _ _.
            ground (arith, earlier-Rewinds_old p.earliest_failed_cursor e.cursor d.cursor))

  handle_events-keeps :
      (es : List WatcherEvent) (p : Progress W) (d : WatcherEvent)
      → length p.next_state.delivered + length es ≤ default_dedup_cap
      → IsHandled self d p
      → IsHandled self d (handle_events sink self es p)
  unfolding handle_events
  handle_events-keeps [] p d room h = h
  handle_events-keeps (e ∷ es) p d room h =
      let kept = handle_event-keeps e p (length es) room d h in
      unless_thrown-holds (IsHandled self d) (handle_event sink self e p).thrown _ _ kept (
        handle_events-keeps es (handle_event sink self e p) d
          (handle_event-room e p (length es) room) kept)

  All-unless :
      (es : List WatcherEvent) (o : Option Text) (p later : Progress W)
      → o ≡ none
      → All (λ e. IsHandled self e later) es
      → All (λ e. IsHandled self e (unless_thrown o p later)) es
  All-unless es none p later quiet h = h
  All-unless es (some message) p later quiet h = cc quiet

  handle_events-IsHandled :
      (es : List WatcherEvent) (p : Progress W)
      → length p.next_state.delivered + length es ≤ default_dedup_cap
      → (handle_events sink self es p).thrown ≡ none
      → All (λ e. IsHandled self e (handle_events sink self es p)) es
  unfolding handle_events
  handle_events-IsHandled [] p room quiet = tt
  handle_events-IsHandled (e ∷ es) p room quiet =
      let q = handle_event sink self e p in
      let (silent, quiet') =
        unless_thrown-quiet q.thrown q (handle_events sink self es q) refl quiet in
      let next = handle_event-room e p (length es) room in
      All-unless (e ∷ es) q.thrown q (handle_events sink self es q) silent (
        handle_events-keeps es q e next (handle_event-IsHandled e p (length es) room),
        handle_events-IsHandled es q next quiet',
      )

-- An event of a tick that saved the state `s`: its hash is among the delivered, or it is not for
-- this agent, or the saved cursor is not behind it, so that the next poll asks for it again.
abbrev pub IsAccountedFor : Text → WatcherStoreState → WatcherEvent → Type 0
IsAccountedFor self s e =
    (is_delivered s e.event_hash ≡ true)
    ⊎ ((surfaces_for_agent e.header self ≡ false) ⊎ IsTextLe s.cursor e.cursor)

IsHandled-saved :
    {W : Type 0} (self c : Text) (p : Progress W) (e : WatcherEvent)
    → IsHandled self e p
    → IsAccountedFor self (saved_state p c) e
unfolding saved_state is_delivered
IsHandled-saved self c p e h = ground arith

All-map :
    {A : Type 0} {P Q : A → Type 0} (f : (a : A) → P a → Q a) (xs : List A) → All P xs → All Q xs
All-map f [] h = tt
All-map f (x ∷ xs) h = (f x h.0, All-map f xs h.1)

-- Whatever the sink accepts, refuses or throws on, each event of a tick that gets to its save ends up
-- delivered (or given up on, which marks it so), not addressed to the agent, or not before the saved
-- cursor; provided that the 500 places of the ring hold the delivered hashes and the events of the
-- tick. A tick gets to its save unless the callback for an event given up on throws.
pub saved_state-IsAccountedFor :
    {W : Type 0} (sink : WatcherSink W) (self : Text) (es : List WatcherEvent)
    (state : WatcherStoreState) (w : W) (new_cursor : Text)
    → length state.delivered + length es ≤ default_dedup_cap
    → (handle_events sink self es (begin_tick state w)).thrown ≡ none
    → All
        (IsAccountedFor self
          (saved_state (handle_events sink self es (begin_tick state w)) new_cursor))
        es
saved_state-IsAccountedFor sink self es state w c room quiet =
    All-map (IsHandled-saved self c (handle_events sink self es (begin_tick state w))) es
      (handle_events-IsHandled sink self es (begin_tick state w) room quiet)
