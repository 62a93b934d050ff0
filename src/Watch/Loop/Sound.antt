-- ===== src/Watch/Loop/Sound.antt =====
-- The well-formedness of the states that a tick loads and saves.
use docker_claudebox.Watch.Event.{WatcherEvent}
use docker_claudebox.Watch.Store.{
  WatcherStoreState, is_delivered, mark_delivered, default_dedup_cap,
}
use docker_claudebox.Watch.Store.Bounds.{mark_delivered-bounded, contains-mark_delivered_sub}
use docker_claudebox.Watch.Loop.{
  WatcherSink, Progress, accept_event, abandon_event, hold_event, handle_event, handle_events,
  begin_tick, saved_state, max_delivery_attempts,
}
use docker_claudebox.Watch.Loop.Cases.{handle_event_cases, unless_thrown-holds}
use docker_claudebox.Base.{
  Dict, Distinct, List, Text, [], arith, contains, eq_iff, false, insert, length, lookup,
  lookup-insert, lookup-remove, none, remove, some, text_eq, true, ℕ, ◌<◌, ◌∷◌, ◌≡◌, ◌≤◌,
}

-- The ring is bounded and without repeats, every retry count is below the limit, and no delivered
-- hash has a retry count left.
pub record IsWellFormed (delivered : List Text) (attempts : Dict ℕ) : Type 0 where
  pub distinct : Distinct delivered
  pub bounded : length delivered ≤ default_dedup_cap
  pub budget : (h : Text) (n : ℕ) → lookup h attempts ≡ some n → n < max_delivery_attempts
  pub settled : (h : Text) → contains delivered h ≡ true → lookup h attempts ≡ none

abbrev pub IsSound : WatcherStoreState → Type 0
IsSound s = IsWellFormed s.delivered s.attempts

-- Marking a hash and clearing its retry count.
mark-IsWellFormed :
    (s : WatcherStoreState) (attempts : Dict ℕ) (hash c : Text)
    → IsWellFormed s.delivered attempts
    → IsWellFormed (mark_delivered s hash c default_dedup_cap).delivered (remove hash attempts)
mark-IsWellFormed s attempts hash c v =
    let (distinct, bounded) = mark_delivered-bounded s hash c default_dedup_cap v.distinct in
    record {
      distinct = distinct;
      bounded = bounded;
      budget = λ h n e. ground (arith, lookup-remove hash h attempts, v.budget h n);
      settled = λ h e. ground (
        arith,
        lookup-remove hash h attempts,
        v.settled h,
        contains-mark_delivered_sub s hash c default_dedup_cap h,
      );
    }

-- Counting one more refusal below the limit, of a hash that is not delivered.
count-IsWellFormed :
    (delivered : List Text) (attempts : Dict ℕ) (hash : Text) (n : ℕ)
    → n < max_delivery_attempts
    → contains delivered hash ≡ false
    → IsWellFormed delivered attempts
    → IsWellFormed delivered (insert hash n attempts)
count-IsWellFormed delivered attempts hash n small fresh v = record {
  distinct = v.distinct;
  bounded = v.bounded;
  budget = λ h m e. ground (arith, lookup-insert hash h n attempts, v.budget h m);
  settled = λ h e. ground (arith, lookup-insert hash h n attempts, v.settled h, eq_iff hash h);
}

module _ {W : Type 0} where
  abbrev IsSoundHere : Progress W → Type 0
  IsSoundHere p = IsWellFormed p.next_state.delivered p.attempts

  handle_event-IsSound :
      (sink : WatcherSink W) (self : Text) (e : WatcherEvent) (p : Progress W)
      → IsSoundHere p
      → IsSoundHere (handle_event sink self e p)
  unfolding is_delivered accept_event abandon_event hold_event
  handle_event-IsSound sink self e p v =
      handle_event_cases sink self e p IsSoundHere (λ _. v) (λ _ _. v)
        (λ _ _ _. mark-IsWellFormed p.next_state p.attempts e.event_hash e.cursor v)
        (λ n _ _ _ _ _. mark-IsWellFormed p.next_state p.attempts e.event_hash e.cursor v)
        (λ n _ small fresh _ _.
          count-IsWellFormed p.next_state.delivered p.attempts e.event_hash n small fresh v)

  handle_events-IsSound :
      (sink : WatcherSink W) (self : Text) (es : List WatcherEvent) (p : Progress W)
      → IsSoundHere p
      → IsSoundHere (handle_events sink self es p)
  unfolding handle_events
  handle_events-IsSound sink self [] p v = v
  handle_events-IsSound sink self (e ∷ es) p v =
      let next = handle_event-IsSound sink self e p v in
      unless_thrown-holds IsSoundHere (handle_event sink self e p).thrown _ _ next
        (handle_events-IsSound sink self es (handle_event sink self e p) next)

  -- Whatever the source reports and however the sink answers, a well-formed state loaded gives a
  -- well-formed state saved: at most 500 delivered hashes, none twice, every retry count below ten,
  -- and none for a delivered hash.
  pub saved_state-IsSound :
      (sink : WatcherSink W) (self : Text) (es : List WatcherEvent) (state : WatcherStoreState)
      (w : W) (new_cursor : Text)
      → IsSound state
      → IsSound (saved_state (handle_events sink self es (begin_tick state w)) new_cursor)
  unfolding saved_state
  saved_state-IsSound sink self es state w c v =
      let p = handle_events-IsSound sink self es (begin_tick state w) v in
      record { distinct = p.distinct; bounded = p.bounded; budget = p.budget; settled = p.settled }
