-- ===== src/Watch/Loop/Cases.antt =====
-- One round of the delivery loop by its five outcomes, and the rounds after it.
use docker_claudebox.Watch.Header.{surfaces_for_agent}
use docker_claudebox.Watch.Event.{WatcherEvent}
use docker_claudebox.Watch.Store.{is_delivered}
use docker_claudebox.Watch.Loop.{
  WatcherSink, Progress, accepted, or_zero, max_delivery_attempts, refuse_event, accept_event,
  abandon_event, hold_event, unless_thrown, handle_event,
}
use docker_claudebox.Base.{
  Bool-cases, Option, Text, arith, false, inl, inr, leb, lookup, none, refl, some, take, true, ℕ,
  ◌+◌, ◌<◌, ◌≡◌, ◌≤◌,
}

pub unless_thrown-holds :
    {W : Type 0} (P : Progress W → Type 0) (o : Option Text) (p later : Progress W)
    → P p
    → P later
    → P (unless_thrown o p later)
unless_thrown-holds P none p later h k = k
unless_thrown-holds P (some message) p later h k = h

-- Nothing was thrown up to the end of the loop.
pub unless_thrown-quiet :
    {W : Type 0} (o : Option Text) (p later : Progress W)
    → p.thrown ≡ o
    → (unless_thrown o p later).thrown ≡ none
    → (o ≡ none) × (later.thrown ≡ none)
unless_thrown-quiet none p later e h = (refl, h)
unless_thrown-quiet (some message) p later e h = cc (e, h)

module _ {ℓ} {W : Type 0} (sink : WatcherSink W) (self : Text) (e : WatcherEvent) (p : Progress W)
    (P : Progress W → Type ℓ) where
  abbrev after : W
  after = (sink.on_event e p.world).1

  abbrev tries : ℕ
  tries = or_zero (lookup e.event_hash p.attempts) + 1

  refuse_event_cases :
      (max_delivery_attempts ≤ tries → P (abandon_event sink e tries after p))
      → (tries < max_delivery_attempts → P (hold_event e tries after p))
      → P (refuse_event sink e after p)
  unfolding refuse_event
  refuse_event_cases abandon hold = elim (Bool-cases (leb max_delivery_attempts tries)) [
    | inl most ↦ rw most (abandon (ground arith))
    | inr fewer ↦ rw fewer (hold (ground arith))
  ]

  pub handle_event_cases :
      (is_delivered p.next_state e.event_hash ≡ true → P (record p { deduped = p.deduped + 1 }))
      → (is_delivered p.next_state e.event_hash ≡ false
          → surfaces_for_agent e.header self ≡ false
          → P (record p { skipped = p.skipped + 1 }))
      → (is_delivered p.next_state e.event_hash ≡ false
          → surfaces_for_agent e.header self ≡ true
          → accepted (sink.on_event e p.world).0 ≡ true
          → P (accept_event e after p))
      → ((n : ℕ)
          → n ≡ tries
          → max_delivery_attempts ≤ n
          → is_delivered p.next_state e.event_hash ≡ false
          → surfaces_for_agent e.header self ≡ true
          → accepted (sink.on_event e p.world).0 ≡ false
          → P (abandon_event sink e n after p))
      → ((n : ℕ)
          → n ≡ tries
          → n < max_delivery_attempts
          → is_delivered p.next_state e.event_hash ≡ false
          → surfaces_for_agent e.header self ≡ true
          → accepted (sink.on_event e p.world).0 ≡ false
          → P (hold_event e n after p))
      → P (handle_event sink self e p)
  unfolding handle_event
  handle_event_cases dup skip take abandon hold =
      elim (Bool-cases (is_delivered p.next_state e.event_hash)) [
        | inl old ↦ rw old (dup old)
        | inr new ↦ rw new (elim (Bool-cases (surfaces_for_agent e.header self)) [
          | inr other ↦ rw other (skip new other)
          | inl mine ↦ rw mine (elim (Bool-cases (accepted (sink.on_event e p.world).0)) [
            | inl yes' ↦ rw yes' (take new mine yes')
            | inr no' ↦ rw no' (
                refuse_event_cases (λ m. abandon tries refl m new mine no')
                  (λ m. hold tries refl m new mine no'))
          ])
        ])
      ]
