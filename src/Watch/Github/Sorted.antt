-- ===== src/Watch/Github/Sorted.antt =====
-- The sort of the events of a poll.
use mathlib.Core.List.{Perm}
use mathlib.Core.List.Perm
use docker_claudebox.Watch.Event.{WatcherEvent}
use docker_claudebox.Watch.Github.{Runtime, insert_event, sort_events, latest_of}
use docker_claudebox.Base.{Bool-cases, List, Text, [], false, inl, inr, true, ◌∷◌, ◌≡◌}

-- `localeCompare` orders any two texts, and is transitive.
pub record IsOrder (runtime : Runtime) : Type 0 where
  pub total : (a b : Text) → runtime.not_greater a b ≡ false → runtime.not_greater b a ≡ true
  pub transitive :
      (a b c : Text)
      → runtime.not_greater a b ≡ true
      → runtime.not_greater b c ≡ true
      → runtime.not_greater a c ≡ true

abbrev pub AllAfter : Runtime → Text → List WatcherEvent → Type 0
AllAfter runtime t [] = Unit
AllAfter runtime t (e ∷ es) = (runtime.not_greater t e.observed_at ≡ true) × AllAfter runtime t es

abbrev pub AllBefore : Runtime → Text → List WatcherEvent → Type 0
AllBefore runtime t [] = Unit
AllBefore runtime t (e ∷ es) = (runtime.not_greater e.observed_at t ≡ true) × AllBefore runtime t es

abbrev pub IsSorted : Runtime → List WatcherEvent → Type 0
IsSorted runtime [] = Unit
IsSorted runtime (e ∷ es) = AllAfter runtime e.observed_at es × IsSorted runtime es

module _ (runtime : Runtime) (order : IsOrder runtime) (repo : Text) where
  insert_event-Perm :
      (e : WatcherEvent) (es : List WatcherEvent) → Perm (insert_event runtime repo e es) (e ∷ es)
  unfolding insert_event
  insert_event-Perm e [] = Perm.refl (e ∷ [])
  insert_event-Perm e (d ∷ es) =
      elim (Bool-cases (runtime.not_greater e.observed_at d.observed_at)) [
        | inl first ↦ rw first (Perm.refl (e ∷ (d ∷ es)))
        | inr later ↦
            rw later (Perm.trans (Perm.cons d (insert_event-Perm e es)) (Perm.swap e d es))
      ]

  pub sort_events-Perm : (es : List WatcherEvent) → Perm (sort_events runtime repo es) es
  unfolding sort_events
  sort_events-Perm [] = Perm.refl []
  sort_events-Perm (e ∷ es) =
      Perm.trans (insert_event-Perm e (sort_events runtime repo es))
        (Perm.cons e (sort_events-Perm es))

  AllAfter-weaken :
      (a b : Text) (es : List WatcherEvent)
      → runtime.not_greater a b ≡ true
      → AllAfter runtime b es
      → AllAfter runtime a es
  AllAfter-weaken a b [] h k = tt
  AllAfter-weaken a b (e ∷ es) h (first, rest) =
      (order.transitive a b e.observed_at h first, AllAfter-weaken a b es h rest)

  insert_event-AllAfter :
      (t : Text) (e : WatcherEvent) (es : List WatcherEvent)
      → runtime.not_greater t e.observed_at ≡ true
      → AllAfter runtime t es
      → AllAfter runtime t (insert_event runtime repo e es)
  unfolding insert_event
  insert_event-AllAfter t e [] h k = (h, tt)
  insert_event-AllAfter t e (d ∷ es) h (first, rest) =
      elim (Bool-cases (runtime.not_greater e.observed_at d.observed_at)) [
        | inl small ↦ rw small (h, (first, rest))
        | inr large ↦ rw large (first, insert_event-AllAfter t e es h rest)
      ]

  insert_event-IsSorted :
      (e : WatcherEvent) (es : List WatcherEvent)
      → IsSorted runtime es
      → IsSorted runtime (insert_event runtime repo e es)
  unfolding insert_event
  insert_event-IsSorted e [] h = (tt, tt)
  insert_event-IsSorted e (d ∷ es) (after, rest) =
      elim (Bool-cases (runtime.not_greater e.observed_at d.observed_at)) [
        | inl small ↦
            rw small
              ((small, AllAfter-weaken e.observed_at d.observed_at es small after), (after, rest))
        | inr large ↦ rw large (
          insert_event-AllAfter d.observed_at e es (order.total e.observed_at d.observed_at large)
              after,
          insert_event-IsSorted e es rest,
        )
      ]

  pub sort_events-IsSorted :
      (es : List WatcherEvent) → IsSorted runtime (sort_events runtime repo es)
  unfolding sort_events
  sort_events-IsSorted [] = tt
  sort_events-IsSorted (e ∷ es) =
      insert_event-IsSorted e (sort_events runtime repo es) (sort_events-IsSorted es)

  same_time : (a : Text) → runtime.not_greater a a ≡ true
  same_time a = elim (Bool-cases (runtime.not_greater a a)) [
    | inl holds_so ↦ holds_so
    | inr fails_so ↦ order.total a a fails_so
  ]

  pub latest_of-AllBefore :
      (since : Text) (es : List WatcherEvent)
      → IsSorted runtime es
      → AllBefore runtime (latest_of runtime repo since es) es
  latest_of-AllBefore since [] h = tt
  latest_of-AllBefore since (e ∷ []) h = (same_time e.observed_at, tt)
  latest_of-AllBefore since (e ∷ (d ∷ es)) ((first, after), rest) =
      let later = latest_of-AllBefore e.observed_at (d ∷ es) rest in
      (order.transitive e.observed_at d.observed_at _ first later.0, later)
