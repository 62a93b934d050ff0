-- ===== src/Watch/Store/Bounds.antt =====
-- The ring of delivered hashes: its length and its members.
use docker_claudebox.Watch.Store.{WatcherStoreState, mark_delivered}
use docker_claudebox.Base.{
  Distinct, Distinct-keep, Distinct-take, Text, arith, contains, contains-keep, contains-keep-false,
  contains-take, eq_refl, false, keep, length, length-keep-le, length-take-le, length-take-le_self,
  not, suc, take_all, text_eq, true, zero, ℕ, ◌<◌, ◌==◌, ◌||◌, ◌∙◌, ◌∷◌, ◌≡◌, ◌≤◌,
}

-- Marking keeps at most `cap` hashes, none of them twice.
pub mark_delivered-bounded :
    (s : WatcherStoreState) (hash c : Text) (cap : ℕ)
    → Distinct s.delivered
    → Distinct (mark_delivered s hash c cap).delivered
      × (length (mark_delivered s hash c cap).delivered ≤ cap)
unfolding mark_delivered
mark_delivered-bounded s hash c cap h =
    let others = keep (λ j. not (j == hash)) s.delivered in
    let fresh : contains others hash ≡ false =
      contains-keep hash hash s.delivered ∙ rw (eq_refl hash) in
    (
      Distinct-take cap (hash ∷ others) (fresh, Distinct-keep _ s.delivered h),
      length-take-le cap (hash ∷ others),
    )

-- While the ring has room, marking adds the hash and forgets none.
pub contains-mark_delivered :
    (s : WatcherStoreState) (hash c : Text) (cap : ℕ) (j : Text)
    → length s.delivered < cap
    → contains (mark_delivered s hash c cap).delivered j ≡ (hash == j || contains s.delivered j)
unfolding mark_delivered
contains-mark_delivered s hash c cap j h =
    let others = keep (λ i. not (i == hash)) s.delivered in
    let room : length (hash ∷ others) ≤ cap =
      omega (arith, length-keep-le (λ i. not (i == hash)) s.delivered) in
    rw (take_all cap (hash ∷ others) room, contains-keep hash j s.delivered) (ground arith)

-- Whatever the room, only the marked hash is new.
pub contains-mark_delivered_sub :
    (s : WatcherStoreState) (hash c : Text) (cap : ℕ) (j : Text)
    → (hash == j) ≡ false
    → contains s.delivered j ≡ false
    → contains (mark_delivered s hash c cap).delivered j ≡ false
unfolding mark_delivered
contains-mark_delivered_sub s hash c cap j h k =
    contains-take cap (hash ∷ keep (λ i. not (i == hash)) s.delivered) j
      (rw h (contains-keep-false (λ i. not (i == hash)) s.delivered j k))

pub length-mark_delivered :
    (s : WatcherStoreState) (hash c : Text) (cap : ℕ)
    → length (mark_delivered s hash c cap).delivered ≤ suc (length s.delivered)
unfolding mark_delivered
length-mark_delivered s hash c zero = omega arith
length-mark_delivered s hash c (suc cap) = omega (
  arith,
  length-take-le_self cap (keep (λ i. not (i == hash)) s.delivered),
  length-keep-le (λ i. not (i == hash)) s.delivered,
)

-- The hash just marked is delivered, whatever the room (the ring has a place at least).
pub contains-mark_delivered_self :
    (s : WatcherStoreState) (hash c : Text) (cap : ℕ)
    → contains (mark_delivered s hash c (suc cap)).delivered hash ≡ true
unfolding mark_delivered
contains-mark_delivered_self s hash c cap = rw (eq_refl hash)
