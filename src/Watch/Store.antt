-- ===== src/Watch/Store.antt =====
-- services/WatcherStore.ts: the cursor, the ring of delivered hashes and the retry budget.
pub mod Bounds
use docker_claudebox.Base.{
  Bool, Dict, List, Text, [], contains, keep, not, take, text_eq, ℕ, ◌==◌, ◌∷◌,
}

abbrev pub default_dedup_cap : ℕ
default_dedup_cap = 500

pub record WatcherStoreState : Type 0 where
  pub cursor : Text
  pub delivered : List Text
  pub attempts : Dict ℕ

abbrev pub empty_state : WatcherStoreState
empty_state = record { cursor = []; delivered = []; attempts = [] }

unfoldable pub is_delivered : WatcherStoreState → Text → Bool
is_delivered state hash = contains state.delivered hash

-- The new hash goes first. The result carries no `attempts`, as in the source.
unfoldable pub mark_delivered : WatcherStoreState → Text → Text → ℕ → WatcherStoreState
mark_delivered state hash new_cursor cap = record {
  cursor = new_cursor;
  delivered = take cap (hash ∷ keep (λ h. not (h == hash)) state.delivered);
  attempts = [];
}
