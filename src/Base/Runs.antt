-- ===== src/Base/Runs.antt =====
-- Laws of the text operations: runs of characters, first characters, and pieces joined and split.
use Prim.Native.Nat.{ℕ}
use mathlib.Core.Path.{◌≡◌, refl, ap, ◌∙◌}
use mathlib.Core.Bool.{Bool, not, true, false}
use mathlib.Core.List.{reverse, reverse-cons, reverse-reverse, List, [], ◌∷◌, ◌++◌}
use native.Mathlib.Omega.{arith}
use docker_claudebox.Base.Tests.{nat_beq, if◌then◌else◌}
use docker_claudebox.Base.Lists.{all}
use docker_claudebox.Base.Texts.{
  Text, is_space, trim, trim_start, trim_end, take_run, drop_run, split_on, join_with,
}

-- A run of characters that pass, before one that does not.
pub take_run-append :
    (p : ℕ → Bool) (s : Text) (c : ℕ) (t : Text)
    → all p s ≡ true
    → p c ≡ false
    → take_run p (s ++ c ∷ t) ≡ s
unfolding take_run
take_run-append p [] c t h k = rw k
take_run-append p (d ∷ s) c t h k = ground (arith, take_run-append p s c t)

pub drop_run-append :
    (p : ℕ → Bool) (s : Text) (c : ℕ) (t : Text)
    → all p s ≡ true
    → p c ≡ false
    → drop_run p (s ++ c ∷ t) ≡ c ∷ t
unfolding drop_run
drop_run-append p [] c t h k = rw k
drop_run-append p (d ∷ s) c t h k = ground (arith, drop_run-append p s c t)

pub drop_run_none : (p : ℕ → Bool) (c : ℕ) (t : Text) → p c ≡ false → drop_run p (c ∷ t) ≡ c ∷ t
unfolding drop_run
drop_run_none p c t k = rw k

-- A run that goes on into the text behind it.
pub take_run-append_all :
    (p : ℕ → Bool) (s t : Text) → all p s ≡ true → take_run p (s ++ t) ≡ s ++ take_run p t
unfolding take_run
take_run-append_all p [] t h = refl
take_run-append_all p (d ∷ s) t h = ground (arith, take_run-append_all p s t)

pub all-append :
    (p : ℕ → Bool) (s t : Text) → all p s ≡ true → all p t ≡ true → all p (s ++ t) ≡ true
all-append p [] t h k = k
all-append p (c ∷ s) t h k = ground (arith, all-append p s t)

pub all_weaken :
    (p q : ℕ → Bool) (s : Text)
    → ((c : ℕ) → p c ≡ true → q c ≡ true)
    → all p s ≡ true
    → all q s ≡ true
all_weaken p q [] f h = refl
all_weaken p q (c ∷ s) f h = ground (arith, all_weaken p q s f, f c)

-- A piece without the separator is split off whole.
pub split_on-append :
    (c : ℕ) (s t : Text)
    → all (λ d. if nat_beq d c then false else true) s ≡ true
    → split_on c (s ++ c ∷ t) ≡ s ∷ split_on c t
unfolding split_on
split_on-append c [] t h = ground arith
split_on-append c (d ∷ s) t h = ground (arith, split_on-append c s t)

pub split_on_one :
    (c : ℕ) (s : Text)
    → all (λ d. if nat_beq d c then false else true) s ≡ true
    → split_on c s ≡ s ∷ []
unfolding split_on
split_on_one c [] h = refl
split_on_one c (d ∷ s) h = ground (arith, split_on_one c s)

-- Splitting undoes joining, when no piece holds the separator and there is a piece.
pub split_on-join_with :
    (c : ℕ) (p : Text) (ps : List Text)
    → all (all (λ d. if nat_beq d c then false else true)) (p ∷ ps) ≡ true
    → split_on c (join_with (c ∷ []) (p ∷ ps)) ≡ p ∷ ps
unfolding join_with
split_on-join_with c p [] h = split_on_one c p (ground arith)
split_on-join_with c p (q ∷ ps) h =
    split_on-append c p (join_with (c ∷ []) (q ∷ ps)) (ground arith)
    ∙ ap (λ r. p ∷ r) (split_on-join_with c q ps (ground arith))

pub all-join_with :
    (f : ℕ → Bool) (sep : Text) (ps : List Text)
    → all f sep ≡ true
    → all (all f) ps ≡ true
    → all f (join_with sep ps) ≡ true
unfolding join_with
all-join_with f sep [] h k = refl
all-join_with f sep (p ∷ []) h k = ground arith
all-join_with f sep (p ∷ (q ∷ ps)) h k =
    all-append f p (sep ++ join_with sep (q ∷ ps)) (ground arith)
      (all-append f sep (join_with sep (q ∷ ps)) h (all-join_with f sep (q ∷ ps) h (ground arith)))

drop_run_never : (p : ℕ → Bool) (s : Text) → all (λ c. not (p c)) s ≡ true → drop_run p s ≡ s
unfolding drop_run
drop_run_never p [] h = refl
drop_run_never p (c ∷ s) h = ground arith

all-reverse : (p : ℕ → Bool) (s : Text) → all p s ≡ true → all p (reverse s) ≡ true
all-reverse p [] h = refl
all-reverse p (c ∷ s) h =
    rw (reverse-cons c s)
      (all-append p (reverse s) (c ∷ []) (all-reverse p s (ground arith)) (ground arith))

-- A text with no white space at all is trimmed to itself.
pub trim_id : (s : Text) → all (λ c. not (is_space c)) s ≡ true → trim s ≡ s
unfolding trim trim_start trim_end
trim_id s h =
    rw
      (
        drop_run_never is_space s h,
        drop_run_never is_space (reverse s) (all-reverse (λ c. not (is_space c)) s h),
      )
      (reverse-reverse s)

-- Reading a run to its end.
pub take_run_whole : (p : ℕ → Bool) (s : Text) → all p s ≡ true → take_run p s ≡ s
unfolding take_run
take_run_whole p [] h = refl
take_run_whole p (c ∷ s) h = ground (arith, take_run_whole p s)
