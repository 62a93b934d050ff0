-- ===== src/Team/Watching/Stop.antt =====
-- The live loop of the watcher: how it ends.
use docker_claudebox.Files.{FileSystem, Outcome, Done}
use docker_claudebox.Team.Send.{Shell}
use docker_claudebox.Team.Watching.{WatchRuntime, after_tick, watch_loop}
use docker_claudebox.Watch.Loop.{WatcherLoopDeps, WatcherTickSummary, run_one_tick}
use docker_claudebox.Base.{
  Dict, Option, Result, Text, ap, arith, err, false, if_intro, inl, inr, ok, refl, some, suc, sym,
  true, zero, ℕ, ◌≡◌, ◌≤◌, ◌⊎◌,
}

module _ {W : Type 0} (fs : FileSystem W) (sh : Shell W) (rt : WatchRuntime W) (env : Dict Text)
    (home : Text) (deps : WatcherLoopDeps W) (interval : ℕ) where
  -- The state after some ticks, each with the sleep behind it.
  unfoldable pub rounds : ℕ → W → W
  rounds zero w = w
  rounds (suc n) w = rounds n (rt.sleep interval (run_one_tick deps w).1)

  -- How the loop ends, within `n` rounds from `w`: with the end asked for, after some rounds and at
  -- most one more tick, or with what the tick after some rounds threw.
  pub record EndsBy (n : ℕ) (w : W) (r : Result Text Done) (w' : W) : Type 0 where
    pub ran : ℕ
    pub ran_le : ran ≤ n
    pub ended :
        ((r ≡ ok Done.done)
          × (rt.stopped w' ≡ true)
          × ((w' ≡ rounds ran w) ⊎ (w' ≡ (run_one_tick deps (rounds ran w)).1)))
        ⊎ ((message : Text) × (r ≡ err message)
            × (run_one_tick deps (rounds ran w) ≡ (err message, w')))

  later_end :
      (n : ℕ) (w : W) (r : Result Text Done) (w' : W)
      → EndsBy n (rt.sleep interval (run_one_tick deps w).1) r w'
      → EndsBy (suc n) w r w'
  unfolding rounds
  later_end n w r w' e = record {
    ran = suc e.ran;
    ran_le = let le = e.ran_le in omega arith;
    ended = e.ended;
  }

  -- What the loop returns.
  abbrev pub Ends : ℕ → W → Option (Outcome Done W) → Type 0
  Ends n w o = (r : Result Text Done) × (w' : W) × (o ≡ some (r, w')) × EndsBy n w r w'

  ended_now : (n : ℕ) (w : W) → rt.stopped w ≡ true → Ends n w (some (ok Done.done, w))
  unfolding rounds
  ended_now n w now = (
    ok Done.done,
    w,
    refl,
    record { ran = 0; ran_le = omega arith; ended = inl (refl, now, inl refl) },
  )

  tick_end :
      (n : ℕ) (w : W) (r : Outcome WatcherTickSummary W) (later : Option (Outcome Done W))
      → run_one_tick deps w ≡ r
      → (rt.stopped r.1 ≡ false → Ends n w later)
      → Ends n w (after_tick fs sh rt env home r later)
  unfolding rounds
  tick_end n w (err message, w₁) later e next = (
    err message,
    w₁,
    refl,
    record { ran = 0; ran_le = omega arith; ended = inr (message, refl, e) },
  )
  tick_end n w (ok summary, w₁) later e next =
      if_intro (Ends n w) (rt.stopped w₁)
        (λ asked. (
          ok Done.done,
          w₁,
          refl,
          record {
            ran = 0;
            ran_le = omega arith;
            ended = inl (refl, asked, inr (ap (λ x. x.1) (sym e)));
          },
        ))
        next

  Ends-later :
      (n : ℕ) (w : W) (o : Option (Outcome Done W))
      → Ends n (rt.sleep interval (run_one_tick deps w).1) o
      → Ends (suc n) w o
  Ends-later n w o (r, w', e, by) = (r, w', e, later_end n w r w' by)

  -- When the end is asked for after some rounds at the latest, the live loop of team watch ends within
  -- them: it returns with the end asked for, after no more rounds than that and at most one more
  -- tick, or it throws what one of its ticks has thrown.
  pub watch_loop-EndsBy :
      (n : ℕ) (w : W)
      → rt.stopped (rounds n w) ≡ true
      → (r : Result Text Done) × (w' : W) × (watch_loop fs sh rt env home (suc n) deps interval w
          ≡ some (r, w'))
        × EndsBy n w r w'
  unfolding watch_loop rounds
  watch_loop-EndsBy zero w h = rw h (ended_now 0 w h)
  watch_loop-EndsBy (suc n) w h =
      if_intro (Ends (suc n) w) (rt.stopped w) (λ now. ended_now (suc n) w now)
        (λ not_yet. tick_end (suc n) w (run_one_tick deps w) _ refl (λ still.
          Ends-later n w _ (watch_loop-EndsBy n (rt.sleep interval (run_one_tick deps w).1) h)))
