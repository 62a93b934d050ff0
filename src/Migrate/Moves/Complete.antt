-- ===== src/Migrate/Moves/Complete.antt =====
-- The move of the data of a project's `~/.claude`, by its outcomes.
use docker_claudebox.Files.{FileSystem, IsLawful, Outcome, ◌>>->◌, Done, below, moved, moved_at}
use docker_claudebox.Migrate.Moves.{
  DotMigrateOutcome, not_needed, migrated, failed, check_moved, migrate_dot_dir,
}
use docker_claudebox.Base.{
  Bool, Option, Text, ap, arith, err, false, if_intro, inl, inr, none, not, ok, refl, some, sym,
  text, true, ◌++◌, ◌∙◌, ◌≡◌, ◌⊎◌,
}

module _ {W : Type 0} (fs : FileSystem W) (law : IsLawful fs) where
  abbrev pub legacy_of : Text → Text
  legacy_of root = root ++ text "/claude"

  abbrev pub target_of : Text → Text
  target_of root = root ++ text "/dot/.claude"

  -- There is a directory to move, and nothing at the new place.
  pub record IsMovable (root : Text) (w : W) : Type 0 where
    pub there : fs.exists (legacy_of root) w ≡ true
    pub directory : fs.is_directory (legacy_of root) w ≡ true
    pub free : fs.exists (target_of root) w ≡ false

  -- Every file stands at its new path in `w₁`, with its content, and the others where they were.
  abbrev pub AreMoved : Text → W → W → Type 0
  AreMoved root w w₁ =
      (p : Text)
      → fs.read_text_or_undefined p w₁
        ≡ moved (legacy_of root) (target_of root) (λ q. fs.read_text_or_undefined q w) p

  abbrev pub AreKept : W → W → Type 0
  AreKept w w₁ = (p : Text) → fs.read_text_or_undefined p w₁ ≡ fs.read_text_or_undefined p w

  -- The new place is taken, or there is no directory to move.
  abbrev pub IsConflict : Text → W → Type 0
  IsConflict root w =
      (fs.exists (target_of root) w ≡ true) ⊎ (fs.is_directory (legacy_of root) w ≡ false)

  -- What each outcome says of the files, before and after.
  unfoldable pub Complete : Text → W → DotMigrateOutcome × W → Type 0
  Complete root w (not_needed reason, w₁) = (fs.exists (legacy_of root) w ≡ false) × (w₁ ≡ w)
  Complete root w (failed reason, w₁) =
      ((fs.exists (legacy_of root) w ≡ true) × IsConflict root w × (w₁ ≡ w))
      ⊎ ((IsMovable root w × AreKept w w₁)
          ⊎ (IsMovable root w × AreMoved root w w₁ × (fs.exists (target_of root) w₁ ≡ false)))
  Complete root w (migrated from to, w₁) =
      (from ≡ legacy_of root)
      × (to ≡ target_of root)
      × IsMovable root w
      × AreMoved root w w₁
      × (fs.exists from w₁ ≡ false)
      × (fs.exists to w₁ ≡ true)

  moved_at_congr :
      (f g : Text → Option Text) (src : Text) (u v : Option Text) (p : Text)
      → ((q : Text) → f q ≡ g q)
      → moved_at f src u v p ≡ moved_at g src u v p
  moved_at_congr f g src (some r) v p same = same (src ++ r)
  moved_at_congr f g src none (some r) p same = refl
  moved_at_congr f g src none none p same = same p

  moved_dir-Complete :
      (root : Text) (w w₁ : W) (r : Outcome Done W)
      → IsMovable root w
      → AreKept w w₁
      → fs.move (legacy_of root) (target_of root) w₁ ≡ r
      → Complete root w (check_moved fs (legacy_of root) (target_of root) r)
  unfolding check_moved moved Complete
  moved_dir-Complete root w w₁ (err thrown, w₂) m same e =
      inr
        (inl (m, λ p. law.move_throws (legacy_of root) (target_of root) thrown w₁ w₂ e p ∙ same p))
  moved_dir-Complete root w w₁ (ok u, w₂) m same e =
      let from = legacy_of root in
      let to = target_of root in
      let gone : fs.exists from w₂ ≡ false = (law.move_refuses from to u w₁ w₂ e).1 in
      let all : AreMoved root w w₂ = λ p.
        law.move_renames from to u w₁ w₂ e p
        ∙ moved_at_congr (λ q. fs.read_text_or_undefined q w₁) (λ q. fs.read_text_or_undefined q w)
            from (below to p) (below from p) p same in
      if_intro (Complete root w) (fs.exists to w₂) (λ there. (refl, refl, m, all, gone, there))
        (λ missing. inr (inr (m, all, missing)))

  made_dir-Complete :
      (root : Text) (w : W) (r : Outcome Done W)
      → IsMovable root w
      → fs.mkdir_recursive (root ++ text "/dot") w ≡ r
      → Complete root w (
          check_moved fs
            (legacy_of root)
            (target_of root)
            (r >>-> λ _ w₁. fs.move (legacy_of root) (target_of root) w₁))
  unfolding ◌>>->◌ check_moved Complete
  made_dir-Complete root w (err thrown, w₁) m e = inr (
      inl (
        m,
        λ p.
            ap (λ s. fs.read_text_or_undefined p s.1) (sym e)
            ∙ law.mkdir_recursive_keeps (root ++ text "/dot") p w,
      ))
  made_dir-Complete root w (ok u, w₁) m e =
      moved_dir-Complete root w w₁ _ m
        (λ p.
          ap (λ s. fs.read_text_or_undefined p s.1) (sym e)
          ∙ law.mkdir_recursive_keeps (root ++ text "/dot") p w)
        refl

true_of_not : (b : Bool) → not b ≡ false → b ≡ true
true_of_not b h = ground arith

false_of_not : (b : Bool) → not b ≡ true → b ≡ false
false_of_not b h = ground arith

-- What the outcome of the move to the new place says, on a file system that keeps the promises of
-- its interface. Nothing to do: the old directory is not there,
-- and nothing was done. Migrated: there was a directory to move and nothing at the new place, every
-- file stands at its new path with its content and every other where it was, the old directory is
-- gone, and the new one was seen there. Failed: either the new place was taken or there was no
-- directory to move, and nothing was done; or no file has changed its place or content; or the move
-- was reported as made, but nothing was seen at the new place.
pub migrate_dot_dir-Complete :
    {W : Type 0} (fs : FileSystem W) (law : IsLawful fs) (root : Text) (w : W)
    → Complete fs law root w (migrate_dot_dir fs root w)
unfolding migrate_dot_dir Complete
migrate_dot_dir-Complete fs law root w =
    if_intro (Complete fs law root w) (not (fs.exists (root ++ text "/claude") w))
      (λ none_there. (false_of_not _ none_there, refl))
      (λ there.
        if_intro (Complete fs law root w) (fs.exists (root ++ text "/dot/.claude") w)
          (λ taken. inl (true_of_not _ there, inl taken, refl))
          (λ free.
            if_intro (Complete fs law root w) (not (fs.is_directory (root ++ text "/claude") w))
              (λ file. inl (true_of_not _ there, inr (false_of_not _ file), refl))
              (λ directory.
                made_dir-Complete fs law root w (fs.mkdir_recursive (root ++ text "/dot") w)
                  (record {
                    there = true_of_not _ there;
                    directory = true_of_not _ directory;
                    free = free;
                  })
                  refl)))
