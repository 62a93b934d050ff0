-- ===== src/Migrate/Lossless.antt =====
-- What files hold after the migrations.
use docker_claudebox.Files.{FileSystem, IsLawful, Outcome, ◌>>->◌, Done}
use docker_claudebox.Files.Kept.{
  Held, Keeps, >>->-Keeps, mkdir_recursive-Keeps, rm_dir_if_empty-Keeps, move-Keeps, keeping,
  write_text_atomic-Keeps, returned-Keeps, threw-Keeps, if-Keeps,
}
use docker_claudebox.Migrate.Report.{MigrationReport}
use docker_claudebox.Migrate.Moves.{move_under, migrate_data_dir, migrate_machine_config}
use docker_claudebox.Migrate.StateDirs.{
  Host, MergeCounts, merge_entries, merge_listed, merge_dirs, move_dir, migrate_one, migrate_names,
  migrate_state_dirs, state_names,
}
use docker_claudebox.Migrate.Workspace.{
  MoveLog, protect, move_file, move_known, move_files, rewrite_file, remove_legacy,
  migrate_workspace,
}
use docker_claudebox.Config.Machine.{config_home}
use docker_claudebox.Migrate.Auto.{truthy, migrate_data_of, migrate_all, auto_migrate_if_needed}
use mathlib.Core.List.{append_assoc, append_cancel_left}
use docker_claudebox.Base.{
  Bool, Dict, List, Option, Result, Text, [], ap, arith, err, false, if◌then◌else◌, lookup, none,
  not, ok, some, sym, text, true, ℕ, ◌++◌, ◌∙◌, ◌∷◌, ◌≡◌, ◌≢◌,
}

-- Every path is allowed.
abbrev Anywhere : Text → Type 0
Anywhere p = Done

abbrev third_of : Text → ℕ
third_of (_ ∷ (_ ∷ (c ∷ _))) = c
third_of _ = 0

beside_gitignore :
    (root s t : Text) → ((root ++ text "/.dridock") ++ s) ++ t ≢ root ++ text "/.gitignore"
beside_gitignore root s t same =
    let behind : text "/.dridock" ++ (s ++ t) ≡ text "/.gitignore" = append_cancel_left root _ _ (
      sym (append_assoc root (text "/.dridock") (s ++ t))
      ∙ (sym (append_assoc (root ++ text "/.dridock") s t) ∙ same)) in
    let third : ◌≡◌ {A = ℕ} 100 103 = ap (λ s. third_of s) behind in absurd (omega arith)

module _ {W : Type 0} (fs : FileSystem W) (law : IsLawful fs) (host : Host W) where
  move_under-Keeps :
      (item dir old new : Text) (w : W) → Keeps fs law Anywhere w (move_under fs item dir old new w)
  unfolding move_under
  move_under-Keeps item dir old new w =
      >>->-Keeps fs law Anywhere w _ _ (mkdir_recursive-Keeps fs law Anywhere dir w) (λ _ w₁.
        >>->-Keeps fs law Anywhere w₁ _ _ (move-Keeps fs law Anywhere old new w₁ (λ _ _. Done.done))
          (λ _ w₂. returned-Keeps fs law Anywhere _ w₂))

  migrate_data_dir-Keeps :
      (xdg id : Text) (w : W) → Keeps fs law Anywhere w (migrate_data_dir fs xdg id w)
  unfolding migrate_data_dir
  migrate_data_dir-Keeps xdg id w = search (keeping, move_under-Keeps)

  migrate_machine_config-Keeps :
      (xdg : Text) (w : W) → Keeps fs law Anywhere w (migrate_machine_config fs xdg w)
  unfolding migrate_machine_config
  migrate_machine_config-Keeps xdg w = search (keeping, move_under-Keeps)

  merge_entries-Keeps :
      (entries : List Text) (old new suffix : Text) (n : MergeCounts) (w : W)
      → Keeps fs law Anywhere w (merge_entries fs host entries old new suffix n w)
  unfolding merge_entries
  merge_entries-Keeps [] old new suffix n w = returned-Keeps fs law Anywhere n w
  merge_entries-Keeps (entry ∷ rest) old new suffix n w =
      >>->-Keeps fs law Anywhere w _ _ (move-Keeps fs law Anywhere _ _ w (λ _ _. Done.done))
        (λ _ w₁. merge_entries-Keeps rest old new suffix _ w₁)

  merge_listed-Keeps :
      (item old new suffix : Text) (listing : Result Text (List Text)) (w : W)
      → Keeps fs law Anywhere w (merge_listed fs host item old new suffix listing w)
  merge_listed-Keeps item old new suffix (err thrown) w = threw-Keeps fs law Anywhere thrown w
  merge_listed-Keeps item old new suffix (ok entries) w =
      >>->-Keeps fs law Anywhere w _ _ (merge_entries-Keeps entries old new suffix _ w) (λ n w₁.
        >>->-Keeps fs law Anywhere w₁ _ _ (rm_dir_if_empty-Keeps fs law Anywhere old w₁)
          (λ _ w₂. returned-Keeps fs law Anywhere _ w₂))

  move_dir-Keeps :
      (xdg item old new : Text) (w : W)
      → Keeps fs law Anywhere w (move_dir fs host xdg item old new w)
  unfolding move_dir
  move_dir-Keeps xdg item old new w =
      >>->-Keeps fs law Anywhere w _ _ (mkdir_recursive-Keeps fs law Anywhere _ w) (λ _ w₁.
        >>->-Keeps fs law Anywhere w₁ _ _ (move-Keeps fs law Anywhere old new w₁ (λ _ _. Done.done))
          (λ _ w₂. returned-Keeps fs law Anywhere _ w₂))

  migrate_one-Keeps :
      (xdg name : Text) (w : W) → Keeps fs law Anywhere w (migrate_one fs host xdg name w)
  unfolding migrate_one merge_dirs
  migrate_one-Keeps xdg name w = search (keeping, merge_listed-Keeps, move_dir-Keeps)

  migrate_names-Keeps :
      (xdg : Text) (names : List Text) (w : W)
      → Keeps fs law Anywhere w (migrate_names fs host xdg names w)
  unfolding migrate_names
  migrate_names-Keeps xdg [] w = returned-Keeps fs law Anywhere [] w
  migrate_names-Keeps xdg (name ∷ names) w =
      >>->-Keeps fs law Anywhere w _ _ (migrate_one-Keeps xdg name w) (λ r w₁.
        >>->-Keeps fs law Anywhere w₁ _ _ (migrate_names-Keeps xdg names w₁)
          (λ rs w₂. returned-Keeps fs law Anywhere _ w₂))

  migrate_state_dirs-Keeps :
      (xdg : Text) (w : W) → Keeps fs law Anywhere w (migrate_state_dirs fs host xdg w)
  unfolding migrate_state_dirs
  migrate_state_dirs-Keeps xdg w =
      >>->-Keeps fs law Anywhere w _ _ (migrate_names-Keeps xdg state_names w) (λ rs w₁.
        >>->-Keeps fs law Anywhere w₁ _ _ (rm_dir_if_empty-Keeps fs law Anywhere _ w₁)
          (λ _ w₂. returned-Keeps fs law Anywhere _ w₂))

  -- The workspace's rewriting reaches one file only.
  abbrev Beside : Text → Text → Type 0
  Beside root p = p ≢ root ++ text "/.gitignore"

  protect-Keeps :
      (root name to : Text) (w : W) → Keeps fs law (Beside root) w (protect fs name to w)
  unfolding protect
  protect-Keeps root name to w = search keeping

  move_file-Keeps :
      (root from name : Text) (log : MoveLog) (w : W)
      → Keeps fs law
          (Beside root)
          w
          (move_file fs name from ((root ++ text "/.dridock") ++ (text "/" ++ name)) log w)
  unfolding move_file
  move_file-Keeps root from name log w =
      >>->-Keeps fs law (Beside root) w _ _
        (move-Keeps fs law (Beside root) _ _ w (λ s _. beside_gitignore root (text "/" ++ name) s))
        (λ _ w₁.
          >>->-Keeps fs law (Beside root) w₁ _ _ (protect-Keeps root name _ w₁)
            (λ _ w₂. returned-Keeps fs law (Beside root) _ w₂))

  move_known-Keeps :
      (root src name : Text) (log : MoveLog) (w : W)
      → Keeps fs law (Beside root) w (move_known fs src (root ++ text "/.dridock") name log w)
  unfolding move_known
  move_known-Keeps root src name log w = search (keeping, move_file-Keeps root)

  move_files-Keeps :
      (names : List Text) (root src : Text) (log : MoveLog) (w : W)
      → Keeps fs law (Beside root) w (move_files fs names src (root ++ text "/.dridock") log w)
  unfolding move_files
  move_files-Keeps [] root src log w = returned-Keeps fs law (Beside root) log w
  move_files-Keeps (name ∷ names) root src log w =
      >>->-Keeps fs law (Beside root) w _ _ (move_known-Keeps root src name log w)
        (λ log₁ w₁. move_files-Keeps names root src log₁ w₁)

  rewrite_file-Keeps :
      (root : Text) (content : Option Text) (w : W)
      → Keeps fs law (Beside root) w (rewrite_file fs (root ++ text "/.gitignore") content w)
  rewrite_file-Keeps root none w = returned-Keeps fs law (Beside root) Done.done w
  rewrite_file-Keeps root (some s) w =
      if-Keeps fs law (Beside root) w _ _ _
        (write_text_atomic-Keeps fs law (Beside root) _ _ w (λ p away. away))
        (returned-Keeps fs law (Beside root) Done.done w)

  migrate_workspace-Keeps :
      (root : Text) (w : W) → Keeps fs law (Beside root) w (migrate_workspace fs root w)
  unfolding migrate_workspace remove_legacy
  migrate_workspace-Keeps root w = search (keeping, move_files-Keeps, rewrite_file-Keeps) depth 14

  migrate_data_of-Keeps :
      (xdg : Text) (id : Option Text) (w : W)
      → Keeps fs law Anywhere w (migrate_data_of fs host xdg id w)
  migrate_data_of-Keeps xdg none w = returned-Keeps fs law Anywhere [] w
  migrate_data_of-Keeps xdg (some id) w = migrate_data_dir-Keeps xdg id w

  -- What the first call keeps beside a path, the following ones keep anywhere.
  >>->-Kept :
      (root : Text) {A B : Type 0} (w : W) (r : Outcome A W) (next : A → W → Outcome B W)
      → Keeps fs law (Beside root) w r
      → ((a : A) (w₁ : W) → Keeps fs law Anywhere w₁ (next a w₁))
      → (c : Text) → Held fs law (Beside root) c w
      → Held fs law Anywhere c (r >>-> next).1
  unfolding ◌>>->◌
  >>->-Kept root w (err thrown, w₁) next first later c h =
      let (q, away, here) = first.keeps c h in (q, Done.done, here)
  >>->-Kept root w (ok a, w₁) next first later c h =
      let (q, away, here) = first.keeps c h in (later a w₁).keeps c (q, Done.done, here)

  migrate_all-Kept :
      (root xdg c : Text) (w : W)
      → Held fs law (Beside root) c w
      → Held fs law Anywhere c (migrate_all fs host root xdg w).1
  unfolding migrate_all
  migrate_all-Kept root xdg c w =
      >>->-Kept root w _ _ (migrate_workspace-Keeps root w)
        (λ first w₁.
          >>->-Keeps fs law Anywhere w₁ _ _ (migrate_data_of-Keeps xdg _ w₁) (λ second w₂.
            >>->-Keeps fs law Anywhere w₂ _ _ (migrate_machine_config-Keeps xdg w₂) (λ third w₃.
              >>->-Keeps fs law Anywhere w₃ _ _ (migrate_state_dirs-Keeps xdg w₃)
                (λ fourth w₄. returned-Keeps fs law Anywhere _ w₄))))
        c

  auto_kept :
      (root c : Text) (w : W) (b : Bool) (r : Outcome (List MigrationReport) W)
      → Held fs law Anywhere c w
      → Held fs law Anywhere c r.1
      → Held fs law Anywhere c (if b then (ok [], w) else r).1
  auto_kept root c w true r here there = here
  auto_kept root c w false r here there = there

-- The migration at the first call loses no file: whatever its path but the project's `.gitignore`,
-- what it holds can be read at some path afterwards, whether the migration returns or throws in its
-- middle, on every file system that keeps the promises of the interface.
pub auto_migrate_keeps_files :
    {W : Type 0} (fs : FileSystem W)
    → IsLawful fs
    → (host : Host W) (env : Dict Text) (home root p c : Text) (w : W)
    → p ≢ root ++ text "/.gitignore"
    → fs.read_text_or_undefined p w ≡ some c
    → (q : Text) × (fs.read_text_or_undefined q (auto_migrate_if_needed fs host env home root w).1
        ≡ some c)
unfolding auto_migrate_if_needed
auto_migrate_keeps_files fs law host env home root p c w away here =
    let still : Held fs law Anywhere c w = (p, Done.done, here) in
    let (q, _, there) =
      auto_kept fs law host root c w (truthy (lookup (text "DRIDOCK_NO_AUTO_MIGRATE") env)) _ still
        (auto_kept fs law host root c w (not (fs.is_directory (root ++ text "/.claudebox") w)) _
          still
          (auto_kept fs law host root c w (fs.is_directory (root ++ text "/.dridock") w) _ still
            (migrate_all-Kept fs law host root (config_home env home) c w (p, away, here)))) in
    (q, there)
