-- ===== src/Vm/Ensure/Outcomes.antt =====
-- The outcomes of VmEnsureService, and the machine before and after.
use docker_claudebox.Image.Docker.{project_profile, project_context}
use docker_claudebox.Vm.Limits.{count_running_project_vms, is_cb_profile}
use docker_claudebox.Vm.Ensure.{
  Colima, Settings, SourceFailure, no_source, start_rc, image_failed, VmEnsureOutcome,
  already_running, started, bad_profile, denied_by_limit, start_failed, no_reachable_ip, or_empty,
  require_image_source, hard_max_in, warn_max_in, options_for,
}
use docker_claudebox.Base.{
  Option, Text, false, none, some, text, text_eq, true, ℕ, ◌<◌, ◌↔◌, ◌≡◌, ◌≢◌, ◌≤◌, ◌⊎◌,
}

module _ {W : Type 0} (colima : Colima W) (settings : Settings W) (home image : Text) where
  abbrev count_in : W → ℕ
  count_in w = count_running_project_vms (colima.list w)

  abbrev hard_max : W → ℕ
  hard_max w = hard_max_in colima settings home image w

  abbrev warn_max : W → ℕ
  warn_max w = warn_max_in colima settings home image w

  abbrev start_at : Text → Text → W → ℕ × W
  start_at root id w =
      colima.start (project_profile id) (options_for colima settings home image root w) w

  abbrev source_of : W → Option SourceFailure × W
  source_of w = require_image_source colima settings home image w

  abbrev IsAbsent : Option Text → Type 0
  IsAbsent o = (o ≡ none) ⊎ (o ≡ some (text "absent"))

  -- The limit is checked in `w₁`: the project's machine did not run in `w`, and where it did not
  -- exist, the image is there to be copied.
  pub record IsChecked (id : Text) (w w₁ : W) : Type 0 where
    pub stopped : colima.status (project_profile id) w ≢ some (text "Running")
    pub sourced :
        (IsAbsent (colima.status (project_profile id) w) × (source_of w ≡ (none, w₁)))
        ⊎ (¬ IsAbsent (colima.status (project_profile id) w) × (w₁ ≡ w))

  -- `colima start` was called below the limit.
  pub record IsStarted (root id : Text) (w w₁ : W) : Type 0 where
    pub checked : IsChecked id w w₁
    pub below : count_in w₁ < hard_max w₁

  -- `IsJustified root id w outcome w'`: the outcome, for the machine `w` before and `w'` after.
  abbrev pub IsJustified : Text → Text → W → VmEnsureOutcome → W → Type 0
  IsJustified root id w (already_running ip) w' =
      (colima.status (project_profile id) w ≡ some (text "Running"))
      × (w₁ : W) × (colima.ensure_image (project_context id) w ≡ (none, w₁))
      × (o : Option Text) × (colima.wait_reachable (project_profile id) w₁ ≡ (o, w'))
      × (ip ≡ or_empty o)
  IsJustified root id w (started ip warned) w' =
      (w₁ : W) × IsStarted root id w w₁
      × (w₂ : W) × (start_at root id w₁ ≡ (0, w₂))
      × (w₃ : W) × (colima.ensure_image (project_context id) w₂ ≡ (none, w₃))
      × (colima.wait_reachable (project_profile id) w₃ ≡ (some ip, w'))
      × ((warned ≡ true) ↔ (warn_max w₁ ≤ count_in w₁))
  IsJustified root id w (bad_profile p) w' = (is_cb_profile p ≡ false) × (w' ≡ w)
  IsJustified root id w (denied_by_limit count limit) w' =
      IsChecked id w w' × (count ≡ count_in w') × (limit ≡ hard_max w') × (limit ≤ count)
  IsJustified root id w (start_failed (start_rc rc)) w' =
      (w₁ : W) × IsStarted root id w w₁ × (start_at root id w₁ ≡ (rc, w')) × (rc ≢ 0)
  IsJustified root id w (start_failed (image_failed reason)) w' =
      (w₂ : W) × (colima.ensure_image (project_context id) w₂ ≡ (some reason, w'))
  IsJustified root id w (start_failed (no_source failure)) w' = source_of w ≡ (some failure, w')
  IsJustified root id w (no_reachable_ip p) w' =
      (w₁ : W) × IsStarted root id w w₁
      × (w₃ : W) × (colima.wait_reachable (project_profile id) w₃ ≡ (none, w'))

  abbrev Fits : Text → Text → W → VmEnsureOutcome × W → Type 0
  Fits root id w x = IsJustified root id w x.0 x.1
