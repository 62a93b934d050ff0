-- ===== src/Vm/Ensure.antt =====
-- services/VmEnsureService.ts: bring the machine of a project up, with the image in it.
pub mod Outcomes
use docker_claudebox.Image.Docker.{infra_profile, infra_context, project_profile, project_context}
use docker_claudebox.Vm.Limits.{
  VmInfo, deny, warn, within, decide_vm_limit, baked_warn_max, baked_hard_max, int_or,
  count_running_project_vms, is_cb_profile, VmLimitVerdict,
}
use docker_claudebox.Base.{
  Bool, List, Option, Text, [], false, if◌then◌else◌, nat_beq, none, not, some, starts_with, text,
  text_eq, true, ℕ, ◌&&◌, ◌++◌, ◌==◌, ◌∷◌,
}

pub record StartOptions : Type 0 where
  pub cpu : ℕ
  pub memory_gib : ℕ
  pub disk_gib : ℕ
  pub network_address : Bool
  pub extra_mounts : List Text

-- The machine `W` as colima and docker show it, and the calls that change it. `start` returns the
-- exit code, `ensure_image` the reason why it failed, if it did.
pub record Colima (W : Type 0) : Type 0 where
  pub status : Text → W → Option Text
  pub list : W → List VmInfo
  pub has_image : Text → Text → W → Bool
  pub start : Text → StartOptions → W → ℕ × W
  pub wait_reachable : Text → W → Option Text × W
  pub ensure_image : Text → W → Option Text × W

-- The files of settings: services/MachineConfig.ts and services/ProjectConfig.ts as the service asks
-- them.
pub record Settings (W : Type 0) : Type 0 where
  pub machine_default : Text → W → Option Text
  pub exists : Text → W → Bool
  pub vm_size : Text → Text → Option Text → W → ℕ

-- Why there is no image to be copied.
pub data SourceFailure : Type 0 where
  infra_absent image_absent : SourceFailure
  infra_start_rc : ℕ → SourceFailure

pub data StartFailure : Type 0 where
  no_source : SourceFailure → StartFailure
  start_rc : ℕ → StartFailure
  image_failed : Text → StartFailure

pub data VmEnsureOutcome : Type 0 where
  already_running : Text → VmEnsureOutcome
  started : Text → Bool → VmEnsureOutcome
  bad_profile : Text → VmEnsureOutcome
  denied_by_limit : ℕ → ℕ → VmEnsureOutcome
  start_failed : StartFailure → VmEnsureOutcome
  no_reachable_ip : Text → VmEnsureOutcome

abbrev pub or_empty : Option Text → Text
or_empty none = []
or_empty (some ip) = ip

-- `root` lies outside the home directory and needs a mount of its own.
unfoldable pub extra_mounts_for : Text → Text → List Text
extra_mounts_for home root =
    if not (starts_with (home ++ text "/") root) && not (root == home)
    then (root ++ text ":w") ∷ []
    else []

abbrev pub infra_options : StartOptions
infra_options = record {
  cpu = 2;
  memory_gib = 4;
  disk_gib = 40;
  network_address = false;
  extra_mounts = [];
}

module _ {W : Type 0} (colima : Colima W) (settings : Settings W) (home image : Text) where
  -- The image must be there to be copied once cb-infra runs.
  unfoldable pub check_image : W → Option SourceFailure × W
  check_image w =
      if colima.has_image infra_context image w then (none, w) else (some image_absent, w)

  unfoldable pub require_source_in : Option Text → W → Option SourceFailure × W
  require_source_in none w = (some infra_absent, w)
  require_source_in (some status) w =
      if status == text "absent"
      then (some infra_absent, w)
      else if not (status == text "Running")
      then (let (rc, w₁) = colima.start infra_profile infra_options w in
          if not (nat_beq rc 0) then (some (infra_start_rc rc), w₁) else check_image w₁)
      else check_image w

  unfoldable pub require_image_source : W → Option SourceFailure × W
  require_image_source w = require_source_in (colima.status infra_profile w) w

  unfoldable pub hard_max_in : W → ℕ
  hard_max_in w = int_or (settings.machine_default (text "vm.hard_max") w) baked_hard_max

  unfoldable pub warn_max_in : W → ℕ
  warn_max_in w = int_or (settings.machine_default (text "vm.warn_max") w) baked_warn_max

  -- The project's sizes, over those of the machine's file.
  unfoldable pub options_for : Text → W → StartOptions
  options_for root w =
      let config_path = root ++ text "/.dridock/config.yml" in
      let config =
        if settings.exists config_path w
        then config_path
        else root ++ text "/.claudebox/config.yml" in
      record {
        cpu =
            settings.vm_size config (text "cpu")
              (settings.machine_default (text "vm.default_cpu") w) w;
        memory_gib =
            settings.vm_size config (text "memory")
              (settings.machine_default (text "vm.default_memory") w) w;
        disk_gib =
            settings.vm_size config (text "disk")
              (settings.machine_default (text "vm.default_disk") w) w;
        network_address = true;
        extra_mounts = extra_mounts_for home root;
      }

  -- After the image: the address.
  unfoldable pub report_address : Text → Bool → Option Text → W → VmEnsureOutcome × W
  report_address profile warned none w = (no_reachable_ip profile, w)
  report_address profile warned (some ip) w = (started ip warned, w)

  unfoldable pub reach : Text → Bool → Option Text → W → VmEnsureOutcome × W
  reach id warned (some reason) w = (start_failed (image_failed reason), w)
  reach id warned none w =
      let (ip, w₁) = colima.wait_reachable (project_profile id) w in
      report_address (project_profile id) warned ip w₁

  unfoldable pub start_vm : Text → Text → Bool → W → VmEnsureOutcome × W
  start_vm root id warned w =
      let (rc, w₁) = colima.start (project_profile id) (options_for root w) w in
      if not (nat_beq rc 0)
      then (start_failed (start_rc rc), w₁)
      else (let (failure, w₂) = colima.ensure_image (project_context id) w₁ in
          reach id warned failure w₂)

  -- The limit, and what follows.
  unfoldable pub admit : VmLimitVerdict → Text → Text → W → VmEnsureOutcome × W
  admit deny root id w =
      (denied_by_limit (count_running_project_vms (colima.list w)) (hard_max_in w), w)
  admit warn root id w = start_vm root id true w
  admit within root id w = start_vm root id false w

  unfoldable pub check_limit : Text → Text → W → VmEnsureOutcome × W
  check_limit root id w =
      admit
        (decide_vm_limit (count_running_project_vms (colima.list w)) (warn_max_in w)
          (hard_max_in w))
        root id w

  -- The machine runs: its image and its address.
  unfoldable pub report_running : Text → Option Text → W → VmEnsureOutcome × W
  report_running id (some reason) w = (start_failed (image_failed reason), w)
  report_running id none w =
      let (ip, w₁) = colima.wait_reachable (project_profile id) w in
      (already_running (or_empty ip), w₁)

  unfoldable pub ensure_running : Text → W → VmEnsureOutcome × W
  ensure_running id w =
      let (failure, w₁) = colima.ensure_image (project_context id) w in report_running id failure w₁

  unfoldable pub with_source : Text → Text → Option SourceFailure → W → VmEnsureOutcome × W
  with_source root id (some failure) w = (start_failed (no_source failure), w)
  with_source root id none w = check_limit root id w

  unfoldable pub ensure_absent_vm : Text → Text → W → VmEnsureOutcome × W
  ensure_absent_vm root id w =
      let (failure, w₁) = require_image_source w in with_source root id failure w₁

  unfoldable pub ensure_in : Text → Text → Option Text → W → VmEnsureOutcome × W
  ensure_in root id none w = ensure_absent_vm root id w
  ensure_in root id (some status) w =
      if status == text "Running"
      then ensure_running id w
      else if status == text "absent"
      then ensure_absent_vm root id w
      else check_limit root id w

  unfoldable pub ensure_vm : Text → Text → W → VmEnsureOutcome × W
  ensure_vm root id w =
      if not (is_cb_profile (project_profile id))
      then (bad_profile (project_profile id), w)
      else ensure_in root id (colima.status (project_profile id) w) w
