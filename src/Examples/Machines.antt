-- ===== src/Examples/Machines.antt =====
-- Virtual machines at concrete inputs.
use docker_claudebox.Image.Docker.{project_profile, infra_profile}
use docker_claudebox.Vm.Limits.{
  VmInfo, count_running_project_vms, decide_vm_limit, int_or, floor_of_num, is_cb_profile,
}
use docker_claudebox.Vm.Ensure.{
  Colima, Settings, ensure_vm, ensure_in, ensure_absent_vm, with_source, require_image_source,
  require_source_in, check_image, check_limit, admit, start_vm, reach, report_address, options_for,
  extra_mounts_for, hard_max_in, warn_max_in, started, denied_by_limit,
}
use docker_claudebox.Base.{
  List, Text, [], contains, false, if◌then◌else◌, is_digit, map, none, read_number, refl, some,
  starts_with, take_run, text, text_eq, trim, true, ◌==◌, ◌∷◌, ◌≡◌,
}

-- The state is the list of machines that run; cb-infra runs always.
abbrev running : List Text → List VmInfo
running names = map (λ n. record { name = n; status = text "Running" }) names

abbrev colima : Colima (List Text)
colima = record {
  status = λ profile names. if contains names profile then some (text "Running") else none;
  list = running;
  has_image = λ context image names. true;
  start = λ profile options names. (0, profile ∷ names);
  wait_reachable = λ profile names. (some (text "192.168.64.7"), names);
  ensure_image = λ context names. (none, names);
}

abbrev settings : Settings (List Text)
settings = record {
  machine_default = λ key names. if key == text "vm.hard_max" then some (text "2") else none;
  exists = λ path names. false;
  vm_size = λ path field default names. 4;
}

abbrev one_more : List Text
one_more = text "cb-1" ∷ infra_profile ∷ []

abbrev full : List Text
full = text "cb-1" ∷ text "cb-2" ∷ infra_profile ∷ []

vm_started :
    ensure_vm colima settings (text "/home/u") (text "claude") (text "/w") (text "7") one_more
    ≡ (started (text "192.168.64.7") false, text "cb-7" ∷ one_more)
unfolding ensure_vm ensure_in ensure_absent_vm with_source require_image_source require_source_in
    check_image check_limit admit start_vm reach report_address options_for extra_mounts_for
    hard_max_in warn_max_in count_running_project_vms decide_vm_limit int_or floor_of_num
    is_cb_profile project_profile starts_with trim take_run is_digit read_number
vm_started = refl

vm_denied :
    ensure_vm colima settings (text "/home/u") (text "claude") (text "/w") (text "7") full
    ≡ (denied_by_limit 2 2, full)
unfolding ensure_vm ensure_in ensure_absent_vm with_source require_image_source require_source_in
    check_image check_limit admit start_vm reach report_address options_for extra_mounts_for
    hard_max_in warn_max_in count_running_project_vms decide_vm_limit int_or floor_of_num
    is_cb_profile project_profile starts_with trim take_run is_digit read_number
vm_denied = refl
