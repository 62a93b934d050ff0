-- ===== src/Config/Project.antt =====
-- services/ProjectConfig.ts: the questions to a project's config.yml, and the rewriting of features.
use docker_claudebox.Files.{FileSystem, Outcome, Done}
use docker_claudebox.Config.Yaml.{parse_top_level_string, parse_nested_yaml}
use docker_claudebox.Settings.Features.{parse_features, strip_features_block}
use docker_claudebox.Vm.Limits.{int_or}
use docker_claudebox.Base.{
  List, Option, Text, [], err, if◌then◌else◌, join_with, nat_beq, none, some, text, text_eq, ℕ,
  ◌&&◌, ◌++◌, ◌==◌, ◌∷◌,
}

abbrev pub first_of : Option Text → Option Text → Text → Text
first_of (some v) second last = v
first_of none (some v) last = v
first_of none none last = last

-- `bakedVmDefault`
pub data VmField : Type 0 where
  cpu memory disk : VmField

abbrev pub field_name : VmField → Text
field_name cpu = text "cpu"
field_name memory = text "memory"
field_name disk = text "disk"

unfoldable pub baked_vm_default : VmField → Text
baked_vm_default cpu = text "4"
baked_vm_default memory = text "8GiB"
baked_vm_default disk = text "100GiB"

abbrev pub not_auto : Option Text → Option Text
not_auto none = none
not_auto (some id) = if id == text "auto" then none else some id

abbrev pub id_in : Option Text → Option Text
id_in none = none
id_in (some s) = not_auto (parse_top_level_string s (text "id"))

abbrev pub nested_in : Option Text → Text → Text → Option Text
nested_in none parent child = none
nested_in (some s) parent child = parse_nested_yaml s parent child

abbrev pub features_in : Option Text → List Text
features_in none = []
features_in (some s) = parse_features s

-- `.replace(/\n+$/, "")`
unfoldable pub drop_end_lines : Text → Text
drop_end_lines [] = []
drop_end_lines (c ∷ s) =
    let rest = drop_end_lines s in if nat_beq c 10 && (rest == []) then [] else c ∷ rest

unfoldable pub rebuild_features : List Text → Text → Text
unfolding drop_end_lines
rebuild_features [] s = drop_end_lines (strip_features_block s) ++ text "\n"
rebuild_features (n ∷ names) s =
    drop_end_lines (strip_features_block s)
    ++ (text "\n\nfeatures: [" ++ (join_with (text ", ") (n ∷ names) ++ text "]\n"))

module _ {W : Type 0} (fs : FileSystem W) where
  unfoldable pub vm_size : Text → VmField → Option Text → W → ℕ
  vm_size path field machine_default w =
      let raw = nested_in (fs.read_text_or_undefined path w) (text "vm") (field_name field) in
      int_or (some (first_of raw machine_default (baked_vm_default field))) 0

  unfoldable pub network_hostname : Text → W → Option Text
  network_hostname path w =
      nested_in (fs.read_text_or_undefined path w) (text "network") (text "hostname")

  unfoldable pub project_id : Text → W → Option Text
  project_id path w = id_in (fs.read_text_or_undefined path w)

  unfoldable pub features : Text → W → List Text
  features path w = features_in (fs.read_text_or_undefined path w)

  abbrev pub set_features_in : Text → List Text → Option Text → W → Outcome Done W
  set_features_in path names none w = (
    err (
        text "setFeatures: no config.yml at "
        ++ (path ++ text " — run 'dridock start' first to initialize")),
    w,
  )
  set_features_in path names (some s) w = fs.write_text_atomic path (rebuild_features names s) w

  unfoldable pub set_features : Text → List Text → W → Outcome Done W
  unfolding rebuild_features
  set_features path names w = set_features_in path names (fs.read_text_or_undefined path w) w
