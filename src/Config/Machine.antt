-- ===== src/Config/Machine.antt =====
-- domain/paths.ts and services/MachineConfig.ts: where the state of the machine and of a project
-- stands.
use docker_claudebox.Files.{FileSystem}
use docker_claudebox.Config.Yaml.{parse_top_level_string, parse_nested_yaml}
use docker_claudebox.Base.{
  Dict, List, Option, Text, [], after_prefix, if◌then◌else◌, lookup, none, some, split_on, text,
  text_eq, ◌++◌, ◌==◌, ◌∷◌,
}

abbrev pub or_else : Option Text → Text → Text
or_else none fallback = fallback
or_else (some v) fallback = v

unfoldable pub config_home : Dict Text → Text → Text
config_home env home = or_else (lookup (text "XDG_CONFIG_HOME") env) (home ++ text "/.config")

-- `DRIDOCK_DATA_DIR`, where it is set and not empty.
abbrev pub not_empty : Option Text → Option Text
not_empty none = none
not_empty (some v) = if v == [] then none else some v

unfoldable pub env_override : Dict Text → Option Text
env_override env = not_empty (lookup (text "DRIDOCK_DATA_DIR") env)

abbrev pub expand_rest : Text → Text → Option Text → Text
expand_rest home p none = p
expand_rest home p (some rest) = home ++ (text "/" ++ rest)

unfoldable pub expand_home : Text → Text → Text
expand_home home p = if p == text "~" then home else expand_rest home p (after_prefix (text "~/") p)

-- `data_root:` of the machine's file, or the baked default.
abbrev pub configured_root : Text → Option Text → Text → Text
configured_root home none fallback = fallback
configured_root home (some root) fallback = expand_home home root

abbrev pub data_root_in : Text → Option Text → Text → Text
data_root_in home none fallback = fallback
data_root_in home (some s) fallback =
    configured_root home (parse_top_level_string s (text "data_root")) fallback

abbrev pub dotted : List Text → Text → Option Text
dotted [] s = none
dotted (parent ∷ []) s = none
dotted (parent ∷ (child ∷ _)) s = parse_nested_yaml s parent child

abbrev pub default_in : Text → Option Text → Option Text
default_in key none = none
default_in key (some s) = dotted (split_on b'.' key) s

module _ {W : Type 0} (fs : FileSystem W) (env : Dict Text) (home : Text) where
  unfoldable pub xdg_root : W → Text
  unfolding config_home
  xdg_root w =
      let new = config_home env home ++ text "/dridock" in
      let old = config_home env home ++ text "/claudebox" in
      if fs.is_directory new w then new else if fs.is_directory old w then old else new

  unfoldable pub state_home : Text → W → Text
  unfolding config_home
  state_home subname w =
      let new = config_home env home ++ (text "/dridock/" ++ subname) in
      let old = config_home env home ++ (text "/claudebox/" ++ subname) in
      if fs.is_directory new w then new else if fs.is_directory old w then old else new

  unfoldable pub project_root : Text → W → Text
  unfolding xdg_root
  project_root id w =
      let machine = fs.read_text_or_undefined (xdg_root w ++ text "/config.yml") w in
      data_root_in home machine (xdg_root w ++ text "/projects") ++ (text "/" ++ id)

  abbrev pub dot_dir_in : Option Text → Text → W → Option Text
  dot_dir_in (some _) id w = none
  dot_dir_in none id w = some (project_root id w ++ text "/dot")

  unfoldable pub project_dot_dir : Text → W → Option Text
  unfolding env_override project_root
  project_dot_dir id w = dot_dir_in (env_override env) id w

  abbrev pub data_dir_in : Option Text → Option Text → Text → W → Text
  data_dir_in (some path) dot id w = expand_home home path
  data_dir_in none (some dot) id w = dot ++ text "/.claude"
  data_dir_in none none id w = project_root id w ++ text "/claude"

  unfoldable pub project_data_dir : Text → W → Text
  unfolding env_override project_dot_dir project_root
  project_data_dir id w = data_dir_in (env_override env) (project_dot_dir id w) id w

  unfoldable pub machine_default : Text → W → Option Text
  unfolding xdg_root
  machine_default key w =
      default_in key (fs.read_text_or_undefined (xdg_root w ++ text "/config.yml") w)
