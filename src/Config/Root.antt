-- ===== src/Config/Root.antt =====
-- services/ProjectRoot.ts: the root of a project, and its directory of metadata.
use docker_claudebox.Files.{FileSystem}
use docker_claudebox.Base.{Option, Text, if◌then◌else◌, none, some, text, ◌++◌}

pub record ResolvedProject : Type 0 where
  pub root : Text
  pub dot_dir : Text
  pub dot_name : Text
  pub config_path : Text

abbrev pub project_at : Text → Text → ResolvedProject
project_at root name = record {
  root = root;
  dot_dir = root ++ (text "/" ++ name);
  dot_name = name;
  config_path = root ++ (text "/" ++ (name ++ text "/config.yml"));
}

abbrev root_or : Option Text → Text → Text
root_or none cwd = cwd
root_or (some root) cwd = root

module _ {W : Type 0} (fs : FileSystem W) (top_level : Text → W → Option Text) where
  unfoldable pub resolve_project : Text → W → ResolvedProject
  resolve_project cwd w =
      let root = root_or (top_level cwd w) cwd in
      if fs.is_directory (root ++ text "/.dridock") w
      then project_at root (text ".dridock")
      else if fs.is_directory (root ++ text "/.claudebox") w
      then project_at root (text ".claudebox")
      else project_at root (text ".dridock")
