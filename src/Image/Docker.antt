-- ===== src/Image/Docker.antt =====
-- infra/Docker.ts and infra/Colima.ts as their callers see them: names of contexts, and the calls of
-- the two programs over the state `W` of the machine. What the programs do is a parameter.
use docker_claudebox.Base.{Bool, Dict, Option, Text, text, ℕ, ◌++◌}

abbrev pub image_unstamped : Text
image_unstamped = text "unstamped"

abbrev pub image_unavailable : Text
image_unavailable = text "unavailable"

abbrev pub infra_profile : Text
infra_profile = text "cb-infra"

abbrev pub infra_context : Text
infra_context = text "colima-" ++ infra_profile

unfoldable pub project_profile : Text → Text
project_profile id = text "cb-" ++ id

unfoldable pub project_context : Text → Text
project_context id = text "colima-cb-" ++ id

-- A context is the text of its name; a call may change the machine. `save_and_load` copies an image
-- from one context to another and returns the exit code.
pub record Docker (W : Type 0) : Type 0 where
  pub image_version : Text → Text → W → Text × W
  pub image_labels : Text → Text → W → Option (Dict Text) × W
  pub save_and_load : Text → Text → Text → W → ℕ × W
  pub is_running : Text → W → Bool × W
