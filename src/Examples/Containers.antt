-- ===== src/Examples/Containers.antt =====
-- Containers and processes at concrete inputs.
use docker_claudebox.Container.Exclusions.{
  AreVolumeNames, volume_names, is_volume_char, dot_exclusion_volumes-AreVolumeNames,
}
use docker_claudebox.Container.Name.{
  container_name, interactive, programmatic, container_name-injective, container_name-prog,
}
use docker_claudebox.Container.Passthrough.{
  env_prefix, collect_env, collect_mounts, mount_of, collect_env-lookup, mount_additions, sorted,
  insert_sorted, value_in, sidecar_content,
}
use docker_claudebox.Watch.Liveness.{ProcessProbe, is_fetcher, is_pid_alive}
use docker_claudebox.Base.{
  Dict, Text, [], includes, is_digit, is_letter, lookup, refl, some, split_on, starts_with, text,
  text_ltb, true, ◌++◌, ◌∷◌, ◌≡◌,
}

container_name-prog_example :
    container_name (text "/w/a" ++ text "/prog") interactive
    ≡ container_name (text "/w/a") programmatic
container_name-prog_example = container_name-prog (text "/w/a")

same_name : container_name (text "/w/a") programmatic ≡ container_name (text "/w/a") programmatic
same_name = refl

container_name-injective_example : text "/w/a" ≡ text "/w/a"
container_name-injective_example =
    container_name-injective programmatic (text "/w/a") (text "/w/a") refl refl same_name

abbrev env : Dict Text
env =
    (text "HOME", text "/home/u")
    ∷ (text "DRIDOCK_ENV_FOO", text "bar")
    ∷ (text "DRIDOCK_MOUNT_DATA", text "/data:/mnt:ro")
    ∷ []

collect_env-lookup_example :
    lookup (text "FOO") (collect_env env) ≡ lookup (env_prefix ++ text "FOO") env
collect_env-lookup_example = collect_env-lookup env (text "FOO")

-- The mode of a mount is lost.
mode_lost : collect_mounts env ≡ (text "/data", text "/mnt") ∷ []
unfolding collect_mounts mount_additions sorted insert_sorted value_in mount_of lookup split_on
    starts_with text_ltb
mode_lost = refl

sidecar_written : sidecar_content ((text "FOO", text "bar") ∷ []) ≡ text "FOO=bar" ++ (10 ∷ [])
unfolding sidecar_content
sidecar_written = refl

abbrev probe : ProcessProbe
probe = record {
  is_running = λ pid. true;
  get_command_line = λ pid. some (text "cb team watch --inbox /w/a/in");
}

is_alive : is_pid_alive 7 (some (text "/w/a/in")) probe ≡ true
unfolding is_pid_alive includes starts_with is_fetcher
is_alive = refl

dot_exclusion_volumes-AreVolumeNames_example :
    AreVolumeNames (volume_names (text "p_1.x") (text "/home/claude"))
unfolding is_volume_char is_letter is_digit
dot_exclusion_volumes-AreVolumeNames_example =
    dot_exclusion_volumes-AreVolumeNames (text "p_1.x") (text "/home/claude") refl
