-- ===== src/Examples/Commands.antt =====
-- The command line at concrete inputs: the guards and the dispatch.
use docker_claudebox.Cli.Guard.{
  candidate_in, find_no_dridock_marker, normalized, walk_up, strip_slashes, next_up, parent_of,
}
use docker_claudebox.Cli.Guard.Marker.{
  Above, slashes, find_no_dridock_marker_sound, find_no_dridock_marker-none_iff,
}
use docker_claudebox.Cli.Registry.{verbs, Command, Registry, dispatch, no_command}
use docker_claudebox.Cli.Registry.Routes.{IsCatalogue, IsRefused, IsRun, dispatch-runs}
use docker_claudebox.Base.{
  Bool, Bool-cases, List, Text, [], arith, contains, drop_run, eq_iff, false, if◌then◌else◌, inl,
  inr, lookup, none, ok, refl, some, starts_with, text, text_eq, true, ℕ, ◌<◌, ◌==◌, ◌↔◌, ◌∙◌, ◌∷◌,
  ◌≡◌,
}

abbrev home : Text
home = text "/home/u"

abbrev marked : Text → Bool
marked p = p == text "/home/u/.nodridock"

marker_found :
    find_no_dridock_marker marked (text "/home/u/a/b/") home ≡ some (text "/home/u/.nodridock")
unfolding find_no_dridock_marker walk_up normalized strip_slashes next_up parent_of candidate_in
    drop_run
marker_found = refl

find_no_dridock_marker_sound_example :
    (n : ℕ) × (a : Text) × Above (normalized home) n (normalized (text "/home/u/a/b/")) a
    × (text "/home/u/.nodridock" ≡ candidate_in a)
    × (marked (text "/home/u/.nodridock") ≡ true)
    × ((k : ℕ) (b : Text)
        → k < n
        → Above (normalized home) k (normalized (text "/home/u/a/b/")) b
        → marked (candidate_in b) ≡ false)
find_no_dridock_marker_sound_example =
    find_no_dridock_marker_sound marked (text "/home/u/a/b/") home (text "/home/u/.nodridock")
      marker_found

few_slashes : slashes (normalized (text "/home/u/a")) < 1023
unfolding normalized strip_slashes drop_run slashes
few_slashes = omega arith

find_no_dridock_marker-none_iff_example :
    (find_no_dridock_marker marked (text "/home/u/a") home ≡ none) ↔ (
      (n : ℕ) (a : Text)
      → Above (normalized home) n (normalized (text "/home/u/a")) a
      → marked (candidate_in a) ≡ false)
find_no_dridock_marker-none_iff_example =
    find_no_dridock_marker-none_iff marked (text "/home/u/a") home few_slashes

-- The machine is what was written to the standard output.
abbrev write_text : Text → List Text → List Text
write_text s out = s ∷ out

abbrev command_for : Text → Command (List Text)
command_for v = record {
  verb = v;
  usage = text "usage";
  subverbs = none;
  run = λ args out. ok (0, args);
}

unfoldable commands_for : List Text → Registry (List Text)
commands_for [] = []
commands_for (v ∷ vs) = (v, command_for v) ∷ commands_for vs

commands_for-lookup :
    (vs : List Text) (v : Text)
    → lookup v (commands_for vs) ≡ (if contains vs v then some (command_for v) else none)
unfolding commands_for lookup
commands_for-lookup [] v = refl
commands_for-lookup (u ∷ vs) v = elim (Bool-cases (u == v)) [
  | inl same ↦ rw (same, (eq_iff u v).0 same) refl
  | inr other ↦ rw (other, commands_for-lookup vs v) refl
]

abbrev commands : Registry (List Text)
commands = commands_for verbs

commands-IsCatalogue : IsCatalogue commands
commands-IsCatalogue = record {
  complete = λ v known. (command_for v, commands_for-lookup verbs v ∙ rw known refl, refl);
  only = λ v unlisted. commands_for-lookup verbs v ∙ rw unlisted refl;
}

dispatch-runs_example :
    (cmd : Command (List Text)) × (cmd.verb ≡ text "vm")
    × IsRun write_text cmd
        (text "ls" ∷ [])
        []
        (dispatch write_text [] commands (text "vm" ∷ text "ls" ∷ []) [])
dispatch-runs_example =
    dispatch-runs write_text [] commands commands-IsCatalogue (text "vm") (text "ls" ∷ []) [] refl

inherited_name-IsRefused : IsRefused (text "toString" ∷ []) (no_command (text "toString"))
unfolding starts_with
inherited_name-IsRefused = (λ p. cc p, refl, refl, refl)
