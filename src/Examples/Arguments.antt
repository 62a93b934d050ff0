-- ===== src/Examples/Arguments.antt =====
-- The arguments of the programmatic mode at concrete inputs.
use docker_claudebox.Cli.Args.{
  ProgArgs, validate_prog_args, take_args, take_next, take_option, take_value, take_joined,
  take_positional, after_equals, validate_value_for_flag, finish_args, invalid_effort,
}
use docker_claudebox.Base.{
  List, Text, [], err, false, ok, refl, starts_with, take, take_run, text, true, ◌∷◌, ◌≡◌,
}

abbrev command_line : List Text
command_line = text "-p" ∷ text "--model=opus" ∷ text "--effort" ∷ text "low" ∷ text "hi" ∷ []

abbrev arguments : ProgArgs
arguments = record {
  prompt = text "hi";
  claude_args =
      text "-p"
      ∷ text "--model=opus"
      ∷ text "--effort"
      ∷ text "low"
      ∷ text "hi"
      ∷ text "--output-format"
      ∷ text "text"
      ∷ [];
  has_print = true;
  no_continue = false;
  wants_update = false;
  output_format = text "text";
  needs_verbose = false;
}

-- A value spelled as a print flag is lost, and its flag takes the prompt for its value.
value_lost :
    (r : ProgArgs) × (validate_prog_args
        (text "-p" ∷ text "--system-prompt" ∷ text "-p" ∷ text "hi" ∷ [])
      ≡ ok r)
    × (take 3 r.claude_args ≡ text "-p" ∷ text "--system-prompt" ∷ text "hi" ∷ [])
unfolding validate_prog_args take_args take_next take_option take_value take_joined take_positional
    after_equals validate_value_for_flag finish_args take_run starts_with
value_lost = (_, refl, refl)

effort_refused :
    validate_prog_args (text "-p" ∷ text "--effort" ∷ text "most" ∷ [])
    ≡ err (invalid_effort (text "most"))
unfolding validate_prog_args take_args take_next take_option take_value take_joined take_positional
    after_equals validate_value_for_flag finish_args take_run starts_with
effort_refused = refl
