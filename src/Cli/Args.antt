-- ===== src/Cli/Args.antt =====
-- services/ProgArgValidator.ts: the arguments of the programmatic mode, checked against an allow-list.
pub mod Items
pub mod Words
pub mod Accepts
use docker_claudebox.Base.{
  Bool, List, Option, Result, Text, [], any, contains, err, false, if◌then◌else◌, keep, nat_beq,
  none, not, ok, some, starts_with, take_run, text, text_eq, true, ℕ, ◌&&◌, ◌++◌, ◌==◌, ◌>>=◌, ◌>>◌,
  ◌||◌, ◌∷◌,
}

abbrev pub output_format_flag : Text
output_format_flag = text "--output-format"

abbrev pub allowed_output_formats : List Text
allowed_output_formats = text "text" ∷ text "json" ∷ text "json-verbose" ∷ text "stream-json" ∷ []

abbrev pub allowed_efforts : List Text
allowed_efforts = text "low" ∷ text "medium" ∷ text "high" ∷ text "xhigh" ∷ text "max" ∷ []

abbrev pub flags_taking_value : List Text
flags_taking_value =
    output_format_flag
    ∷ text "--model"
    ∷ text "--system-prompt"
    ∷ text "--append-system-prompt"
    ∷ text "--json-schema"
    ∷ text "--effort"
    ∷ text "--resume"
    ∷ []

pub record ProgArgs : Type 0 where
  pub prompt : Text
  pub claude_args : List Text
  pub has_print : Bool
  pub no_continue : Bool
  pub wants_update : Bool
  pub output_format : Text
  pub needs_verbose : Bool

pub data ArgError : Type 0 where
  invalid_output_format invalid_effort unknown_flag unknown_command extra_positional :
      Text → ArgError
  missing_value : Text → ArgError
  print_required no_prompt : ArgError

-- The variables of the loop.
pub record ArgState : Type 0 where
  pub has_print : Bool
  pub has_prompt : Bool
  pub no_continue : Bool
  pub wants_update : Bool
  pub output_format : Text
  pub saw_output_format : Bool
  pub needs_verbose : Bool
  pub pass_args : List Text
  pub prompt : Text
  pub expect_value : Option Text

-- The value is handed back when it is allowed.
unfoldable pub validate_value_for_flag : Text → Text → Result ArgError Text
validate_value_for_flag flag value =
    if flag == output_format_flag && not (contains allowed_output_formats value)
    then err (invalid_output_format value)
    else if flag == text "--effort" && not (contains allowed_efforts value)
    then err (invalid_effort value)
    else ok value

abbrev pub is_verbose_format : Text → Bool
is_verbose_format value = value == text "stream-json" || value == text "json-verbose"

-- `if (flag === "--output-format") …`, and the arguments that are passed on.
abbrev pub set_value : ArgState → Text → Text → List Text → ArgState
set_value st flag value passed =
    let is_format = flag == output_format_flag in
    record st {
      output_format = if is_format then value else st.output_format;
      saw_output_format = is_format || st.saw_output_format;
      needs_verbose = (is_format && is_verbose_format value) || st.needs_verbose;
      pass_args = st.pass_args ++ passed;
      expect_value = none;
    }

-- `--flag VALUE`: the value of the flag before.
unfoldable pub take_value : ArgState → Text → Text → Result ArgError ArgState
take_value st flag arg = do
  value ← validate_value_for_flag flag arg
  ok (set_value st flag value (flag ∷ arg ∷ []))

abbrev pub not_equals : ℕ → Bool
not_equals c = not (nat_beq c b'=')

unfoldable pub after_equals : Text → Text
after_equals [] = []
after_equals (c ∷ s) = if nat_beq c b'=' then s else after_equals s

-- `--flag=VALUE`
unfoldable pub take_joined : ArgState → Text → Result ArgError ArgState
take_joined st arg =
    let flag = take_run not_equals arg in
    if not (contains flags_taking_value flag)
    then err (unknown_flag arg)
    else (validate_value_for_flag flag (after_equals arg) >>= λ value.
        ok (set_value st flag value (arg ∷ [])))

unfoldable pub take_positional : ArgState → Text → Result ArgError ArgState
take_positional st arg =
    if not st.has_print
    then err (unknown_command arg)
    else if st.has_prompt
    then err (extra_positional arg)
    else ok (record st { has_prompt = true; prompt = arg; pass_args = st.pass_args ++ (arg ∷ []) })

abbrev pub is_print : Text → Bool
is_print arg = arg == text "-p" || arg == text "--print"

-- The loop's body when no value is expected.
unfoldable pub take_option : ArgState → Text → Result ArgError ArgState
take_option st arg =
    if is_print arg
    then ok (record st { has_print = true })
    else if arg == text "--no-continue"
    then ok (record st { no_continue = true; pass_args = st.pass_args ++ (arg ∷ []) })
    else if arg == text "--update"
    then ok (record st { wants_update = true })
    else if contains flags_taking_value arg
    then ok (record st { expect_value = some arg })
    else if starts_with (text "--") arg && any (nat_beq b'=') arg
    then take_joined st arg
    else if starts_with (text "-") arg
    then err (unknown_flag arg)
    else take_positional st arg

unfoldable pub take_next : ArgState → Option Text → Text → Result ArgError ArgState
take_next st (some flag) arg = take_value st flag arg
take_next st none arg = take_option st arg

unfoldable pub take_args : ArgState → List Text → Result ArgError ArgState
take_args st [] = ok st
take_args st (arg ∷ argv) = do st ← take_next st st.expect_value arg; take_args st argv

-- After the loop.
unfoldable pub finish_args : ArgState → Option Text → Result ArgError ProgArgs
finish_args st (some flag) = err (missing_value flag)
finish_args st none =
    if not st.has_print
    then err print_required
    else if not st.has_prompt
    then err no_prompt
    else ok (record {
      prompt = st.prompt;
      claude_args =
          text "-p"
          ∷ (keep (λ a. not (is_print a)) st.pass_args
              ++ ((if st.saw_output_format then [] else output_format_flag ∷ st.output_format ∷ [])
                  ++ (if st.needs_verbose then text "--verbose" ∷ [] else [])));
      has_print = st.has_print;
      no_continue = st.no_continue;
      wants_update = st.wants_update;
      output_format = st.output_format;
      needs_verbose = st.needs_verbose;
    })

abbrev pub no_args : ArgState
no_args = record {
  has_print = false;
  has_prompt = false;
  no_continue = false;
  wants_update = false;
  output_format = text "text";
  saw_output_format = false;
  needs_verbose = false;
  pass_args = [];
  prompt = [];
  expect_value = none;
}

unfoldable pub validate_prog_args : List Text → Result ArgError ProgArgs
validate_prog_args argv = do st ← take_args no_args argv; finish_args st st.expect_value
