-- ===== src/Cli/Args/Items.antt =====
-- The words of a command line of the programmatic mode, and what the loop makes of them.
use docker_claudebox.Cli.Args.{
  output_format_flag, allowed_output_formats, allowed_efforts, flags_taking_value, ArgError,
  ArgState, is_print,
}
use docker_claudebox.Base.{
  All, Bool, List, Option, Result, Text, [], any, arith, contains, err, false, if◌then◌else◌, none,
  not, ok, some, starts_with, text, text_eq, true, ◌&&◌, ◌++◌, ◌==◌, ◌||◌, ◌∷◌, ◌≡◌,
}

-- The words of a command line.
pub data Item : Type 0 where
  print prompt : Text → Item
  no_continue update : Item
  separate joined : Text → Text → Item

abbrev pub spell : Item → List Text
spell (print a) = a ∷ []
spell (prompt a) = a ∷ []
spell no_continue = text "--no-continue" ∷ []
spell update = text "--update" ∷ []
spell (separate f v) = f ∷ v ∷ []
spell (joined f v) = (f ++ b'=' ∷ v) ∷ []

-- What is kept of an item for claude; the first `-p` is added later.
abbrev pub passed_on : Item → List Text
passed_on (print a) = []
passed_on update = []
passed_on i = spell i

abbrev pub prompt_of : Item → List Text
prompt_of (prompt a) = a ∷ []
prompt_of _ = []

abbrev pub is_print_item : Item → Bool
is_print_item (print _) = true
is_print_item _ = false

abbrev pub sets_format : Item → Bool
sets_format (separate f v) = f == output_format_flag
sets_format (joined f v) = f == output_format_flag
sets_format _ = false

-- An output format for which claude is given `--verbose`.
abbrev pub wants_verbose : Item → Bool
wants_verbose (separate f v) =
    f == output_format_flag && (v == text "stream-json" || v == text "json-verbose")
wants_verbose (joined f v) =
    f == output_format_flag && (v == text "stream-json" || v == text "json-verbose")
wants_verbose _ = false

abbrev pub flat : (Item → List Text) → List Item → List Text
flat f [] = []
flat f (i ∷ is) = f i ++ flat f is

-- The flag takes a value, and this one is allowed for it.
pub record TakesValue (f v : Text) : Type 0 where
  pub listed : contains flags_taking_value f ≡ true
  pub format : f ≡ output_format_flag → contains allowed_output_formats v ≡ true
  pub effort : f ≡ text "--effort" → contains allowed_efforts v ≡ true

abbrev pub IsAllowed : Item → Type 0
IsAllowed (print a) = is_print a ≡ true
IsAllowed (prompt a) = starts_with (text "-") a ≡ false
IsAllowed no_continue = Unit
IsAllowed update = Unit
IsAllowed (separate f v) = TakesValue f v
IsAllowed (joined f v) = TakesValue f v

-- The flag that waits for its value, and the prompts taken so far.
abbrev pub pending : Option Text → List Text
pending none = []
pending (some f) = f ∷ []

abbrev pub prompts_of : ArgState → List Text
prompts_of st = if st.has_prompt then st.prompt ∷ [] else []

pub record IsOpen (st : ArgState) : Type 0 where
  pub waits : (f : Text) → st.expect_value ≡ some f → contains flags_taking_value f ≡ true
  pub format : contains allowed_output_formats st.output_format ≡ true

-- `Reads st words st'`: the loop reads the words, as items, from the one state to the other.
pub record Reads (st : ArgState) (words : List Text) (st' : ArgState) : Type 0 where
  pub items : List Item
  pub spelled : pending st.expect_value ++ words ≡ flat spell items ++ pending st'.expect_value
  pub allowed : All IsAllowed items
  pub passed : st'.pass_args ≡ st.pass_args ++ flat passed_on items
  pub printed : st'.has_print ≡ (st.has_print || any is_print_item items)
  pub prompts : prompts_of st' ≡ prompts_of st ++ flat prompt_of items
  pub seen : st'.saw_output_format ≡ (st.saw_output_format || any sets_format items)
  pub verbose : st'.needs_verbose ≡ (st.needs_verbose || any wants_verbose items)
  pub still_open : IsOpen st'

abbrev pub Reading : ArgState → List Text → Result ArgError ArgState → Type 0
Reading st words (ok st') = Reads st words st'
Reading st words (err e) = Unit

pub imp_of_test : (a b : Bool) → (a && not b) ≡ false → a ≡ true → b ≡ true
imp_of_test a b h k = ground arith

pub not-false : (a : Bool) → not a ≡ false → a ≡ true
not-false a h = ground arith

pub or_true : (a : Bool) → true ≡ (a || true)
or_true a = ground arith

pub or_assoc : (a b c : Bool) → (a || (b || c)) ≡ ((a || b) || c)
or_assoc a b c = ground arith

pub and_right : (a b : Bool) → (a && b) ≡ true → b ≡ true
and_right a b h = ground arith

pub some_injective : {a b : Text} → some a ≡ some b → a ≡ b
some_injective h = cc

pub or_nothing : (a : Bool) → a ≡ (a || false)
or_nothing a = ground arith

pub or_one : (a b : Bool) → (a || b) ≡ (b || (a || false))
or_one a b = ground arith
