-- ===== src/Cli/Registry.antt =====
-- domain/Verbs.ts and cli/CommandRegistry.ts: the catalogue of verbs and the dispatch of a command line.
pub mod Routes
use docker_claudebox.Base.{
  Bool, Dict, List, Option, Result, Text, [], contains, err, false, if◌then◌else◌, insert, lookup,
  nat_beq, none, not, ok, some, starts_with, text, text_eq, true, ℕ, ◌&&◌, ◌++◌, ◌==◌, ◌||◌, ◌∷◌,
}

-- The keys of `VERBS`, in the order of the source.
abbrev pub verbs : List Text
verbs =
    text "start"
    ∷ text "stop"
    ∷ text "down"
    ∷ text "destroy"
    ∷ text "migrate"
    ∷ text "bootstrap"
    ∷ text "info"
    ∷ text "status"
    ∷ text "version"
    ∷ text "checkversion"
    ∷ text "features"
    ∷ text "profiles"
    ∷ text "vm"
    ∷ text "ip"
    ∷ text "net"
    ∷ text "browser-bridge"
    ∷ text "host-agent"
    ∷ text "harness"
    ∷ text "framework-bugs"
    ∷ text "consult"
    ∷ text "claude-dir"
    ∷ text "completion"
    ∷ text "help"
    ∷ text "setup-token"
    ∷ text "clear-session"
    ∷ text "doctor"
    ∷ text "auth"
    ∷ text "mcp"
    ∷ text "report-bug"
    ∷ text "df"
    ∷ text "team"
    ∷ []

-- The properties that an object literal inherits, which `in` finds as well.
abbrev pub inherited_names : List Text
inherited_names =
    text "constructor"
    ∷ text "__defineGetter__"
    ∷ text "__defineSetter__"
    ∷ text "hasOwnProperty"
    ∷ text "__lookupGetter__"
    ∷ text "__lookupSetter__"
    ∷ text "isPrototypeOf"
    ∷ text "propertyIsEnumerable"
    ∷ text "toString"
    ∷ text "valueOf"
    ∷ text "__proto__"
    ∷ text "toLocaleString"
    ∷ []

-- `v in VERBS`
unfoldable pub is_known_verb : Text → Bool
is_known_verb v = contains verbs v || contains inherited_names v

pub data DispatchError : Type 0 where
  verb_taken no_command unknown_verb : Text → DispatchError

pub record Subverb : Type 0 where
  pub name : Text
  pub synopsis : Text

-- A command over the state `W` of all that it may change; `run` returns the exit code, or throws.
pub record Command (W : Type 0) : Type 0 where
  pub verb : Text
  pub usage : Text
  pub subverbs : Option (List Subverb)
  pub run : List Text → W → Result Text (ℕ × W)

unfoldable pub find_subverb : Text → List Subverb → Option Subverb
find_subverb name [] = none
find_subverb name (s ∷ subs) = if s.name == name then some s else find_subverb name subs

abbrev pub is_help : Text → Bool
is_help a = a == text "--help" || a == text "-h"

abbrev pub is_version_flag : Text → Bool
is_version_flag a = a == text "-v" || a == text "--version"

-- `s.endsWith("\n") ? s : s + "\n"`
unfoldable pub ends_line : Text → Bool
ends_line [] = false
ends_line (c ∷ []) = nat_beq c 10
ends_line (c ∷ (d ∷ s)) = ends_line (d ∷ s)

unfoldable pub with_line_end : Text → Text
with_line_end s = if ends_line s then s else s ++ (10 ∷ [])

-- `s.replace(/\n$/, "")`
unfoldable pub without_line_end : Text → Text
without_line_end [] = []
without_line_end (c ∷ []) = if nat_beq c 10 then [] else c ∷ []
without_line_end (c ∷ (d ∷ s)) = c ∷ without_line_end (d ∷ s)

abbrev asks_help : List Text → Bool
asks_help [] = false
asks_help (a ∷ rest) = is_help a

-- The commands by verb.
abbrev pub Registry : Type 0 → Type 0
Registry W = Dict (Command W)

module _ {W : Type 0} where
  unfoldable pub register : Command W → Registry W → Result DispatchError (Registry W)
  register cmd commands = elim (lookup (cmd.verb) commands) [
    | some _ ↦ err (verb_taken (cmd.verb))
    | none ↦ ok (insert (cmd.verb) cmd commands)
  ]

  unfoldable pub has : Text → Registry W → Bool
  has verb commands =
      is_known_verb verb && elim (lookup verb commands) [ none ↦ false | some _ ↦ true ]

  -- The text of a subverb's help, when the arguments ask for that.
  unfoldable pub subverb_help : Command W → List Text → Option Text
  subverb_help cmd (name ∷ (flag ∷ rest)) =
      if is_help flag
      then elim (cmd.subverbs) [
        | none ↦ none
        | some subs ↦ elim (find_subverb name subs) [
          | none ↦ none
          | some s ↦ some (without_line_end (s.synopsis) ++ (10 ∷ []))
        ]
      ]
      else none
  subverb_help cmd rest = none

  -- The command that a flag is routed to before `start` is tried.
  unfoldable pub flag_command : Registry W → Text → Option (Command W)
  flag_command commands verb =
      if is_help verb
      then lookup (text "help") commands
      else if is_version_flag verb
      then lookup (text "version") commands
      else none

  -- What `dispatch` itself throws is the outer result's error, what a command throws the inner one's;
  -- `write` is `ctx.stdout.write`, `banner` the text of `writeBanner`.
  module _ (write : Text → W → W) (banner : Text) where
    -- A verb's command with the arguments after the verb.
    unfoldable pub run_command : Command W → List Text → W → Result Text (ℕ × W)
    run_command cmd rest w =
        if asks_help rest
        then ok (0, write (with_line_end (cmd.usage)) w)
        else elim (subverb_help cmd rest) [
          | some synopsis ↦ ok (0, write synopsis w)
          | none ↦ cmd.run rest w
        ]

    unfoldable pub run_start :
        Option (Command W) → Text → List Text → W → Result DispatchError (Result Text (ℕ × W))
    run_start none verb rest w = err (unknown_verb verb)
    run_start (some start) verb rest w = ok (start.run (verb ∷ rest) w)

    unfoldable pub run_flag :
        Option (Command W)
        → Registry W
        → Text
        → List Text
        → W
        → Result DispatchError (Result Text (ℕ × W))
    run_flag (some cmd) commands verb rest w = ok (cmd.run rest w)
    run_flag none commands verb rest w = run_start (lookup (text "start") commands) verb rest w

    unfoldable pub dispatch_flag :
        Registry W → Text → List Text → W → Result DispatchError (Result Text (ℕ × W))
    dispatch_flag commands verb rest w = run_flag (flag_command commands verb) commands verb rest w

    unfoldable pub dispatch_verb :
        Registry W → Text → List Text → W → Result DispatchError (Result Text (ℕ × W))
    dispatch_verb commands verb rest w =
        if not (is_known_verb verb) then err (unknown_verb verb) else elim (lookup verb commands) [
          | none ↦ err (no_command verb)
          | some cmd ↦ ok (run_command cmd rest w)
        ]

    unfoldable pub dispatch :
        Registry W → List Text → W → Result DispatchError (Result Text (ℕ × W))
    dispatch commands [] w = ok (ok (0, write banner w))
    dispatch commands (verb ∷ rest) w =
        if verb == text ""
        then ok (ok (0, write banner w))
        else if starts_with (text "-") verb
        then dispatch_flag commands verb rest w
        else dispatch_verb commands verb rest w
