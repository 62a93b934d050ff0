-- ===== src/Team/Roster.antt =====
-- services/AgentRoster.ts: the parser of agents.yml, and the name that a runtime goes by.
pub mod Sound
pub mod Resolve
use mathlib.Core.List.{reverse}
use docker_claudebox.Base.{
  Bool, Dict, List, Option, Result, Text, [], all, any, before_first, contains, drop_run, err,
  false, if◌then◌else◌, is_digit, is_letter, is_line_end, is_name_char, is_space, keep, leb, length,
  lines_of, lookup, map, nat_beq, none, not, ok, some, starts_with, suc, take_run, text, text_eq,
  trim, trim_start, true, ℕ, ◌&&◌, ◌++◌, ◌==◌, ◌>>=◌, ◌>>◌, ◌||◌, ◌∷◌,
}

pub record Agent : Type 0 where
  pub name : Text
  pub role : Option Text
  pub environment : Option Text

pub record Roster : Type 0 where
  pub agents : List Agent
  pub team : Option Text
  pub human : Option Text
  pub github_repo : Option Text

-- What the parser throws; the number is the line's, from 1.
pub data RosterError : Type 0 where
  item_without_name : RosterError
  expected_key : ℕ → Text → RosterError
  inline_agents : ℕ → RosterError
  invalid_team : ℕ → Text → RosterError
  unknown_key : ℕ → Text → RosterError
  unexpected_indent : ℕ → RosterError
  expected_item : ℕ → RosterError
  expected_field : ℕ → Text → RosterError
  unknown_field : ℕ → Text → RosterError
  no_agents : RosterError
  duplicate_name : Text → RosterError

-- `Partial<Agent>`
pub record PartialAgent : Type 0 where
  pub name : Option Text
  pub role : Option Text
  pub environment : Option Text

pub record RosterState : Type 0 where
  pub agents : List Agent
  pub human : Option Text
  pub team : Option Text
  pub github_repo : Option Text
  pub in_agents : Bool
  pub current : Option PartialAgent

unfoldable pub drop_colon : Text → Option Text
drop_colon [] = none
drop_colon (c ∷ s) = if nat_beq c b':' then some s else none

-- `([A-Za-z_][\w-]*):\s*(.*)$`: the key and the value. The white space is taken whole, since what
-- it could give back contains no character that `.` would need.
unfoldable pub match_key : Text → Option (Text × Text)
match_key [] = none
match_key (c ∷ s) =
    if is_letter c || nat_beq c b'_'
    then elim (drop_colon (drop_run is_name_char s)) [
      | none ↦ none
      | some after ↦
          let value = drop_run is_space after in
          if any is_line_end value then none else some (c ∷ take_run is_name_char s, value)
    ]
    else none

-- `^\s+` before the rest.
unfoldable pub after_spaces : Text → Option Text
after_spaces [] = none
after_spaces (c ∷ s) = if is_space c then some (drop_run is_space s) else none

unfoldable pub drop_dash : Text → Option Text
drop_dash [] = none
drop_dash (c ∷ s) = if nat_beq c b'-' then some s else none

-- `^\s+-\s+KEY:\s*(.*)$`
unfoldable pub match_item : Text → Option (Text × Text)
match_item raw = elim (after_spaces raw) [
  | none ↦ none
  | some s ↦ elim (drop_dash s) [
    | none ↦ none
    | some t ↦ elim (after_spaces t) [ none ↦ none | some u ↦ match_key u ]
  ]
]

-- `^\s+KEY:\s*(.*)$`
unfoldable pub match_field : Text → Option (Text × Text)
match_field raw = elim (after_spaces raw) [ none ↦ none | some s ↦ match_key s ]

unfoldable pub strip_inline_comment : Text → Text
strip_inline_comment value =
    let trimmed = trim value in
    if starts_with (text "#") trimmed then [] else trim (before_first (text " #") trimmed)

unfoldable pub is_team_char : ℕ → Bool
is_team_char c =
    is_letter c || (is_digit c || (nat_beq c b'.' || (nat_beq c b'_' || nat_beq c b'-')))

-- `^[A-Za-z0-9][A-Za-z0-9._-]{0,63}$`
unfoldable pub is_team_name : Text → Bool
is_team_name [] = false
is_team_name (c ∷ s) = (is_letter c || is_digit c) && (all is_team_char s && leb (length s) 63)

unfoldable pub set_agent_field : PartialAgent → Text → Text → ℕ → Result RosterError PartialAgent
set_agent_field agent key value line =
    if key == text "name"
    then ok (record agent { name = some value })
    else if key == text "role"
    then ok (record agent { role = some value })
    else if key == text "environment"
    then ok (record agent { environment = some value })
    else err (unknown_field line key)

-- The item is complete: it needs a name.
unfoldable pub push_agent :
    RosterState → PartialAgent → Option Text → Result RosterError RosterState
push_agent st agent none = err item_without_name
push_agent st agent (some name) =
    if name == text ""
    then err item_without_name
    else ok (record st {
      agents =
          st.agents
          ++ (record { name = name; role = agent.role; environment = agent.environment } ∷ []);
      current = none;
    })

unfoldable pub finish_current : RosterState → Option PartialAgent → Result RosterError RosterState
finish_current st none = ok st
finish_current st (some agent) = push_agent st agent (agent.name)

unfoldable pub finish_agent : RosterState → Result RosterError RosterState
finish_agent st = finish_current st (st.current)

-- `value === "" ? undefined : value`
abbrev pub optional_value : Text → Option Text
optional_value [] = none
optional_value (c ∷ s) = some (c ∷ s)

unfoldable pub top_level_field : RosterState → Text → Text → ℕ → Result RosterError RosterState
top_level_field st key value line =
    if key == text "agents"
    then (if value == text ""
        then ok (record st { in_agents = true })
        else err (inline_agents line))
    else if key == text "team"
    then (if value == text "" || is_team_name value
        then ok (record st { team = optional_value value; in_agents = false })
        else err (invalid_team line value))
    else if key == text "human"
    then ok (record st { human = optional_value value; in_agents = false })
    else if key == text "github_repo"
    then ok (record st { github_repo = optional_value value; in_agents = false })
    else err (unknown_key line key)

unfoldable pub top_level_line : RosterState → Text → ℕ → Result RosterError RosterState
top_level_line st raw line = do
  st ← finish_agent st
  elim (match_key raw) [
    | none ↦ err (expected_key line raw)
    | some (key, value) ↦ top_level_field st key (strip_inline_comment value) line
  ]

abbrev no_fields : PartialAgent
no_fields = record { name = none; role = none; environment = none }

unfoldable pub item_line : RosterState → Text → Text → ℕ → Result RosterError RosterState
item_line st key value line = do
  st ← finish_agent st
  agent ← set_agent_field no_fields key (strip_inline_comment value) line
  ok (record st { current = some agent })

unfoldable pub field_line :
    RosterState → PartialAgent → Option (Text × Text) → Text → ℕ → Result RosterError RosterState
field_line st agent none raw line = err (expected_field line raw)
field_line st agent (some (key, value)) raw line = do
  agent ← set_agent_field agent key (strip_inline_comment value) line
  ok (record st { current = some agent })

unfoldable pub continue_agent :
    RosterState → Option PartialAgent → Text → ℕ → Result RosterError RosterState
continue_agent st none raw line = err (expected_item line)
continue_agent st (some agent) raw line = field_line st agent (match_field raw) raw line

unfoldable pub continuation_line : RosterState → Text → ℕ → Result RosterError RosterState
continuation_line st raw line = continue_agent st (st.current) raw line

-- The loop's body.
unfoldable pub parse_line : RosterState → Text → ℕ → Result RosterError RosterState
parse_line st raw line =
    if trim raw == text "" || starts_with (text "#") (trim raw)
    then ok st
    else if trim_start raw == raw
    then top_level_line st raw line
    else if not (st.in_agents)
    then err (unexpected_indent line)
    else elim (match_item raw) [
      | some (key, value) ↦ item_line st key value line
      | none ↦ continuation_line st raw line
    ]

unfoldable pub parse_lines : RosterState → List Text → ℕ → Result RosterError RosterState
parse_lines st [] line = ok st
parse_lines st (raw ∷ lines) line = do st ← parse_line st raw line; parse_lines st lines (suc line)

-- The names that come again later, the first repetition first.
unfoldable pub check_names : List Text → List Agent → Result RosterError (List Text)
check_names seen [] = ok seen
check_names seen (a ∷ agents) =
    let rest = check_names (seen ++ (a.name ∷ [])) agents in
    if contains seen (a.name) then err (duplicate_name (a.name)) else rest

abbrev nothing_read : RosterState
nothing_read = record {
  agents = [];
  human = none;
  team = none;
  github_repo = none;
  in_agents = false;
  current = none;
}

unfoldable pub roster_of : RosterState → List Agent → Result RosterError Roster
roster_of st [] = err no_agents
roster_of st (a ∷ agents) = do
  check_names [] (a ∷ agents)
  ok (record {
    agents = a ∷ agents;
    team = st.team;
    human = st.human;
    github_repo = st.github_repo;
  })

unfoldable pub parse_roster : Text → Result RosterError Roster
parse_roster s = do
  st ← parse_lines nothing_read (lines_of s) 1
  st ← finish_agent st
  roster_of st (st.agents)

-- `name` and the source it was taken from.
pub data RosterResolve : Type 0 where
  from_env : Text → RosterResolve
  from_single_agent : Text → RosterResolve
  no_env_and_multi_agent : List Text → RosterResolve
  env_not_in_roster : Text → List Text → RosterResolve

abbrev pub names_of : Roster → List Text
names_of roster = map (λ a. a.name) (roster.agents)

unfoldable pub fall_back : List Agent → RosterResolve
fall_back (a ∷ []) = from_single_agent (a.name)
fall_back agents = no_env_and_multi_agent (map (λ a. a.name) agents)

-- `resolveSelfName`, for the value of the variable.
unfoldable pub resolve_value : Roster → Option Text → RosterResolve
resolve_value roster none = fall_back (roster.agents)
resolve_value roster (some value) =
    if value == text ""
    then fall_back (roster.agents)
    else if any (λ a. a.name == value) (roster.agents)
    then from_env value
    else env_not_in_roster value (names_of roster)

unfoldable pub resolve_self_name : Dict Text → Roster → RosterResolve
resolve_self_name env roster = resolve_value roster (lookup (text "DRIDOCK_AGENT_NAME") env)

-- `a.environment === environment`
abbrev pub works_in : Text → Agent → Bool
works_in environment a = elim (a.environment) [ none ↦ false | some e ↦ e == environment ]

unfoldable pub sole_agent_by_environment : Roster → Text → Option Text
sole_agent_by_environment roster environment = elim (keep (works_in environment) (roster.agents)) [
  | a ∷ [] ↦ some (a.name)
  | _ ↦ none
]
