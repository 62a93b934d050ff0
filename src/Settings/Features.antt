-- ===== src/Settings/Features.antt =====
-- services/ProjectConfig.ts: parseFeatures and stripFeaturesBlock, the list of a project's features.
pub mod Names
pub mod Strip
use docker_claudebox.Base.{
  Bool, List, Option, Text, [], after_prefix, any, contains, drop_run, false, if◌then◌else◌,
  is_line_end, is_name_char, join_with, keep, lines_of, nat_beq, none, not, some, split_on,
  take_run, text, text_eq, trim, trim_start, true, ◌&&◌, ◌++◌, ◌==◌, ◌||◌, ◌∷◌,
}

-- `^\s*(?:features|profiles):\s*`: what follows it.
unfoldable pub after_features_key : Text → Option Text
after_features_key line = elim (after_prefix (text "features:") (trim_start line)) [
  | some rest ↦ some (trim_start rest)
  | none ↦ elim (after_prefix (text "profiles:") (trim_start line)) [
    | some rest ↦ some (trim_start rest)
    | none ↦ none
  ]
]

-- `(?:#.*)?$`
unfoldable pub is_blank_end : Text → Bool
is_blank_end [] = true
is_blank_end (c ∷ s) = nat_beq c b'#' && not (any is_line_end s)

-- `^\s*(?:features|profiles):\s*(?:#.*)?$`
unfoldable pub is_block_header : Text → Bool
is_block_header line = elim (after_features_key line) [
  | none ↦ false
  | some rest ↦ is_blank_end rest
]

abbrev pub after_bracket : Text → Option Text
after_bracket [] = none
after_bracket (c ∷ s) = if nat_beq c b'[' then some s else none

-- `^\s*(?:features|profiles):\s*\[`: what follows it.
unfoldable pub after_flow_open : Text → Option Text
after_flow_open line = elim (after_features_key line) [
  | none ↦ none
  | some rest ↦ after_bracket rest
]

abbrev pub has_flow_open : Text → Bool
has_flow_open line = elim (after_flow_open line) [ none ↦ false | some _ ↦ true ]

-- `([^\]]*)\]`
abbrev pub up_to_bracket : Text → Option Text
up_to_bracket rest =
    if any (nat_beq b']') rest then some (take_run (λ c. not (nat_beq c b']')) rest) else none

-- The list between the brackets of the flow form.
unfoldable pub flow_list : Text → Option Text
flow_list line = elim (after_flow_open line) [ none ↦ none | some rest ↦ up_to_bracket rest ]

-- `^\s*-\s*`: what follows it.
unfoldable pub after_item_dash : Text → Option Text
after_item_dash line = elim (after_prefix (text "-") (trim_start line)) [
  | none ↦ none
  | some rest ↦ some (trim_start rest)
]

abbrev pub is_item : Text → Bool
is_item line = elim (after_item_dash line) [ none ↦ false | some _ ↦ true ]

abbrev pub item_name : Text → Option Text
item_name rest =
    if is_blank_end (drop_run (λ c. not (nat_beq c b'#')) rest)
    then some (take_run (λ c. not (nat_beq c b'#')) rest)
    else none

-- `^\s*-\s*([^#]*)(?:#.*)?$`
unfoldable pub block_item : Text → Option Text
block_item line = elim (after_item_dash line) [ none ↦ none | some rest ↦ item_name rest ]

-- `^\s*(?:#.*)?$`
unfoldable pub is_blank_line : Text → Bool
is_blank_line line = is_blank_end (trim_start line)

-- `emit`: the names found so far stand for `seen` as well, which has the same members.
unfoldable pub emit : List Text → Text → List Text
emit found raw =
    let cleaned = keep is_name_char raw in
    if cleaned == text "" || contains found cleaned then found else found ++ (cleaned ∷ [])

unfoldable pub emit_all : List Text → List Text → List Text
emit_all found [] = found
emit_all found (raw ∷ raws) = emit_all (emit found (trim raw)) raws

-- A line within a block: the names and whether the block goes on.
unfoldable pub block_line : List Text → Option Text → Text → List Text × Bool
block_line found (some name) line = (emit found (trim name), true)
block_line found none line = (found, is_blank_line line)

unfoldable pub feature_line : List Text → Bool → Option Text → Text → List Text × Bool
feature_line found in_block (some names) line = (emit_all found (split_on b',' names), false)
feature_line found in_block none line =
    if is_block_header line
    then (found, true)
    else if in_block
    then block_line found (block_item line) line
    else (found, false)

unfoldable pub feature_lines : List Text → Bool → List Text → List Text
feature_lines found in_block [] = found
feature_lines found in_block (line ∷ lines) =
    let (found', in_block') = feature_line found in_block (flow_list line) line in
    feature_lines found' in_block' lines

unfoldable pub parse_features : Text → List Text
parse_features s = feature_lines [] false (lines_of s)

-- The loop of `stripFeaturesBlock`.
unfoldable pub strip_lines : Bool → List Text → List Text
strip_lines skipping [] = []
strip_lines skipping (line ∷ lines) =
    let rest = strip_lines false lines in
    let rest_skipped = strip_lines true lines in
    if has_flow_open line
    then rest
    else if is_block_header line
    then rest_skipped
    else if skipping && (is_item line || is_blank_line line)
    then rest_skipped
    else line ∷ rest

unfoldable pub strip_features_block : Text → Text
strip_features_block s = join_with (10 ∷ []) (strip_lines false (lines_of s))
