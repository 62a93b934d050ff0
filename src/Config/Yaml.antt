-- ===== src/Config/Yaml.antt =====
-- services/ProjectConfig.ts: parseTopLevelString and parseNestedYaml.
use docker_claudebox.Base.{
  Bool, List, Option, Text, [], after_prefix, any, false, if◌then◌else◌, is_line_end, is_space,
  lines_of, nat_beq, none, not, some, text_eq, trim, trim_start, true, ℕ, ◌&&◌, ◌==◌, ◌||◌, ◌∷◌,
}

-- `/^\s/`
abbrev pub is_indented : Text → Bool
is_indented [] = false
is_indented (c ∷ s) = is_space c

abbrev pub begins_with : ℕ → Text → Bool
begins_with c [] = false
begins_with c (d ∷ s) = nat_beq d c

abbrev pub ends_with : ℕ → Text → Bool
ends_with c [] = false
ends_with c (d ∷ []) = nat_beq d c
ends_with c (d ∷ (e ∷ s)) = ends_with c (e ∷ s)

-- `\s+#`
unfoldable pub starts_comment : Text → Bool
starts_comment s = is_indented s && begins_with b'#' (trim_start s)

-- `v.replace(/\s+#.*$/, "")`, on a text of one line.
unfoldable pub cut_comment : Text → Text
unfolding starts_comment
cut_comment [] = []
cut_comment (c ∷ s) = let rest = cut_comment s in if starts_comment (c ∷ s) then [] else c ∷ rest

abbrev pub but_last : Text → Text
but_last [] = []
but_last (c ∷ []) = []
but_last (c ∷ (d ∷ s)) = c ∷ but_last (d ∷ s)

-- `v.slice(1, -1)`
abbrev pub inner : Text → Text
inner [] = []
inner (c ∷ s) = but_last s

unfoldable pub is_quoted : Text → Bool
is_quoted v = (begins_with b'"' v && ends_with b'"' v) || (begins_with b'\'' v && ends_with b'\'' v)

-- What both parsers make of the value that follows the key.
unfoldable pub clean_value : Text → Option Text
unfolding cut_comment is_quoted
clean_value raw =
    let v = trim raw in
    let v₁ = if begins_with b'#' v then [] else trim (cut_comment v) in
    let v₂ = if is_quoted v₁ then inner v₁ else v₁ in if v₂ == [] then none else some v₂

abbrev pub after_colon : Text → Option Text
after_colon [] = none
after_colon (c ∷ s) = if nat_beq c b':' then some s else none

-- `(.*)$` after the white space.
abbrev pub whole_line : Option Text → Option Text
whole_line none = none
whole_line (some s) = if any is_line_end (trim_start s) then none else some (trim_start s)

abbrev pub after_key_in : Option Text → Option Text
after_key_in none = none
after_key_in (some s) = whole_line (after_colon (trim_start s))

-- `^\s*key\s*:\s*(.*)$`, with the group.
unfoldable pub value_of : Text → Text → Option Text
value_of key line = after_key_in (after_prefix key (trim_start line))

abbrev pub first_value : Option Text → Option Text → Option Text
first_value none later = later
first_value (some raw) later = clean_value raw

unfoldable pub find_top_level : Text → List Text → Option Text
unfolding value_of clean_value
find_top_level key [] = none
find_top_level key (line ∷ lines) =
    let later = find_top_level key lines in
    if is_indented line then later else first_value (value_of key line) later

unfoldable pub parse_top_level_string : Text → Text → Option Text
unfolding find_top_level
parse_top_level_string s key = find_top_level key (lines_of s)

abbrev pub colon_follows : Option Text → Bool
colon_follows none = false
colon_follows (some s) = begins_with b':' (trim_start s)

-- `^parent\s*:`
unfoldable pub opens : Text → Text → Bool
opens parent line = colon_follows (after_prefix parent line)

-- `rawLine.trim() === "" || /^\s*#/.test(rawLine)`
unfoldable pub is_blank_or_comment : Text → Bool
is_blank_or_comment line = (trim line == []) || begins_with b'#' (trim_start line)

-- The rest of the loop: `in_parent` says that the block of the parent is open.
unfoldable pub find_nested : Text → Text → Bool → List Text → Option Text
unfolding value_of clean_value opens is_blank_or_comment
find_nested parent child in_parent [] = none
find_nested parent child in_parent (line ∷ lines) =
    let open_next =
      if is_blank_or_comment line
      then in_parent
      else if opens parent line
      then true
      else if not (is_indented line)
      then false
      else in_parent in
    let later = find_nested parent child open_next lines in
    if is_blank_or_comment line || (opens parent line || (not (is_indented line) || not in_parent))
    then later
    else first_value (value_of child line) later

unfoldable pub parse_nested_yaml : Text → Text → Text → Option Text
unfolding find_nested
parse_nested_yaml s parent child = find_nested parent child false (lines_of s)
