-- ===== src/Settings/Features/Strip.antt =====
-- The settings without the features: which lines are left.
use docker_claudebox.Settings.Features.{is_block_header, has_flow_open, is_item, is_blank_line}
use docker_claudebox.Base.{Bool, List, Text, [], false, if◌then◌else◌, not, ◌&&◌, ◌||◌, ◌∷◌, ◌≡◌}

-- A line that neither holds nor opens a list of features.
abbrev pub IsOther : Text → Type 0
IsOther line = (has_flow_open line ≡ false) × (is_block_header line ≡ false)

-- The lines before a line, the nearest first, end in an open block: behind its header stand only
-- items and blank lines. `skipping` says whether the text begins in one.
abbrev pub in_block : Bool → List Text → Bool
in_block skipping [] = skipping
in_block skipping (line ∷ before) =
    not (has_flow_open line)
    && (is_block_header line || ((is_item line || is_blank_line line) && in_block skipping before))

-- A line is of the features: it holds or opens a list of them, or stands in an open block.
abbrev pub is_of_features : Bool → List Text → Text → Bool
is_of_features skipping before line =
    has_flow_open line
    || (is_block_header line || ((is_item line || is_blank_line line) && in_block skipping before))

abbrev pub other_lines : Bool → List Text → List Text → List Text
other_lines skipping before [] = []
other_lines skipping before (line ∷ lines) =
    if is_of_features skipping before line
    then other_lines skipping (line ∷ before) lines
    else line ∷ other_lines skipping (line ∷ before) lines
