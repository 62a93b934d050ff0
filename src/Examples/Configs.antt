-- ===== src/Examples/Configs.antt =====
-- The settings of a project at concrete inputs.
use docker_claudebox.Settings.Features.{
  parse_features, strip_lines, feature_lines, feature_line, block_line, emit, emit_all,
  is_block_header, is_blank_end, flow_list, after_flow_open, after_features_key, block_item,
  after_item_dash, is_blank_line,
}
use docker_claudebox.Settings.Features.Names.{AreNames, parse_features-AreNames}
use docker_claudebox.Settings.Env.{get_setting, bool_setting, require_setting}
use docker_claudebox.Image.Ensure.{to_lower}
use docker_claudebox.Base.{
  Dict, List, Text, [], after_prefix, drop_return, drop_returns, drop_run, false, is_line_end,
  is_name_char, join_with, lines_of, lookup, ok, refl, split_on, take_run, text, trim, trim_start,
  true, ◌∷◌, ◌≡◌,
}

abbrev config : List Text
config =
    text "id: 7"
    ∷ text "features: # mine"
    ∷ text "  - go"
    ∷ text "  - python # 3"
    ∷ text "vm:"
    ∷ text "profiles: [go, web]"
    ∷ []

features_read :
    parse_features (join_with (10 ∷ []) config) ≡ text "go" ∷ text "python" ∷ text "web" ∷ []
unfolding parse_features feature_lines feature_line block_line emit emit_all is_block_header
    is_blank_end flow_list after_flow_open after_features_key block_item after_item_dash
    is_blank_line lines_of drop_returns drop_return split_on join_with after_prefix trim trim_start
    take_run drop_run is_name_char is_line_end
features_read = refl

features_stripped : strip_lines false config ≡ text "id: 7" ∷ text "vm:" ∷ []
unfolding strip_lines is_block_header is_blank_end after_flow_open after_features_key
    after_item_dash is_blank_line after_prefix trim_start drop_run is_line_end
features_stripped = refl

parse_features-AreNames_example : AreNames (parse_features (join_with (10 ∷ []) config))
parse_features-AreNames_example = parse_features-AreNames (join_with (10 ∷ []) config)

abbrev env : Dict Text
env = (text "DRIDOCK_IMAGE", text "claude") ∷ (text "DRIDOCK_DEBUG", text "Yes") ∷ []

debug_on : bool_setting env (text "DEBUG") ≡ true
unfolding bool_setting get_setting lookup to_lower
debug_on = refl

image_given : require_setting env (text "IMAGE") ≡ ok (text "claude")
unfolding require_setting get_setting lookup
image_given = refl
