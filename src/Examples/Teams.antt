-- ===== src/Examples/Teams.antt =====
-- The roster at concrete inputs.
use docker_claudebox.Team.Roster.{
  Roster, parse_roster, resolve_self_name, parse_lines, parse_line, top_level_line, top_level_field,
  item_line, continuation_line, continue_agent, field_line, finish_agent, finish_current,
  push_agent, set_agent_field, strip_inline_comment, match_key, match_item, match_field,
  after_spaces, drop_dash, drop_colon, is_team_name, is_team_char, check_names, roster_of,
  invalid_team,
}
use docker_claudebox.Team.Roster.Sound.{IsRoster, parse_roster-IsRoster}
use docker_claudebox.Team.Roster.Resolve.{IsResolved, resolve_self_name-IsResolved}
use docker_claudebox.Base.{
  Dict, Text, [], before_first, drop_return, drop_returns, err, is_letter, is_line_end,
  is_name_char, lines_of, none, ok, refl, some, split_on, starts_with, take_run, text, trim, ◌++◌,
  ◌∷◌, ◌≡◌,
}

abbrev agents_yml : Text
agents_yml =
    text "team: bears # ours"
    ++ (10
        ∷ (text "agents:"
            ++ (10
                ∷ (text "  - name: Bear"
                    ++ (10
                        ∷ (text "    role: qa"
                            ++ (13
                                ∷ 10
                                ∷ (text "  - name: Arfy" ++ (10 ∷ text "human: Alan")))))))))

abbrev bears : Roster
bears = record {
  agents =
      record { name = text "Bear"; role = some (text "qa"); environment = none }
      ∷ record { name = text "Arfy"; role = none; environment = none }
      ∷ [];
  team = some (text "bears");
  human = some (text "Alan");
  github_repo = none;
}

bears_read : parse_roster agents_yml ≡ ok bears
unfolding parse_roster parse_lines parse_line lines_of drop_returns drop_return top_level_line
    top_level_field item_line continuation_line continue_agent field_line finish_agent
    finish_current push_agent set_agent_field strip_inline_comment match_key match_item match_field
    after_spaces drop_dash drop_colon is_line_end is_team_name is_team_char check_names roster_of
    split_on trim starts_with before_first is_letter is_name_char take_run
bears_read = refl

escape_refused : parse_roster (text "team: ../x") ≡ err (invalid_team 1 (text "../x"))
unfolding parse_roster parse_lines parse_line lines_of drop_returns drop_return top_level_line
    top_level_field finish_agent finish_current strip_inline_comment match_key drop_colon
    is_line_end is_team_name is_team_char split_on trim starts_with before_first is_letter
    is_name_char take_run
escape_refused = refl

parse_roster-IsRoster_example : IsRoster bears
parse_roster-IsRoster_example = parse_roster-IsRoster agents_yml bears bears_read

abbrev as_arfy : Dict Text
as_arfy = (text "DRIDOCK_AGENT_NAME", text "Arfy") ∷ []

resolve_self_name-IsResolved_example : IsResolved as_arfy bears (resolve_self_name as_arfy bears)
resolve_self_name-IsResolved_example = resolve_self_name-IsResolved as_arfy bears
