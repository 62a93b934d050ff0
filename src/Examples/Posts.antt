-- ===== src/Examples/Posts.antt =====
-- A post to an issue that is closed by it, on files in memory and a log of the requests.
use docker_claudebox.Examples.Desk.{Desk, desk_files, desk_shell, desk-IsLogged}
use docker_claudebox.Team.Post.{
  PostFlags, PostPlan, send, comment_on, create_issue, recipients_of_flag, plan_post, post_word,
  parse_post_args, check_flags, read_issue, known_names, check_recipients_known, check_body,
  compose_text, choose_repo, is_repo, is_repo_char, no_flags,
}
use docker_claudebox.Team.Post.Planned.{plan_post-IsPlanned, Fits, message_of}
use docker_claudebox.Team.Roster.{Roster}
use docker_claudebox.Team.Send.{run_post, request_command, temp_path}
use docker_claudebox.Team.Send.Commands.{request_command-words, words_for}
use docker_claudebox.Team.Send.Requests.{Request, CarriedOut, run_post-CarriedOut}
use docker_claudebox.Team.Shell.{shell_words}
use docker_claudebox.Watch.Header.Delivery.{IsAddressed}
use docker_claudebox.Watch.Header.{
  parse_header, surfaces_for_agent, format_header, header_line, check_recipients, is_token,
}
use docker_claudebox.Base.{
  Bool, List, Option, Text, [], after_prefix, all, any, contains, drop_run, is_digit, is_letter,
  is_name_char, is_space, join_with, none, ok, read_number, refl, some, split_on, starts_with, text,
  text_eq, trim, trim_end, trim_start, true, ℕ, ◌++◌, ◌↔◌, ◌∷◌, ◌≡◌, ◌≢◌,
}

abbrev pair : Roster
pair = record {
  agents =
      record { name = text "Bear"; role = none; environment = none }
      ∷ record { name = text "Arfy"; role = none; environment = none }
      ∷ [];
  team = none;
  human = some (text "Alan");
  github_repo = none;
}

abbrev closing_args : List Text
closing_args =
    text "--to" ∷ text "Arfy" ∷ text "--issue=42" ∷ text "--close" ∷ text "--repo" ∷ text "o/r" ∷ []

abbrev answer : Text → Option ℕ
answer s = some (read_number s)

abbrev has_letter : Text → Bool
has_letter s = any is_letter s

abbrev closing_plan : PostPlan
closing_plan = send (comment_on 42 true) (text "o/r") (text "Bear->Arfy: done\n")

closing_is_planned :
    plan_post answer has_letter closing_args (text "Bear") pair (text "done") ≡ ok closing_plan
unfolding plan_post parse_post_args post_word check_flags read_issue known_names
    check_recipients_known check_body compose_text choose_repo is_repo is_repo_char format_header
    header_line check_recipients is_token is_name_char is_letter is_digit split_on starts_with trim
    trim_start trim_end drop_run is_space join_with after_prefix read_number
closing_is_planned = refl

plan_post-IsPlanned_example :
    (f : PostFlags) × (n : Option ℕ) × (parse_post_args closing_args no_flags ≡ ok f)
    × (read_issue answer has_letter f.issue ≡ ok n)
    × Fits f n closing_plan
    × (all (contains (known_names pair)) (recipients_of_flag f.to) ≡ true)
    × ((agent : Text)
        → (surfaces_for_agent (parse_header (message_of closing_plan)) agent ≡ true)
          ↔ ((text "Bear" ≢ agent) × IsAddressed (recipients_of_flag f.to) agent))
plan_post-IsPlanned_example =
    plan_post-IsPlanned answer has_letter closing_args (text "Bear") pair (text "done") closing_plan
      closing_is_planned

abbrev empty_desk : Desk
empty_desk = record { files = []; log = []; signals = []; removed = [] }

run_post-CarriedOut_example :
    (new : List Request) × ((run_post desk_files desk_shell []
        (text "/h")
        answer
        has_letter
        closing_args
        (text "Bear")
        pair
        (text "done")
        empty_desk).1.log
      ≡ [] ++ new)
    × CarriedOut
        (plan_post answer has_letter closing_args (text "Bear") pair (text "done"))
        (temp_path desk_files desk_shell [] (text "/h") empty_desk)
        (run_post desk_files desk_shell []
          (text "/h")
          answer
          has_letter
          closing_args
          (text "Bear")
          pair
          (text "done")
          empty_desk).0
        new
run_post-CarriedOut_example =
    run_post-CarriedOut desk_files desk_shell (λ w. w.log) desk-IsLogged [] (text "/h") answer
      has_letter closing_args (text "Bear") pair (text "done") empty_desk

request_command-words_example :
    shell_words (request_command (create_issue (text "it's; rm")) (text "o/r") (text "/tmp/a b"))
    ≡ some (words_for (create_issue (text "it's; rm")) (text "o/r") (text "/tmp/a b"))
request_command-words_example =
    request_command-words (create_issue (text "it's; rm")) (text "o/r") (text "/tmp/a b")
