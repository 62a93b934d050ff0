-- ===== src/Team/Send.antt =====
-- cli/commands/TeamCommand.ts, runPost: the requests that carry a plan out.
pub mod Commands
pub mod Requests
use docker_claudebox.Files.{FileSystem, Outcome, ◌>>->◌, Done}
use docker_claudebox.Config.Machine.{xdg_root}
use docker_claudebox.Team.Post.{
  PostPlan, compose, show_only, send, PostError, SendTarget, comment_on, create_issue, plan_post,
}
use docker_claudebox.Team.Roster.{Roster}
use docker_claudebox.Team.Shell.{shell_quote}
use docker_claudebox.Base.{
  Bool, Dict, List, Option, Result, Text, err, if◌then◌else◌, nat_beq, not, ok, show_number, text,
  trim, ℕ, ◌++◌,
}

unfoldable pub comment_command : ℕ → Text → Text → Text
comment_command n repo path =
    text "gh issue comment "
    ++ (show_number n
        ++ (text " --repo " ++ (shell_quote repo ++ (text " --body-file " ++ shell_quote path))))

unfoldable pub create_command : Text → Text → Text → Text
create_command title repo path =
    text "gh issue create --repo "
    ++ (shell_quote repo
        ++ (text " --title " ++ (shell_quote title ++ (text " --body-file " ++ shell_quote path))))

unfoldable pub close_command : ℕ → Text → Text
close_command n repo =
    text "gh issue close " ++ (show_number n ++ (text " --repo " ++ shell_quote repo))

unfoldable pub request_command : SendTarget → Text → Text → Text
unfolding comment_command create_command
request_command (comment_on n close) repo path = comment_command n repo path
request_command (create_issue title) repo path = create_command title repo path

-- How a post has ended.
pub data PostOutcome : Type 0 where
  refused : PostError → PostOutcome
  composed : Text → PostOutcome
  shown : Text → PostOutcome
  not_staged : Text → PostOutcome
  request_failed : ℕ → PostOutcome
  posted : SendTarget → Text → PostOutcome
  close_failed : ℕ → PostOutcome
  closed : ℕ → Text → PostOutcome

unfoldable pub post_rc : PostOutcome → ℕ
post_rc (refused e) = 1
post_rc (composed message) = 0
post_rc (shown message) = 0
post_rc (not_staged reason) = 1
post_rc (request_failed rc) = rc
post_rc (posted target url) = 0
post_rc (close_failed rc) = rc
post_rc (closed n url) = 0

-- The shell, the process and the clock.
pub record Shell (W : Type 0) : Type 0 where
  pub run_capture : Text → W → (ℕ × Text) × W
  pub pid : ℕ
  pub now_ms : W → ℕ

module _ {W : Type 0} (fs : FileSystem W) (sh : Shell W) (env : Dict Text) (home : Text) where
  -- `--close` is a second request, after the comment has been posted.
  abbrev pub close_issue : ℕ → Text → Text → (ℕ × Text) × W → PostOutcome × W
  close_issue n repo url ((rc, out), w) =
      if not (nat_beq rc 0) then (close_failed rc, w) else (closed n url, w)

  abbrev pub after_target : SendTarget → Text → Text → W → PostOutcome × W
  after_target (create_issue title) repo url w = (posted (create_issue title) url, w)
  after_target (comment_on n close) repo url w =
      if close
      then close_issue n repo url (sh.run_capture (close_command n repo) w)
      else (posted (comment_on n close) url, w)

  abbrev pub after_request : SendTarget → Text → (ℕ × Text) × W → PostOutcome × W
  after_request target repo ((rc, out), w) =
      if not (nat_beq rc 0) then (request_failed rc, w) else after_target target repo (trim out) w

  -- The `finally` clause: the staged file goes, whether or not that succeeds.
  abbrev pub cleaned : Text → PostOutcome × W → PostOutcome × W
  cleaned path (outcome, w) = (outcome, (fs.remove_file path w).1)

  abbrev pub staged : SendTarget → Text → Text → Outcome Done W → PostOutcome × W
  staged target repo path (err reason, w) = (not_staged reason, w)
  staged target repo path (ok _, w) =
      cleaned path (after_request target repo (sh.run_capture (request_command target repo path) w))

  unfoldable pub stage_dir : W → Text
  stage_dir w = xdg_root fs env home w ++ text "/dridock"

  unfoldable pub temp_path : W → Text
  unfolding stage_dir
  temp_path w =
      stage_dir w
      ++ (text "/pending-post-"
          ++ (show_number sh.pid ++ (text "-" ++ (show_number (sh.now_ms w) ++ text ".md"))))

  unfoldable pub send_post : SendTarget → Text → Text → W → PostOutcome × W
  unfolding temp_path request_command close_command
  send_post target repo message w =
      staged target repo (temp_path w)
        (fs.mkdir_recursive (stage_dir w) w >>-> λ _ w₁. fs.write_text (temp_path w) message w₁)

  abbrev pub carry_out : Result PostError PostPlan → W → PostOutcome × W
  carry_out (err e) w = (refused e, w)
  carry_out (ok (compose message)) w = (composed message, w)
  carry_out (ok (show_only target repo message)) w = (shown message, w)
  carry_out (ok (send target repo message)) w = send_post target repo message w

  unfoldable pub run_post :
      (Text → Option ℕ) → (Text → Bool) → List Text → Text → Roster → Text → W → PostOutcome × W
  unfolding send_post plan_post
  run_post positive_integer has_alphanumeric args self roster body w =
      carry_out (plan_post positive_integer has_alphanumeric args self roster body) w
