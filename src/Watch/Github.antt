-- ===== src/Watch/Github.antt =====
-- services/GithubWatchSource.ts: one poll of a repository's comments and issues.
pub mod Order
pub mod Sorted
use docker_claudebox.Watch.Event.{WatcherEvent, github, comment, event_hash_of}
use docker_claudebox.Watch.Header.{parse_header, first_line_of}
use docker_claudebox.Watch.Loop.{PollOutcome, polled_ok, polled_badly}
use docker_claudebox.Files.{Outcome}
use docker_claudebox.Team.Send.{Shell}
use docker_claudebox.Base.{
  Bool, List, Option, Result, Text, [], after_prefix, all, err, if◌then◌else◌, is_digit, length,
  ltb, nat_beq, none, not, ok, read_number, show_number, some, split_on, take, text, text_eq, trim,
  ℕ, ◌&&◌, ◌++◌, ◌+◌, ◌-◌, ◌==◌, ◌>>=◌, ◌>>◌, ◌∷◌,
}

-- The fields of a line of JSON that have their type.
pub record CommentRaw : Type 0 where
  pub id : Option ℕ
  pub body : Option Text
  pub issue_url : Option Text
  pub created_at : Option Text
  pub updated_at : Option Text

pub record IssueRaw : Type 0 where
  pub number : Option ℕ
  pub body : Option Text
  pub created_at : Option Text
  pub updated_at : Option Text

-- JSON, where a line may be malformed or `null`, the URI encoding, the order of `localeCompare` (not greater), dates in milliseconds, and
-- `Bun.hash`, which may be absent.
pub record Runtime : Type 0 where
  pub parse_comment : Text → Option (Option CommentRaw)
  pub parse_issue : Text → Option (Option IssueRaw)
  pub encode_uri_component : Text → Text
  pub not_greater : Text → Text → Bool
  pub parse_date : Text → Option ℕ
  pub to_iso : ℕ → Text
  pub bun_hash : Option (Text → ℕ)

-- The text behind each occurrence of the pattern, tried for digits up to the end.
abbrev pub digits_only : Option Text → Option Text
digits_only none = none
digits_only (some s) = if all is_digit s && not (s == []) then some s else none

abbrev first_digits : Option Text → Option Text → Option Text
first_digits (some s) later = some s
first_digits none later = later

-- `/\/issues\/(\d+)$/`
unfoldable pub issue_digits : Text → Option Text
issue_digits [] = none
issue_digits (c ∷ s) =
    first_digits (digits_only (after_prefix (text "/issues/") (c ∷ s))) (issue_digits s)

abbrev positive : Option Text → Option ℕ
positive none = none
positive (some s) = if ltb 0 (read_number s) then some (read_number s) else none

unfoldable pub issue_number_from_url : Text → Option ℕ
unfolding issue_digits
issue_number_from_url url = positive (issue_digits url)

-- 0x2026 is the ellipsis.
unfoldable pub first_line_truncated : Text → ℕ → Text
first_line_truncated body max =
    let line = first_line_of body in
    if ltb max (length line) then take (max - 1) line ++ (0x2026 ∷ []) else line

abbrev first_of : Option Text → Option Text → Text → Text
first_of (some v) second last = v
first_of none (some v) last = v
first_of none none last = last

abbrev or_zero : Option ℕ → ℕ
or_zero none = 0
or_zero (some n) = n

module _ (runtime : Runtime) (repo : Text) where
  unfoldable pub build_event : Text → Text → Text → WatcherEvent
  unfolding first_line_truncated
  build_event ref body observed_at = record {
    source = github;
    kind = comment;
    ref = ref;
    header = parse_header body;
    summary = first_line_truncated body 200;
    event_hash = event_hash_of runtime.bun_hash github ref comment body;
    cursor = observed_at;
    observed_at = observed_at;
  }

  -- A comment with a body and the number of its issue.
  abbrev pub comment_event : Text → CommentRaw → Option Text → Option ℕ → List WatcherEvent
  comment_event since raw none n = []
  comment_event since raw (some body) none = []
  comment_event since raw (some body) (some n) =
      let ref =
        text "github:#" ++ (show_number n ++ (text "#comment-" ++ show_number (or_zero raw.id))) in
      build_event ref body (first_of raw.updated_at raw.created_at since) ∷ []

  abbrev pub number_of : Option Text → Option ℕ
  number_of none = none
  number_of (some url) = issue_number_from_url url

  -- A malformed line is passed over; to read a field of `null` throws.
  abbrev pub comment_of : Text → Option (Option CommentRaw) → Result Text (List WatcherEvent)
  comment_of since none = ok []
  comment_of since (some none) = err (text "null is not an object")
  comment_of since (some (some raw)) =
      ok (comment_event since raw raw.body (number_of raw.issue_url))

  abbrev pub comment_line : Text → Text → Result Text (List WatcherEvent)
  comment_line since line =
      if trim line == [] then ok [] else comment_of since (runtime.parse_comment line)

  unfoldable pub comment_events : Text → List Text → Result Text (List WatcherEvent)
  unfolding build_event issue_number_from_url
  comment_events since [] = ok []
  comment_events since (line ∷ lines) = do
    es ← comment_line since line
    rest ← comment_events since lines
    ok (es ++ rest)

  abbrev pub body_or_empty : Option Text → Text
  body_or_empty none = []
  body_or_empty (some body) = body

  abbrev pub issue_event : Text → IssueRaw → Option ℕ → List WatcherEvent
  issue_event since raw none = []
  issue_event since raw (some n) =
      let ref = text "github:#" ++ (show_number n ++ text "#body") in
      build_event ref (body_or_empty raw.body) (first_of raw.updated_at raw.created_at since) ∷ []

  abbrev pub issue_of : Text → Option (Option IssueRaw) → Result Text (List WatcherEvent)
  issue_of since none = ok []
  issue_of since (some none) = err (text "null is not an object")
  issue_of since (some (some raw)) = ok (issue_event since raw raw.number)

  abbrev pub issue_line : Text → Text → Result Text (List WatcherEvent)
  issue_line since line =
      if trim line == [] then ok [] else issue_of since (runtime.parse_issue line)

  unfoldable pub issue_events : Text → List Text → Result Text (List WatcherEvent)
  unfolding build_event
  issue_events since [] = ok []
  issue_events since (line ∷ lines) = do
    es ← issue_line since line
    rest ← issue_events since lines
    ok (es ++ rest)

  -- `sort` by `observedAt`, which is stable.
  unfoldable pub insert_event : WatcherEvent → List WatcherEvent → List WatcherEvent
  insert_event e [] = e ∷ []
  insert_event e (d ∷ es) =
      let later = insert_event e es in
      if runtime.not_greater e.observed_at d.observed_at then e ∷ (d ∷ es) else d ∷ later

  unfoldable pub sort_events : List WatcherEvent → List WatcherEvent
  unfolding insert_event
  sort_events [] = []
  sort_events (e ∷ es) = insert_event e (sort_events es)

  abbrev pub latest_of : Text → List WatcherEvent → Text
  latest_of since [] = since
  latest_of since (e ∷ es) = latest_of e.observed_at es

  abbrev pub bumped : Text → Option ℕ → Text
  bumped iso none = iso
  bumped iso (some t) = runtime.to_iso (t + 1)

  unfoldable pub bump_iso_1ms : Text → Text
  bump_iso_1ms iso = bumped iso (runtime.parse_date iso)

  unfoldable pub comments_command : Text → Text
  comments_command since =
      text "gh api \"repos/"
      ++ (repo
          ++ (text "/issues/comments?since="
              ++ (runtime.encode_uri_component since
                  ++ text "&sort=created&direction=asc\" --paginate 2>/dev/null | jq -c '.[]?'")))

  unfoldable pub issues_command : Text → Text
  issues_command since =
      text "gh api \"repos/"
      ++ (repo
          ++ (text "/issues?since="
              ++ (runtime.encode_uri_component since
                  ++ (text "&state=all&sort=created&direction=asc\" --paginate 2>/dev/null"
                      ++ text " | jq -c '.[]? | select(.pull_request == null)'"))))

  module _ {W : Type 0} (sh : Shell W) (now_iso : W → Text) where
    -- Both answers are there: the events in order, and the cursor behind the last of them.
    unfoldable pub collect_events : Text → List WatcherEvent → List WatcherEvent → PollOutcome
    unfolding sort_events bump_iso_1ms
    collect_events since comments issues =
        let events = sort_events (comments ++ issues) in
        polled_ok events (bump_iso_1ms (latest_of since events))

    abbrev pub with_issues :
        Text → List WatcherEvent → Result Text (List WatcherEvent) → W → Outcome PollOutcome W
    with_issues since comments (err message) w = (err message, w)
    with_issues since comments (ok issues) w = (ok (collect_events since comments issues), w)

    abbrev pub after_issues : Text → List WatcherEvent → (ℕ × Text) × W → Outcome PollOutcome W
    after_issues since comments ((rc, out), w) =
        if not (nat_beq rc 0)
        then (ok (polled_badly (text "gh api issues rc=" ++ show_number rc)), w)
        else with_issues since comments (issue_events since (split_on 10 out)) w

    -- The issues are asked for once the comments are read.
    abbrev pub with_comments : Text → Result Text (List WatcherEvent) → W → Outcome PollOutcome W
    with_comments since (err message) w = (err message, w)
    with_comments since (ok comments) w =
        after_issues since comments (sh.run_capture (issues_command since) w)

    abbrev pub after_comments : Text → (ℕ × Text) × W → Outcome PollOutcome W
    after_comments since ((rc, out), w) =
        if not (nat_beq rc 0)
        then (ok (polled_badly (text "gh api comments rc=" ++ show_number rc)), w)
        else with_comments since (comment_events since (split_on 10 out)) w

    -- The first poll starts from now.
    unfoldable pub poll_github : Text → W → Outcome PollOutcome W
    unfolding comment_events issue_events collect_events comments_command issues_command
    poll_github from_cursor w =
        let since = if from_cursor == [] then now_iso w else from_cursor in
        after_comments since (sh.run_capture (comments_command since) w)
