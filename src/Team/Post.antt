-- ===== src/Team/Post.antt =====
-- cli/commands/TeamCommand.ts, runPost: what is to be posted, from the arguments and the body.
pub mod Planned
use docker_claudebox.Watch.Header.{HeaderError, format_header}
use docker_claudebox.Team.Roster.{Agent, Roster}
use docker_claudebox.Config.Yaml.{ends_with}
use docker_claudebox.Base.{
  Bool, List, Option, Result, Text, [], after_prefix, all, contains, err, false, if◌then◌else◌,
  is_name_char, map, nat_beq, none, not, ok, some, split_on, starts_with, take, text, text_eq, trim,
  trim_start, true, ℕ, ◌&&◌, ◌++◌, ◌==◌, ◌>>=◌, ◌>>◌, ◌||◌, ◌∷◌,
}

pub record PostFlags : Type 0 where
  pub to : Option Text
  pub issue : Option Text
  pub repo : Option Text
  pub title : Option Text
  pub close : Bool
  pub is_new : Bool
  pub dry_run : Bool

abbrev pub no_flags : PostFlags
no_flags = record {
  to = none;
  issue = none;
  repo = none;
  title = none;
  close = false;
  is_new = false;
  dry_run = false;
}

-- The refusals, in the order of the code.
pub data PostError : Type 0 where
  unexpected_argument : Text → PostError
  bad_issue : Text → PostError
  dry_run_without_target : PostError
  repo_without_target : PostError
  new_with_issue : PostError
  new_with_close : PostError
  close_without_issue : PostError
  new_without_title : PostError
  title_without_new : PostError
  not_in_roster : Text → PostError
  bad_header : HeaderError → PostError
  empty_body : PostError
  meaningless_body : Text → PostError
  no_repo : PostError
  invalid_repo : Text → PostError

-- A comment on an issue, which may close it, or a new issue.
pub data SendTarget : Type 0 where
  comment_on : ℕ → Bool → SendTarget
  create_issue : Text → SendTarget

pub data PostPlan : Type 0 where
  compose : Text → PostPlan
  show_only : SendTarget → Text → Text → PostPlan
  send : SendTarget → Text → Text → PostPlan

pub data Field : Type 0 where
  to_field issue_field repo_field title_field : Field

abbrev pub set_field : Field → Option Text → PostFlags → PostFlags
set_field to_field v f = record f { to = v }
set_field issue_field v f = record f { issue = v }
set_field repo_field v f = record f { repo = v }
set_field title_field v f = record f { title = v }

-- An argument: a flag whose value follows, a flag with its value, a switch, or none of these.
pub data PostWord : Type 0 where
  wants : Field → PostWord
  gives : Field → Text → PostWord
  switches : (PostFlags → PostFlags) → PostWord
  unexpected : PostWord

abbrev pub given_or : Field → Option Text → PostWord → PostWord
given_or field (some v) later = gives field v
given_or field none later = later

unfoldable pub post_word : Text → PostWord
post_word a =
    if a == text "--to"
    then wants to_field
    else given_or to_field (after_prefix (text "--to=") a) (
        if a == text "--issue"
        then wants issue_field
        else given_or issue_field (after_prefix (text "--issue=") a) (
            if a == text "--repo"
            then wants repo_field
            else given_or repo_field (after_prefix (text "--repo=") a) (
                if a == text "--dry-run"
                then switches (λ f. record f { dry_run = true })
                else if a == text "--close"
                then switches (λ f. record f { close = true })
                else if a == text "--new"
                then switches (λ f. record f { is_new = true })
                else if a == text "--title"
                then wants title_field
                else given_or title_field (after_prefix (text "--title=") a) unexpected)))

-- A flag that stands last has no value, and takes away the one it had.
abbrev pub last_word : PostWord → Text → PostFlags → Result PostError PostFlags
last_word (wants field) a f = ok (set_field field none f)
last_word (gives field v) a f = ok (set_field field (some v) f)
last_word (switches g) a f = ok (g f)
last_word unexpected a f = err (unexpected_argument a)

unfoldable pub parse_post_args : List Text → PostFlags → Result PostError PostFlags
unfolding post_word
parse_post_args [] f = ok f
parse_post_args (a ∷ []) f = last_word (post_word a) a f
parse_post_args (a ∷ (v ∷ rest)) f = elim (post_word a) [
  | wants field ↦ parse_post_args rest (set_field field (some v) f)
  | gives field w ↦ parse_post_args (v ∷ rest) (set_field field (some w) f)
  | switches g ↦ parse_post_args (v ∷ rest) (g f)
  | unexpected ↦ err (unexpected_argument a)
]

abbrev pub is_given : {A : Type 0} → Option A → Bool
is_given none = false
is_given (some _) = true

abbrev pub is_blank : Option Text → Bool
is_blank none = true
is_blank (some v) = trim v == []

-- The combinations of flags that are refused.
unfoldable pub check_flags : PostFlags → Option ℕ → Result PostError Unit
check_flags f n =
    if f.dry_run && (not (is_given n) && not f.is_new)
    then err dry_run_without_target
    else if is_given f.repo && (not (is_given n) && not f.is_new)
    then err repo_without_target
    else if f.is_new && is_given n
    then err new_with_issue
    else if f.is_new && f.close
    then err new_with_close
    else if f.close && not (is_given n)
    then err close_without_issue
    else if f.is_new && is_blank f.title
    then err new_without_title
    else if is_given f.title && not f.is_new
    then err title_without_new
    else ok tt

abbrev pub recipients_of_flag : Option Text → List Text
recipients_of_flag none = []
recipients_of_flag (some raw) = if raw == [] then [] else map trim (split_on b',' raw)

abbrev pub with_human : Option Text → List Text → List Text
with_human none names = names
with_human (some human) names = names ++ (human ∷ [])

unfoldable pub known_names : Roster → List Text
known_names roster = with_human roster.human (map (λ (a : Agent). a.name) roster.agents)

unfoldable pub check_recipients_known : List Text → List Text → Result PostError Unit
check_recipients_known known [] = ok tt
check_recipients_known known (r ∷ rs) =
    let rest = check_recipients_known known rs in
    if contains known r then rest else err (not_in_roster r)

abbrev pub headed : Result HeaderError Text → Result PostError Text
headed (err e) = err (bad_header e)
headed (ok header) = ok header

-- One space after the header, and a line feed at the end.
unfoldable pub compose_text : Text → Text → Text
compose_text header body =
    let composed =
      header ++ (text " " ++ (if starts_with (text "\n") body then trim_start body else body)) in
    if ends_with 10 composed then composed else composed ++ text "\n"

unfoldable pub is_repo_char : ℕ → Bool
is_repo_char c = is_name_char c || nat_beq c b'.'

abbrev pub is_repo_part : Text → Bool
is_repo_part [] = false
is_repo_part (c ∷ s) = is_repo_char c && all is_repo_char s

abbrev pub are_owner_and_name : List Text → Bool
are_owner_and_name (owner ∷ (name ∷ [])) = is_repo_part owner && is_repo_part name
are_owner_and_name _ = false

-- `/^[\w.-]+\/[\w.-]+$/`
unfoldable pub is_repo : Text → Bool
unfolding is_repo_char
is_repo s = are_owner_and_name (split_on b'/' s)

abbrev pub checked_repo : Option Text → Result PostError Text
checked_repo none = err no_repo
checked_repo (some repo) =
    if repo == [] then err no_repo else if is_repo repo then ok repo else err (invalid_repo repo)

abbrev pub or_roster : Option Text → Option Text → Option Text
or_roster (some repo) fallback = some repo
or_roster none fallback = fallback

unfoldable pub choose_repo : PostFlags → Roster → Result PostError Text
unfolding is_repo
choose_repo f roster = checked_repo (or_roster f.repo roster.github_repo)

abbrev pub text_of : Option Text → Text
text_of none = []
text_of (some v) = v

-- `Number(s)` where it is a positive integer, and the test for `\p{L}` or `\p{N}`.
module _ (positive_integer : Text → Option ℕ) (has_alphanumeric : Text → Bool) where
  abbrev pub read_issue_in : Text → Option ℕ → Result PostError (Option ℕ)
  read_issue_in raw none = err (bad_issue raw)
  read_issue_in raw (some n) = ok (some n)

  unfoldable pub read_issue : Option Text → Result PostError (Option ℕ)
  read_issue none = ok none
  read_issue (some raw) = read_issue_in raw (positive_integer raw)

  unfoldable pub check_body : Text → Result PostError Unit
  check_body body =
      if trim body == []
      then err empty_body
      else if not (has_alphanumeric (trim body))
      then err (meaningless_body (take 40 (trim body)))
      else ok tt

  -- A new issue is checked to have no number.
  abbrev pub target_of : PostFlags → Option ℕ → Option SendTarget
  target_of f none = if f.is_new then some (create_issue (text_of f.title)) else none
  target_of f (some n) = some (comment_on n f.close)

  abbrev pub plan_for : PostFlags → Roster → Text → Option SendTarget → Result PostError PostPlan
  plan_for f roster message none = ok (compose message)
  plan_for f roster message (some target) = do
    repo ← choose_repo f roster
    ok (if f.dry_run then show_only target repo message else send target repo message)

  unfoldable pub plan_post : List Text → Text → Roster → Text → Result PostError PostPlan
  unfolding parse_post_args read_issue check_flags known_names check_recipients_known check_body
      compose_text choose_repo
  plan_post args self roster body = do
    f ← parse_post_args args no_flags
    n ← read_issue f.issue
    check_flags f n
    let recipients = recipients_of_flag f.to
    check_recipients_known (known_names roster) recipients
    header ← headed (format_header self recipients)
    check_body body
    plan_for f roster (compose_text header body) (target_of f n)
