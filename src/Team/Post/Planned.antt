-- ===== src/Team/Post/Planned.antt =====
-- The plans of runPost: their messages, recipients and flags.
use mathlib.Core.List.{append_assoc}
use docker_claudebox.Watch.Header.{format_header, parse_header, surfaces_for_agent}
use docker_claudebox.Watch.Header.Delivery.{IsAddressed, post-surfaces_iff}
use docker_claudebox.Config.Yaml.{ends_with}
use docker_claudebox.Team.Roster.{Roster}
use docker_claudebox.Team.Post.{
  PostFlags, no_flags, SendTarget, comment_on, create_issue, PostPlan, compose, show_only, send,
  parse_post_args, check_flags, read_issue, recipients_of_flag, known_names, check_recipients_known,
  headed, check_body, compose_text, is_repo, choose_repo, checked_repo, target_of, plan_for,
  plan_post, is_given, is_blank, text_of,
}
use docker_claudebox.Base.{
  >>=-eq-ok, Bool, Bool-cases, List, Option, Result-cases, Text, [], all, arith, contains, eq_iff,
  false, if◌then◌else◌, inl, inr, none, ok, ok_injective, refl, some, starts_with, sym, text,
  text_eq, trim, trim_start, true, ℕ, ◌++◌, ◌==◌, ◌↔◌, ◌∷◌, ◌≡◌, ◌≢◌,
}

abbrev pub message_of : PostPlan → Text
message_of (compose message) = message
message_of (show_only target repo message) = message
message_of (send target repo message) = message

compose_text-headed :
    (header body : Text) → (rest : Text) × (compose_text header body ≡ header ++ rest)
unfolding compose_text
compose_text-headed header body =
    let tail = text " " ++ (if starts_with (text "\n") body then trim_start body else body) in
    elim (Bool-cases (ends_with 10 (header ++ tail))) [
      | inl ended ↦ (tail, rw ended refl)
      | inr open_end ↦ (tail ++ text "\n", rw open_end (append_assoc header tail (text "\n")))
    ]

check_recipients_known-ok :
    (known rs : List Text) {u : Unit {0}}
    → check_recipients_known known rs ≡ ok u
    → all (contains known) rs ≡ true
unfolding check_recipients_known
check_recipients_known-ok known [] h = refl
check_recipients_known-ok known (r ∷ rs) h = ground (arith, check_recipients_known-ok known rs, h)

headed-ok :
    (sender : Text) (rs : List Text) (line : Text)
    → headed (format_header sender rs) ≡ ok line
    → format_header sender rs ≡ ok line
headed-ok sender rs line h = elim (Result-cases (format_header sender rs)) [
  | inl (e, thrown) ↦ cc (h, thrown)
  | inr (line₁, made) ↦ cc (h, made)
]

-- The issue's number and the flags that a target goes with.
abbrev pub TargetFits : PostFlags → Option ℕ → SendTarget → Type 0
TargetFits f n (comment_on k close) =
    (n ≡ some k) × (f.is_new ≡ false) × (close ≡ f.close) × (f.title ≡ none)
TargetFits f n (create_issue title) =
    (n ≡ none) × (f.is_new ≡ true) × (f.close ≡ false) × (f.title ≡ some title) × (trim title ≢ [])

abbrev pub Fits : PostFlags → Option ℕ → PostPlan → Type 0
Fits f n (compose message) =
    (n ≡ none)
    × (f.is_new ≡ false)
    × (f.dry_run ≡ false)
    × (f.close ≡ false)
    × (f.repo ≡ none)
    × (f.title ≡ none)
Fits f n (show_only target repo message) =
    (f.dry_run ≡ true) × (TargetFits f n target) × (is_repo repo ≡ true)
Fits f n (send target repo message) =
    (f.dry_run ≡ false) × (TargetFits f n target) × (is_repo repo ≡ true)

given_none : {A : Type 0} (o : Option A) → is_given o ≡ false → o ≡ none
given_none none h = refl
given_none (some v) h = cc h

blank_title :
    (o : Option Text) → is_blank o ≡ false → (o ≡ some (text_of o)) × (trim (text_of o) ≢ [])
blank_title none h = cc h
blank_title (some v) h = (refl, λ e. ground (arith, h, eq_iff (trim v) [], e))

compose_flags :
    (f : PostFlags) {u : Unit {0}}
    → check_flags f none ≡ ok u
    → f.is_new ≡ false
    → (f.dry_run ≡ false)
      × (f.close ≡ false)
      × (is_given f.repo ≡ false)
      × (is_given f.title ≡ false)
unfolding check_flags
compose_flags f h new = ground (arith, h, new)

create_flags :
    (f : PostFlags) {u : Unit {0}}
    → check_flags f none ≡ ok u
    → f.is_new ≡ true
    → (f.close ≡ false) × (is_blank f.title ≡ false)
unfolding check_flags
create_flags f h new = ground (arith, h, new)

comment_flags :
    (f : PostFlags) (k : ℕ) {u : Unit {0}}
    → check_flags f (some k) ≡ ok u
    → (f.is_new ≡ false) × (is_given f.title ≡ false)
unfolding check_flags
comment_flags f k h = ground (arith, h)

checked_repo-ok : (o : Option Text) (repo : Text) → checked_repo o ≡ ok repo → is_repo repo ≡ true
checked_repo-ok none repo h = cc h
checked_repo-ok (some r) repo h = elim (Bool-cases (r == [])) [
  | inl empty ↦ cc (h, empty)
  | inr full ↦ elim (Bool-cases (is_repo r)) [
    | inl good ↦ let same : r ≡ repo = cc (h, full, good) in rw (sym same) good
    | inr bad ↦ cc (h, full, bad)
  ]
]

module _ (positive_integer : Text → Option ℕ) (has_alphanumeric : Text → Bool) where
  target_of-Fits :
      (f : PostFlags) (n : Option ℕ) {u : Unit {0}} (target : SendTarget)
      → check_flags f n ≡ ok u
      → target_of positive_integer has_alphanumeric f n ≡ some target
      → TargetFits f n target
  target_of-Fits f none target h e = elim (Bool-cases f.is_new) [
    | inl new ↦
        let made : create_issue (text_of f.title) ≡ target = cc (e, new) in
        let (open_still, titled) = create_flags f h new in
        let (title, full) = blank_title f.title titled in
        rw (sym made) (refl, new, open_still, title, full)
    | inr old ↦ cc (e, old)
  ]
  target_of-Fits f (some k) target h e =
      let made : comment_on k f.close ≡ target = cc e in
      let (old, untitled) = comment_flags f k h in
      rw (sym made) (refl, old, refl, given_none f.title untitled)

  no_target :
      (f : PostFlags) (n : Option ℕ) {u : Unit {0}}
      → check_flags f n ≡ ok u
      → target_of positive_integer has_alphanumeric f n ≡ none
      → (n ≡ none)
        × (f.is_new ≡ false)
        × (f.dry_run ≡ false)
        × (f.close ≡ false)
        × (f.repo ≡ none)
        × (f.title ≡ none)
  no_target f none h e = elim (Bool-cases f.is_new) [
    | inl new ↦ cc (e, new)
    | inr old ↦
        let (wet, open_still, same_repo, untitled) = compose_flags f h old in
        (refl, old, wet, open_still, given_none f.repo same_repo, given_none f.title untitled)
  ]
  no_target f (some k) h e = cc e

  -- A plan for a target: the message is the one given, and the plan fits the flags.
  plan_for-Fits :
      (f : PostFlags) (n : Option ℕ) (roster : Roster) (message : Text) {u : Unit {0}}
      (o : Option SendTarget) (plan : PostPlan)
      → check_flags f n ≡ ok u
      → target_of positive_integer has_alphanumeric f n ≡ o
      → plan_for positive_integer has_alphanumeric f roster message o ≡ ok plan
      → (message_of plan ≡ message) × Fits f n plan
  plan_for-Fits f n roster message none plan h e made =
      let same : compose message ≡ plan = ok_injective made in
      rw (sym same) (refl, no_target f n h e)
  plan_for-Fits f n roster message (some target) plan h e made =
      let (repo, chosen, last) = >>=-eq-ok (choose_repo f roster) _ made in
      let good : is_repo repo ≡ true = unfold choose_repo in checked_repo-ok _ repo chosen in
      elim (Bool-cases f.dry_run) [
        | inl dry ↦
            let same : show_only target repo message ≡ plan = cc (last, dry) in
            rw (sym same) (refl, (dry, target_of-Fits f n target h e, good))
        | inr wet ↦
            let same : send target repo message ≡ plan = cc (last, wet) in
            rw (sym same) (refl, (wet, target_of-Fits f n target h e, good))
      ]

-- What every plan of a post guarantees, whether it is printed, shown or sent. Its recipients are
-- those of the flag `--to`, and all of them are in the roster; the watcher surfaces its message for
-- exactly the agents other than the sender that are addressed by it. It is sent only when there was
-- no `--dry-run`, to a repository of the form `owner/name`; a comment goes to the given issue with
-- its `--close`, a new issue has a title that is not blank and is not closed; a composed text comes
-- with no flag that would go unheeded.
pub plan_post-IsPlanned :
    (positive_integer : Text → Option ℕ) (has_alphanumeric : Text → Bool) (args : List Text)
    (self : Text) (roster : Roster) (body : Text) (plan : PostPlan)
    → plan_post positive_integer has_alphanumeric args self roster body ≡ ok plan
    → (f : PostFlags) × (n : Option ℕ) × (parse_post_args args no_flags ≡ ok f)
      × (read_issue positive_integer has_alphanumeric f.issue ≡ ok n)
      × Fits f n plan
      × (all (contains (known_names roster)) (recipients_of_flag f.to) ≡ true)
      × ((agent : Text)
          → (surfaces_for_agent (parse_header (message_of plan)) agent ≡ true)
            ↔ ((self ≢ agent) × IsAddressed (recipients_of_flag f.to) agent))
unfolding plan_post
plan_post-IsPlanned pi ha args self roster body plan made =
    let (f, parsed, made₁) = >>=-eq-ok (parse_post_args args no_flags) _ made in
    let (n, read, made₂) = >>=-eq-ok (read_issue pi ha f.issue) _ made₁ in
    let (u, flags, made₃) = >>=-eq-ok (check_flags f n) _ made₂ in
    let rs = recipients_of_flag f.to in
    let (v, known, made₄) = >>=-eq-ok (check_recipients_known (known_names roster) rs) _ made₃ in
    let (header, headed_by, made₅) = >>=-eq-ok (headed (format_header self rs)) _ made₄ in
    let (x, checked, made₆) = >>=-eq-ok (check_body pi ha body) _ made₅ in
    let (rest, shape) = compose_text-headed header body in
    let (message, fits) =
      plan_for-Fits pi ha f n roster (compose_text header body) (target_of pi ha f n) plan flags
        refl made₆ in
    (
      f,
      n,
      parsed,
      read,
      fits,
      check_recipients_known-ok (known_names roster) rs known,
      λ agent.
          rw (message, shape)
            (post-surfaces_iff self rs header rest agent (headed-ok self rs header headed_by)),
    )
