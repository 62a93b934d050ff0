-- ===== src/Watch/Github/Order.antt =====
-- What a poll that succeeded has seen and reports.
use mathlib.Core.List.{Perm}
use docker_claudebox.Watch.Event.{WatcherEvent}
use docker_claudebox.Watch.Github.{
  Runtime, comment_line, issue_line, latest_of, comments_command, issues_command,
}
use docker_claudebox.Watch.Github.Sorted.{IsOrder, AllBefore, IsSorted, latest_of-AllBefore}
use docker_claudebox.Team.Send.{Shell}
use docker_claudebox.Base.{
  List, Result, Text, [], inl, inr, none, ok, refl, some, split_on, sym, text_eq, ℕ, ◌++◌, ◌+◌, ◌∷◌,
  ◌≡◌, ◌⊎◌,
}

-- `Gathered of lines es`: `es` are what the lines give, all of them in their order.
pub data Gathered (of : Text → Result Text (List WatcherEvent))
    : List Text → List WatcherEvent → Type 0 where
  no_line : Gathered of [] []
  a_line :
      {l : Text} {ls : List Text} {es rest : List WatcherEvent}
      → of l ≡ ok es
      → Gathered of ls rest
      → Gathered of (l ∷ ls) (es ++ rest)

-- One millisecond behind a time, or that text itself when it is no date.
abbrev pub IsBumped : Runtime → Text → Text → Type 0
IsBumped runtime latest cursor =
    ((t : ℕ) × (runtime.parse_date latest ≡ some t) × (cursor ≡ runtime.to_iso (t + 1)))
    ⊎ ((runtime.parse_date latest ≡ none) × (cursor ≡ latest))

-- One of the events has this time.
abbrev pub IsTimeOf : Text → List WatcherEvent → Type 0
IsTimeOf t [] = ⊥
IsTimeOf t (e ∷ es) = (e.observed_at ≡ t) ⊎ IsTimeOf t es

-- The time of the last event, or the old cursor when there is none.
abbrev pub IsLatest : Runtime → Text → Text → List WatcherEvent → Type 0
IsLatest runtime since latest [] = latest ≡ since
IsLatest runtime since latest (e ∷ es) =
    AllBefore runtime latest (e ∷ es) × IsTimeOf latest (e ∷ es)

-- What a poll that succeeded has seen: the answers of both requests, and their events.
pub record Polled {W : Type 0} (runtime : Runtime) (repo : Text) (sh : Shell W) (since : Text)
    (events : List WatcherEvent) (cursor : Text) (w w₂ : W) : Type 0 where
  pub comments : Text
  pub issues : Text
  pub between : W
  pub first : sh.run_capture (comments_command runtime repo since) w ≡ ((0, comments), between)
  pub second : sh.run_capture (issues_command runtime repo since) between ≡ ((0, issues), w₂)
  pub of_comments : List WatcherEvent
  pub of_issues : List WatcherEvent
  pub comments_read : Gathered (comment_line runtime repo since) (split_on 10 comments) of_comments
  pub issues_read : Gathered (issue_line runtime repo since) (split_on 10 issues) of_issues
  pub all_events : Perm events (of_comments ++ of_issues)
  pub in_order : IsSorted runtime events
  pub latest : Text
  pub is_latest : IsLatest runtime since latest events
  pub behind : IsBumped runtime latest cursor

module _ (runtime : Runtime) (repo since : Text) where
  latest_of_cases :
      (t : Text) (es : List WatcherEvent)
      → (latest_of runtime repo t es ≡ t) ⊎ IsTimeOf (latest_of runtime repo t es) es
  latest_of_cases t [] = inl refl
  latest_of_cases t (d ∷ ds) = elim (latest_of_cases d.observed_at ds) [
    | inl own ↦ inr (inl (sym own))
    | inr later ↦ inr (inr later)
  ]

  latest_of-IsTimeOf :
      (e : WatcherEvent) (es : List WatcherEvent)
      → IsTimeOf (latest_of runtime repo since (e ∷ es)) (e ∷ es)
  latest_of-IsTimeOf e es = elim (latest_of_cases e.observed_at es) [
    | inl own ↦ inl (sym own)
    | inr later ↦ inr later
  ]

module _ {W : Type 0} (runtime : Runtime) (order : IsOrder runtime) (repo : Text) (sh : Shell W)
    (now_iso : W → Text) (since cursor : Text) (events : List WatcherEvent) (w w₂ : W) where
  is_latest :
      (es : List WatcherEvent)
      → IsSorted runtime es
      → IsLatest runtime since (latest_of runtime repo since es) es
  is_latest [] h = refl
  is_latest (e ∷ es) h = (
    latest_of-AllBefore runtime order repo since (e ∷ es) h,
    latest_of-IsTimeOf runtime repo since e es,
  )
