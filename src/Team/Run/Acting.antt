-- ===== src/Team/Run/Acting.antt =====
-- The team command by its subcommands and outcomes.
use docker_claudebox.Files.{FileSystem, Outcome}
use docker_claudebox.Team.Dir.{run_dir}
use docker_claudebox.Team.Fetcher.{run_fetcher}
use docker_claudebox.Team.Roster.{
  Roster, RosterError, RosterResolve, from_env, from_single_agent, no_env_and_multi_agent,
  env_not_in_roster, names_of, resolve_self_name,
}
use docker_claudebox.Team.Roster.Resolve.{IsResolved, resolve_self_name-IsResolved}
use docker_claudebox.Team.Roster.Sound.{IsRoster, parse_roster-IsRoster}
use docker_claudebox.Team.Run.{
  SelfVerb, whoami, watch, fetcher, post, TeamVerb, show_roster, use_dir, as_self, TeamOutcome,
  team_usage, unknown_verb, verb_usage, roster_malformed, roster_absent, no_self, roster_shown,
  self_shown, dir_ended, watch_ended, watch_threw, fetcher_ended, post_ended, verb_of, is_help,
  TeamCommandDeps, roster_path, load_roster, watch_end, parsed, run_verb, as_agent, with_self,
  with_roster, run_team,
}
use docker_claudebox.Team.Send.{run_post}
use docker_claudebox.Team.Watching.{run_watch}
use docker_claudebox.Base.{
  All, Dict, List, Option, Result, Text, [], any, contains, eq_iff, eq_refl, err, false, if_intro,
  inl, inr, none, ok, refl, some, text, text_eq, true, ℕ, ◌==◌, ◌∷◌, ◌≡◌, ◌≢◌, ◌⊎◌,
}

abbrev pub name_of : TeamVerb → Text
name_of show_roster = text "roster"
name_of use_dir = text "dir"
name_of (as_self whoami) = text "whoami"
name_of (as_self watch) = text "watch"
name_of (as_self fetcher) = text "fetcher"
name_of (as_self post) = text "post"

abbrev pub team_verbs : List Text
team_verbs =
    text "whoami" ∷ text "roster" ∷ text "post" ∷ text "watch" ∷ text "fetcher" ∷ text "dir" ∷ []

-- The subcommand has this verb's name, or none of the six.
unfoldable Named : Text → Option TeamVerb → Type 0
Named sub none = All (λ n. sub ≢ n) team_verbs
Named sub (some verb) = sub ≡ name_of verb

other_text : (s t : Text) → (s == t) ≡ false → s ≢ t
other_text s t n e = cc ((eq_iff s t).1 e, n)

verb_of-Named : (sub : Text) → Named sub (verb_of sub)
unfolding verb_of Named
verb_of-Named sub =
    let is : (t : Text) → (sub == t) ≡ true → sub ≡ t = λ t. (eq_iff sub t).0 in
    if_intro (Named sub) (sub == text "whoami") (is _) (λ n₁.
      if_intro (Named sub) (sub == text "roster") (is _) (λ n₂.
        if_intro (Named sub) (sub == text "post") (is _) (λ n₃.
          if_intro (Named sub) (sub == text "watch") (is _) (λ n₄.
            if_intro (Named sub) (sub == text "fetcher") (is _) (λ n₅.
              if_intro (Named sub) (sub == text "dir") (is _) (λ n₆. (
                other_text sub _ n₁,
                (
                  other_text sub _ n₂,
                  (
                    other_text sub _ n₃,
                    (other_text sub _ n₄, (other_text sub _ n₅, (other_text sub _ n₆, tt))),
                  ),
                ),
              )))))))

module _ {W : Type 0} (fs : FileSystem W) (deps : TeamCommandDeps W) (env : Dict Text)
    (home cwd : Text) (fuel : ℕ) where
  -- The roster that is read, which is well-formed.
  pub record IsLoaded (w : W) (r : Roster) : Type 0 where
    pub loaded :
        load_roster fs deps env home cwd (roster_path fs deps env home cwd w) w ≡ some (ok r)
    pub formed : IsRoster r

  -- The roster and the name of an agent of it.
  pub record IsAgent (w : W) (r : Roster) (self : Text) : Type 0 where
    pub roster : IsLoaded w r
    pub known : contains (names_of r) self ≡ true

  -- What holds of an outcome and the state behind it, for a subcommand and the arguments after it.
  unfoldable pub ActsAs : Text → List Text → W → TeamOutcome → W → Type 0
  ActsAs sub args w (team_usage asked) w' = ((sub ≡ []) ⊎ (is_help sub ≡ true)) × (w' ≡ w)
  ActsAs sub args w (unknown_verb s) w' = (s ≡ sub) × All (λ n. sub ≢ n) team_verbs × (w' ≡ w)
  ActsAs sub args w (verb_usage verb) w' =
      (sub ≡ name_of verb) × (any is_help args ≡ true) × (w' ≡ w)
  ActsAs sub args w (roster_malformed e) w' =
      (load_roster fs deps env home cwd (roster_path fs deps env home cwd w) w ≡ some (err e))
      × (w' ≡ w)
  ActsAs sub args w (roster_absent path) w' = (fs.read_text_or_undefined path w ≡ none) × (w' ≡ w)
  ActsAs sub args w (no_self found) w' =
      (r : Roster) × IsLoaded w r × IsResolved env r found × (w' ≡ w)
  ActsAs sub args w (roster_shown r) w' = (sub ≡ text "roster") × IsLoaded w r × (w' ≡ w)
  ActsAs sub args w (self_shown found) w' =
      (sub ≡ text "whoami") × (r : Roster) × IsLoaded w r × IsResolved env r found × (w' ≡ w)
  ActsAs sub args w (dir_ended o) w' =
      (sub ≡ text "dir")
      × (r : Roster) × IsLoaded w r
      × (run_dir fs deps.host env deps.read_days args r w ≡ (o, w'))
  ActsAs sub args w (watch_ended rc) w' =
      (sub ≡ text "watch")
      × (r : Roster) × (self : Text) × IsAgent w r self
      × (run_watch fs deps.host deps.runtime env home fuel args self r w ≡ some (ok rc, w'))
  ActsAs sub args w (watch_threw message) w' =
      (sub ≡ text "watch")
      × (r : Roster) × (self : Text) × IsAgent w r self
      × (run_watch fs deps.host deps.runtime env home fuel args self r w ≡ some (err message, w'))
  ActsAs sub args w (fetcher_ended o) w' =
      (sub ≡ text "fetcher")
      × (r : Roster) × (self : Text) × IsAgent w r self
      × (run_fetcher fs deps.processes env home self args w ≡ (o, w'))
  ActsAs sub args w (post_ended o) w' =
      (sub ≡ text "post")
      × (r : Roster) × (self : Text) × IsAgent w r self
      × (run_post fs deps.host env home deps.positive_integer deps.has_alphanumeric args self r
            (deps.read_stdin w) w
          ≡ (o, w'))

  -- No outcome only while the watcher still runs.
  unfoldable pub Acts : Text → List Text → W → Option (TeamOutcome × W) → Type 0
  unfolding ActsAs
  Acts sub args w none =
      (sub ≡ text "watch")
      × (r : Roster) × (self : Text) × IsAgent w r self
      × (run_watch fs deps.host deps.runtime env home fuel args self r w ≡ none)
  Acts sub args w (some (o, w')) = ActsAs sub args w o w'

  watch_end-Acts :
      (args : List Text) (r : Roster) (self : Text) (w : W) (o : Option (Outcome ℕ W))
      → IsAgent w r self
      → run_watch fs deps.host deps.runtime env home fuel args self r w ≡ o
      → Acts (text "watch") args w (watch_end fs deps env home cwd o)
  unfolding Acts ActsAs
  watch_end-Acts args r self w none a e = (refl, r, self, a, e)
  watch_end-Acts args r self w (some (ok rc, w')) a e = (refl, r, self, a, e)
  watch_end-Acts args r self w (some (err message, w')) a e = (refl, r, self, a, e)

  as_agent-Acts :
      (verb : SelfVerb) (args : List Text) (r : Roster) (found : RosterResolve) (self : Text)
      (w : W)
      → IsAgent w r self
      → IsResolved env r found
      → Acts
          (name_of (as_self verb))
          args
          w
          (as_agent fs deps env home cwd fuel verb args r found self w)
  unfolding Acts ActsAs as_agent
  as_agent-Acts whoami args r found self w a h = (refl, r, a.roster, h, refl)
  as_agent-Acts watch args r found self w a h = watch_end-Acts args r self w _ a refl
  as_agent-Acts fetcher args r found self w a h = (refl, r, self, a, refl)
  as_agent-Acts post args r found self w a h = (refl, r, self, a, refl)

  contains_only : (names : List Text) (v : Text) → names ≡ v ∷ [] → contains names v ≡ true
  contains_only names v e = rw e (rw (eq_refl v) refl)

  with_self-Acts :
      (verb : SelfVerb) (args : List Text) (r : Roster) (found : RosterResolve) (w : W)
      → IsLoaded w r
      → IsResolved env r found
      → Acts
          (name_of (as_self verb))
          args
          w
          (with_self fs deps env home cwd fuel verb args r found w)
  unfolding Acts ActsAs with_self
  with_self-Acts verb args r (from_env self) w l h =
      as_agent-Acts verb args r (from_env self) self w (record { roster = l; known = h.1 }) h
  with_self-Acts verb args r (from_single_agent self) w l h =
      as_agent-Acts verb args r (from_single_agent self) self w
        (record { roster = l; known = contains_only (names_of r) self h.1 }) h
  with_self-Acts verb args r (no_env_and_multi_agent names) w l h = (r, l, h, refl)
  with_self-Acts verb args r (env_not_in_roster v names) w l h = (r, l, h, refl)

  parsed-none : (o : Option Text) → parsed fs deps env home cwd o ≡ none → o ≡ none
  parsed-none none e = refl
  parsed-none (some s) e = cc e

  parsed-IsRoster :
      (o : Option Text) (r : Roster) → parsed fs deps env home cwd o ≡ some (ok r) → IsRoster r
  parsed-IsRoster none r e = cc e
  parsed-IsRoster (some s) r e = parse_roster-IsRoster s r (cc e)

  with_roster-Acts :
      (verb : TeamVerb) (args : List Text) (l : Option (Result RosterError Roster)) (w : W)
      → load_roster fs deps env home cwd (roster_path fs deps env home cwd w) w ≡ l
      → Acts (name_of verb) args w (with_roster fs deps env home cwd fuel verb args l w)
  unfolding Acts ActsAs with_roster load_roster
  with_roster-Acts verb args none w e = (parsed-none _ e, refl)
  with_roster-Acts verb args (some (err x)) w e = (e, refl)
  with_roster-Acts show_roster args (some (ok r)) w e =
      (refl, record { loaded = e; formed = parsed-IsRoster _ r e }, refl)
  with_roster-Acts use_dir args (some (ok r)) w e =
      (refl, r, record { loaded = e; formed = parsed-IsRoster _ r e }, refl)
  with_roster-Acts (as_self verb) args (some (ok r)) w e =
      with_self-Acts verb args r (resolve_self_name env r) w
        (record { loaded = e; formed = parsed-IsRoster _ r e }) (resolve_self_name-IsResolved env r)

  run_verb-Acts :
      (sub : Text) (args : List Text) (verb : Option TeamVerb) (w : W)
      → Named sub verb
      → Acts sub args w (run_verb fs deps env home cwd fuel sub args verb w)
  unfolding Acts ActsAs Named
  run_verb-Acts sub args none w named = (refl, named, refl)
  run_verb-Acts sub args (some verb) w named =
      if_intro (Acts sub args w) (any is_help args) (λ asked. (named, asked, refl))
        (λ run. rw named (with_roster-Acts verb args _ w refl))

  -- For a subcommand and the arguments after it: roster, whoami, dir, watch, fetcher and post are
  -- each carried out only when they are the one named, with the well-formed roster that is read at
  -- the project's root and, for the last three, as one of its agents, on exactly those arguments;
  -- it is without an outcome only while the watcher still runs. A subcommand is called unknown only
  -- when it is none of the six, a usage is shown only when help is asked for or no subcommand is
  -- given, the roster is called malformed only when it does not parse, and absent only when the file
  -- is not there. What only shows or refuses changes nothing.
  pub run_team-Acts :
      (sub : Text) (args : List Text) (w : W)
      → Acts sub args w (run_team fs deps env home cwd fuel (sub ∷ args) w)
  unfolding Acts ActsAs run_team
  run_team-Acts sub args w =
      if_intro (Acts sub args w) (sub == text "")
        (λ empty. (inl ((eq_iff sub (text "")).0 empty), refl))
        (λ full.
          if_intro (Acts sub args w) (is_help sub) (λ asked. (inr asked, refl))
            (λ run. run_verb-Acts sub args (verb_of sub) w (verb_of-Named sub)))
