-- ===== src/Cli/Registry/Routes.antt =====
-- Where a command line goes, for a registry that has a command for every verb of the catalogue.
use docker_claudebox.Cli.Registry.{
  verbs, inherited_names, is_known_verb, DispatchError, no_command, unknown_verb, Command, Registry,
  is_help, with_line_end, subverb_help, run_command, dispatch_verb, dispatch,
}
use docker_claudebox.Base.{
  Bool, Bool-cases, List, Result, Text, [], all, any, arith, contains, eq_iff, false, if◌then◌else◌,
  inl, inr, lookup, none, not, ok, refl, some, starts_with, take, text, text_eq, true, ℕ, ◌&&◌,
  ◌==◌, ◌∷◌, ◌≡◌, ◌≢◌,
}

-- A command for each verb of the catalogue, under its own verb, and no other.
pub record IsCatalogue {W : Type 0} (commands : Registry W) : Type 0 where
  pub complete :
      (v : Text)
      → contains verbs v ≡ true
      → (cmd : Command W) × (lookup v commands ≡ some cmd) × (cmd.verb ≡ v)
  pub only : (v : Text) → contains verbs v ≡ false → lookup v commands ≡ none

-- What the dispatcher should do with a first argument that it refuses.
abbrev pub refusal : Text → DispatchError
refusal verb = if contains inherited_names verb then no_command verb else unknown_verb verb

-- The command lines that are refused: a first argument that is not empty, is no flag and no verb.
abbrev pub IsRefused : List Text → DispatchError → Type 0
IsRefused [] e = ⊥
IsRefused (verb ∷ rest) e =
    (verb ≢ text "")
    × (starts_with (text "-") verb ≡ false)
    × (contains verbs verb ≡ false)
    × (e ≡ refusal verb)

contains-all :
    (p : Text → Bool) (xs : List Text) (v : Text)
    → contains xs v ≡ true
    → all p xs ≡ true
    → p v ≡ true
contains-all p [] v h k = cc
contains-all p (x ∷ xs) v h k = elim (Bool-cases (x == v)) [
  | inl same ↦ rw (← (eq_iff x v).0 same) (ground arith)
  | inr other ↦ contains-all p xs v (ground arith) (ground arith)
]

neither : (a b : Bool) → (not a && not b) ≡ true → (a ≡ false) × (b ≡ false)
neither a b h = ground arith

-- No verb of the catalogue is empty or begins with a dash.
verb-word :
    (v : Text)
    → contains verbs v ≡ true
    → ((v == text "") ≡ false) × (starts_with (text "-") v ≡ false)
unfolding starts_with
verb-word v h =
    neither _ _
      (contains-all (λ u. not (u == text "") && not (starts_with (text "-") u)) verbs v h refl)

-- What the dispatcher does with a command: `result` is what it returns.
pub record IsRun {W : Type 0} (write : Text → W → W) (cmd : Command W) (args : List Text) (w : W)
    (result : Result DispatchError (Result Text (ℕ × W))) : Type 0 where
  pub runs : any is_help (take 2 args) ≡ false → result ≡ ok (cmd.run args w)
  pub helps :
      any is_help (take 1 args) ≡ true → result ≡ ok (ok (0, write (with_line_end cmd.usage) w))

module _ {W : Type 0} (write : Text → W → W) (banner : Text) (commands : Registry W) where
  run_command-IsRun :
      (cmd : Command W) (args : List Text) (w : W)
      → IsRun write cmd args w (ok (run_command write banner cmd args w))
  unfolding run_command subverb_help
  run_command-IsRun cmd [] w = record { runs = λ h. refl; helps = λ h. cc h }
  run_command-IsRun cmd (a ∷ []) w = elim (Bool-cases (is_help a)) [
    | inl first ↦ record {
      runs = λ h. absurd (ground (arith, h, first));
      helps = λ h. rw first refl;
    }
    | inr no_first ↦ record {
      runs = λ h. rw no_first refl;
      helps = λ h. absurd (ground (arith, h, no_first));
    }
  ]
  run_command-IsRun cmd (a ∷ (b ∷ rest)) w = elim (Bool-cases (is_help a)) [
    | inl first ↦ record {
      runs = λ h. absurd (ground (arith, h, first));
      helps = λ h. rw first refl;
    }
    | inr no_first ↦ elim (Bool-cases (is_help b)) [
      | inl second ↦ record {
        runs = λ h. absurd (ground (arith, h, second));
        helps = λ h. absurd (ground (arith, h, no_first));
      }
      | inr no_second ↦ record {
        runs = λ h. rw (no_first, no_second) refl;
        helps = λ h. absurd (ground (arith, h, no_first));
      }
    ]
  ]

  module _ (catalogue : IsCatalogue commands) where
    -- A verb of the catalogue belongs to a command of its own, which runs on exactly the arguments
    -- after the verb when none of the first two of them asks for help; when the first does, the
    -- usage of that command is written instead, and nothing else is done.
    pub dispatch-runs :
        (verb : Text) (rest : List Text) (w : W)
        → contains verbs verb ≡ true
        → (cmd : Command W) × (cmd.verb ≡ verb)
          × IsRun write cmd rest w (dispatch write banner commands (verb ∷ rest) w)
    unfolding dispatch dispatch_verb is_known_verb
    dispatch-runs verb rest w known =
        let (cmd, found, own) = catalogue.complete verb known in
        let (full, plain) = verb-word verb known in
        (cmd, own, rw (full, plain, known, found) (run_command-IsRun cmd rest w))
