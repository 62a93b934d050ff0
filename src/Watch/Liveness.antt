-- ===== src/Watch/Liveness.antt =====
-- services/PidLiveness.ts: whether a recorded process is the fetcher that was started.
use docker_claudebox.Base.{
  Bool, Bool-cases, Option, Text, arith, eq_iff, false, if◌then◌else◌, includes, inl, inr, none,
  not, refl, some, text, text_eq, true, ℕ, ◌&&◌, ◌==◌, ◌↔◌, ◌≡◌, ◌≢◌,
}

-- What the system says of a process: `ProcessProbe`.
pub record ProcessProbe : Type 0 where
  pub is_running : ℕ → Bool
  pub get_command_line : ℕ → Option Text

-- The command line is that of a fetcher with the expected part.
unfoldable pub is_fetcher : Text → Option Text → Bool
is_fetcher expected none = false
is_fetcher expected (some command) =
    includes (text "team watch") command && includes expected command

unfoldable pub is_pid_alive : ℕ → Option Text → ProcessProbe → Bool
is_pid_alive pid none probe = if not (probe.is_running pid) then false else true
is_pid_alive pid (some expected) probe =
    if not (probe.is_running pid)
    then false
    else if expected == text ""
    then false
    else is_fetcher expected (probe.get_command_line pid)

and_iff : (a b : Bool) → ((a && b) ≡ true) ↔ ((a ≡ true) × (b ≡ true))
and_iff a b = ground arith

same_command : {a b : Text} → some a ≡ some b → a ≡ b
same_command h = cc

other_text : (s t : Text) → (s == t) ≡ false → s ≢ t
other_text s t h p = ground (arith, eq_iff s t)

is_fetcher_iff :
    (expected : Text) (o : Option Text)
    → (is_fetcher expected o ≡ true) ↔ (
        (command : Text) × (o ≡ some command)
        × (includes (text "team watch") command ≡ true)
        × (includes expected command ≡ true))
unfolding is_fetcher
is_fetcher_iff expected none = (λ h. cc h, λ (c, e, _, _). cc e)
is_fetcher_iff expected (some command) = (
  λ h.
      let (a, b) =
        (and_iff (includes (text "team watch") command) (includes expected command)).0 h in
      (command, refl, a, b),
  λ (c, e, a, b).
      rw (same_command e)
        ((and_iff (includes (text "team watch") c) (includes expected c)).1 (a, b)),
)

-- With an expected part, a process counts as alive exactly when it runs, the part is not empty, and
-- its command line can be read and holds both `team watch` and the part.
pub is_pid_alive_iff :
    (pid : ℕ) (expected : Text) (probe : ProcessProbe)
    → (is_pid_alive pid (some expected) probe ≡ true) ↔ (
        (probe.is_running pid ≡ true)
        × (expected ≢ text "")
        × (command : Text) × (probe.get_command_line pid ≡ some command)
        × (includes (text "team watch") command ≡ true)
        × (includes expected command ≡ true))
unfolding is_pid_alive
is_pid_alive_iff pid expected probe = elim (Bool-cases (probe.is_running pid)) [
  | inr gone ↦ rw gone (λ h. cc h, λ p. cc p.0)
  | inl runs ↦ elim (Bool-cases (expected == text "")) [
    | inl empty ↦
        rw (runs, empty) (λ h. cc h, λ p. absurd (p.1 ((eq_iff expected (text "")).0 empty)))
    | inr full ↦
        let f = is_fetcher_iff expected (probe.get_command_line pid) in
        rw (runs, full)
          (
            λ h.
                let (c, e, a, b) = f.0 h in
                (refl, (λ p. other_text expected (text "") full p), c, e, a, b),
            λ p. f.1 (p.2, p.3, p.4, p.5),
          )
  ]
]
