-- ===== src/Team/Fetcher/Signals.antt =====
-- Which process `team fetcher stop` signals.
use docker_claudebox.Files.{FileSystem, Done}
use docker_claudebox.Watch.Inbox.{pidfile_for}
use docker_claudebox.Watch.Liveness.{ProcessProbe}
use docker_claudebox.Team.Fetcher.{
  Processes, FetcherOutcome, usage, unknown_subcommand, bad_argument, no_pidfile, malformed_pidfile,
  reported, stale_pidfile, signalled, already_gone, signal_failed, no_log, printed,
}
use docker_claudebox.Base.{
  Dict, List, Text, [], err, includes, none, ok, some, text, trim, true, ℕ, ◌++◌, ◌∷◌, ◌≡◌, ◌≢◌,
}

-- A signal that is sent is logged; one that throws is not sent, and removing a file sends none.
pub record IsSignalLogged {W : Type 0} (fs : FileSystem W) (ps : Processes W) (log : W → List ℕ)
    : Type 0 where
  pub terminate_logs :
      (pid : ℕ) (u : Done) (w w₁ : W)
      → ps.terminate pid w ≡ (ok u, w₁)
      → log w₁ ≡ log w ++ (pid ∷ [])
  pub terminate_throws :
      (pid : ℕ) (message : Text) (w w₁ : W)
      → ps.terminate pid w ≡ (err message, w₁)
      → log w₁ ≡ log w
  pub remove_file_silent : (p : Text) (w : W) → log (fs.remove_file p w).1 ≡ log w

-- The process runs, and its command line is that of the fetcher of the inbox.
abbrev pub IsFetcherOf : Text → ProcessProbe → ℕ → Type 0
IsFetcherOf inbox probe pid =
    (probe.is_running pid ≡ true)
    × ((command : Text) × (probe.get_command_line pid ≡ some command)
        × (includes (text "team watch") command ≡ true)
        × (includes inbox command ≡ true))

module _ {W : Type 0} (fs : FileSystem W) (ps : Processes W) (inbox : Text) where
  abbrev pub IsRecorded : W → ℕ → Type 0
  IsRecorded w pid =
      (s : Text) × (fs.read_text_or_undefined (pidfile_for inbox) w ≡ some s)
      × (ps.read_pid (trim s) ≡ some pid)

  abbrev pub IsOurs : W → ℕ → Type 0
  IsOurs w pid = IsRecorded w pid × IsFetcherOf inbox (ps.probe w) pid

  -- What an outcome says of the pidfile, the process and the signals sent.
  unfoldable pub Stops : W → FetcherOutcome → List ℕ → Type 0
  Stops w (usage asked) new = ⊥
  Stops w (unknown_subcommand sub) new = ⊥
  Stops w (bad_argument a) new = ⊥
  Stops w no_pidfile new = (fs.read_text_or_undefined (pidfile_for inbox) w ≡ none) × (new ≡ [])
  Stops w malformed_pidfile new =
      ((s : Text) × (fs.read_text_or_undefined (pidfile_for inbox) w ≡ some s)
        × (ps.read_pid (trim s) ≡ none))
      × (new ≡ [])
  Stops w (reported alive) new = ⊥
  Stops w stale_pidfile new =
      ((pid : ℕ) × IsRecorded w pid × ¬ (IsFetcherOf inbox (ps.probe w) pid)) × (new ≡ [])
  Stops w (signalled pid) new = IsOurs w pid × (new ≡ pid ∷ [])
  Stops w already_gone new = ((pid : ℕ) × IsOurs w pid) × (new ≡ [])
  Stops w signal_failed new = ((pid : ℕ) × IsOurs w pid) × (new ≡ [])
  Stops w no_log new = ⊥
  Stops w (printed lines) new = ⊥

module _ {W : Type 0} (fs : FileSystem W) (ps : Processes W) (log : W → List ℕ)
    (law : IsSignalLogged fs ps log) (env : Dict Text) (home self inbox : Text)
    (named : inbox ≢ []) where
  abbrev Ends : W → FetcherOutcome × W → Type 0
  Ends w r = (new : List ℕ) × (log r.1 ≡ log w ++ new) × Stops fs ps inbox w r.0 new
