-- ===== src/Examples/Desk.antt =====
-- Files in memory, with logs of the requests, of the signals and of the removals.
use docker_claudebox.Files.{FileSystem, Done, Outcome}
use docker_claudebox.Files.Memory.{Memory, memory}
use docker_claudebox.Team.Dir.Reaped.{IsRemovalLogged}
use docker_claudebox.Team.Fetcher.{Processes}
use docker_claudebox.Team.Fetcher.Signals.{IsSignalLogged}
use docker_claudebox.Team.Send.{Shell}
use docker_claudebox.Team.Send.Requests.{Request, IsLogged}
use docker_claudebox.Base.{
  Bool-cases, List, Text, [], ap, eq_refl, err, if◌then◌else◌, inl, inr, insert, lookup,
  lookup-insert, nat_beq, ok, read_number, refl, some, sym, text, text_eq, ℕ, ◌++◌, ◌∙◌, ◌∷◌, ◌≡◌,
  ◌⊎◌,
}

pub record Desk : Type 0 where
  pub files : Memory
  pub log : List Request
  pub signals : List ℕ
  pub removed : List Text

abbrev on_files : {A : Type 0} → Outcome A Memory → Desk → Outcome A Desk
on_files (r, m) w = (r, record w { files = m })

abbrev pub desk_files : FileSystem Desk
desk_files = record {
  exists = λ p w. memory.exists p w.files;
  is_directory = λ p w. memory.is_directory p w.files;
  read_text_or_undefined = λ p w. memory.read_text_or_undefined p w.files;
  list_dir = λ p w. memory.list_dir p w.files;
  mkdir_recursive = λ p w. on_files (memory.mkdir_recursive p w.files) w;
  move = λ s d w. on_files (memory.move s d w.files) w;
  rm_dir_if_empty = λ p w. on_files (memory.rm_dir_if_empty p w.files) w;
  chmod = λ p mode w. on_files (memory.chmod p mode w.files) w;
  write_text_atomic = λ p c w. on_files (memory.write_text_atomic p c w.files) w;
  write_text = λ p c w. on_files (memory.write_text p c w.files) w;
  remove_file =
      λ p w. on_files (memory.remove_file p w.files) (record w { removed = w.removed ++ (p ∷ []) });
  append_text = λ p c w. on_files (memory.append_text p c w.files) w;
  read_text = λ p w. memory.read_text p w.files;
  mtime_ms = λ p w. memory.mtime_ms p w.files;
  stat_mode = λ p w. memory.stat_mode p w.files;
  remove_dir_recursive = λ p w. on_files (memory.remove_dir_recursive p w.files) w;
}

-- Every request succeeds.
abbrev pub desk_shell : Shell Desk
desk_shell = record {
  run_capture = λ command w. (
    (0, text "https://example.org/1\n"),
    record w { log = w.log ++ ((command, (λ p. lookup p w.files), 0) ∷ []) },
  );
  pid = 7;
  now_ms = λ w. 1000;
}

pub desk-IsLogged : IsLogged desk_files desk_shell (λ w. w.log)
unfolding lookup insert
desk-IsLogged = record {
  run_capture_logs = λ command w. refl;
  mkdir_recursive_silent = λ p w. refl;
  write_text_silent = λ p c w. refl;
  remove_file_silent = λ p w. refl;
  write_text_stores = λ p c u w w₁ h.
      let same : insert p c w.files ≡ w₁.files = ap (λ r. r.1.files) h in
      rw (sym same) (lookup-insert p p c w.files ∙ rw (eq_refl p) refl);
}

-- One process runs: the fetcher of an inbox, with the number 42. A signal to another throws.
abbrev pub desk_processes : Processes Desk
desk_processes = record {
  read_pid = λ s. some (read_number s);
  read_lines = λ s. some (read_number s);
  probe = λ w. record {
    is_running = λ pid. nat_beq pid 42;
    get_command_line = λ pid. some (text "bun dridock team watch --inbox /x/inbox/Bear.jsonl");
  };
  terminate = λ pid w.
      if nat_beq pid 42
      then (ok Done.done, record w { signals = w.signals ++ (pid ∷ []) })
      else (err (text "ESRCH"), w);
}

terminate_cases :
    (pid : ℕ) (w : Desk)
    → (desk_processes.terminate pid w
        ≡ (ok Done.done, record w { signals = w.signals ++ (pid ∷ []) }))
      ⊎ (desk_processes.terminate pid w ≡ (err (text "ESRCH"), w))
terminate_cases pid w = elim (Bool-cases (nat_beq pid 42)) [
  | inl ours ↦ inl (rw ours refl)
  | inr other ↦ inr (rw other refl)
]

desk-terminate_logs :
    (pid : ℕ) (u : Done) (w w₁ : Desk)
    → desk_processes.terminate pid w ≡ (ok u, w₁)
    → w₁.signals ≡ w.signals ++ (pid ∷ [])
desk-terminate_logs pid u w w₁ h = elim (terminate_cases pid w) [
  | inl sent ↦
      let same : record w { signals = w.signals ++ (pid ∷ []) } ≡ w₁ =
        ap (λ r. r.1) (sym sent ∙ h) in
      ap (λ s. s.signals) (sym same)
  | inr threw ↦ cc (ap (λ r. r.0) (sym threw ∙ h))
]

desk-terminate_throws :
    (pid : ℕ) (message : Text) (w w₁ : Desk)
    → desk_processes.terminate pid w ≡ (err message, w₁)
    → w₁.signals ≡ w.signals
desk-terminate_throws pid message w w₁ h = elim (terminate_cases pid w) [
  | inl sent ↦ cc (ap (λ r. r.0) (sym sent ∙ h))
  | inr threw ↦ let same : w ≡ w₁ = ap (λ r. r.1) (sym threw ∙ h) in ap (λ s. s.signals) (sym same)
]

pub desk-IsSignalLogged : IsSignalLogged desk_files desk_processes (λ w. w.signals)
desk-IsSignalLogged = record {
  terminate_logs = desk-terminate_logs;
  terminate_throws = desk-terminate_throws;
  remove_file_silent = λ p w. refl;
}

pub desk-IsRemovalLogged : IsRemovalLogged desk_files desk_shell (λ w. w.removed)
desk-IsRemovalLogged = record {
  remove_file_logs = λ p w. refl;
  mkdir_recursive_silent = λ p w. refl;
  chmod_silent = λ p mode w. refl;
  run_capture_silent = λ command w. refl;
}
