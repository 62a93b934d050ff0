-- ===== src/Examples/Migrations.antt =====
-- The migrations, on a file system in memory.
use docker_claudebox.Files.Memory.{Memory, memory, memory-IsLawful}
use docker_claudebox.Migrate.Auto.{auto_migrate_if_needed}
use docker_claudebox.Migrate.Lossless.{auto_migrate_keeps_files}
use docker_claudebox.Migrate.Moves.{migrate_dot_dir}
use docker_claudebox.Migrate.Moves.Complete.{Complete, migrate_dot_dir-Complete}
use docker_claudebox.Migrate.StateDirs.{Host}
use docker_claudebox.Base.{Dict, Text, [], false, lookup, refl, some, text, ◌∷◌, ◌≡◌}

abbrev quiet_host : Host Memory
quiet_host = record {
  process_matching_cmdline = λ pattern w. false;
  timestamp = λ w. text "20260722010203";
}

-- A legacy project, and the machine's legacy state beside newer state.
abbrev legacy : Memory
legacy =
    (text "/p/.claudebox/config.yml", text "id: abc\n")
    ∷ (text "/x/claudebox/consult/t/meta", text "old")
    ∷ (text "/x/dridock/consult/t/meta", text "new")
    ∷ []

abbrev xdg_env : Dict Text
xdg_env = (text "XDG_CONFIG_HOME", text "/x") ∷ []

auto_migrate_keeps_files_example :
    (q : Text) × (memory.read_text_or_undefined q
        (auto_migrate_if_needed memory quiet_host xdg_env (text "/h") (text "/p") legacy).1
      ≡ some (text "old"))
unfolding lookup
auto_migrate_keeps_files_example =
    auto_migrate_keeps_files memory memory-IsLawful quiet_host xdg_env (text "/h") (text "/p")
      (text "/x/claudebox/consult/t/meta") (text "old") legacy (λ e. cc e) refl

migrate_dot_dir-Complete_example :
    Complete memory memory-IsLawful
      (text "/d/abc")
      ((text "/d/abc/claude/history", text "h") ∷ [])
      (migrate_dot_dir memory (text "/d/abc") ((text "/d/abc/claude/history", text "h") ∷ []))
migrate_dot_dir-Complete_example =
    migrate_dot_dir-Complete memory memory-IsLawful (text "/d/abc")
      ((text "/d/abc/claude/history", text "h") ∷ [])
