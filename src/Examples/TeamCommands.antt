-- ===== src/Examples/TeamCommands.antt =====
-- The team command, on files in memory.
use docker_claudebox.Examples.Desk.{Desk, desk_files, desk_shell, desk_processes}
use docker_claudebox.Examples.Watchers.{signalled_runtime}
use docker_claudebox.Team.Run.{TeamCommandDeps, run_team}
use docker_claudebox.Team.Run.Acting.{Acts, run_team-Acts}
use docker_claudebox.Base.{Dict, List, Text, [], read_number, some, text, true, ◌∷◌}

abbrev desk_deps : TeamCommandDeps Desk
desk_deps = record {
  host = desk_shell;
  processes = desk_processes;
  runtime = signalled_runtime;
  top_level = λ cwd w. some (text "/p");
  read_days = λ s. some (read_number s);
  positive_integer = λ s. some (read_number s);
  has_alphanumeric = λ s. true;
  read_stdin = λ w. text "hello\n";
}

abbrev bear_env : Dict Text
bear_env = (text "DRIDOCK_AGENT_NAME", text "Bear") ∷ []

abbrev team_desk : Desk
team_desk = record {
  files =
      (text "/p/.dridock/agents.yml", text "agents:\n  - name: Bear\n")
      ∷ (text "/x/inbox/Bear.jsonl.pid", text "42\n")
      ∷ [];
  log = [];
  signals = [];
  removed = [];
}

abbrev stop_args : List Text
stop_args = text "stop" ∷ text "--inbox=/x/inbox/Bear.jsonl" ∷ []

run_team-Acts_example :
    Acts desk_files desk_deps bear_env
      (text "/h")
      (text "/p/sub")
      2
      (text "fetcher")
      stop_args
      team_desk
      (run_team desk_files desk_deps bear_env
        (text "/h")
        (text "/p/sub")
        2
        (text "fetcher" ∷ stop_args)
        team_desk)
run_team-Acts_example =
    run_team-Acts desk_files desk_deps bear_env (text "/h") (text "/p/sub") 2 (text "fetcher")
      stop_args team_desk
