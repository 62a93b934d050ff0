-- ===== src/Examples/Fetchers.antt =====
-- The fetcher's end and the shared directory, on files in memory.
use docker_claudebox.Examples.Desk.{Desk}
use docker_claudebox.Team.Roster.{Roster}
use docker_claudebox.Base.{List, Option, Text, [], none, read_number, some, text, ℕ, ◌*◌, ◌∷◌}

abbrev bear_inbox : Text
bear_inbox = text "/x/inbox/Bear.jsonl"

abbrev running : Desk
running = record {
  files = (text "/x/inbox/Bear.jsonl.pid", text "42\n") ∷ [];
  log = [];
  signals = [];
  removed = [];
}

abbrev bears : Roster
bears = record {
  agents = record { name = text "Bear"; role = none; environment = none } ∷ [];
  team = some (text "bears");
  human = none;
  github_repo = none;
}

abbrev reap_args : List Text
reap_args = text "--reap" ∷ text "--older-than=2" ∷ []

abbrev days : Text → Option ℕ
days s = some (read_number s * 86400000)

abbrev shared : Desk
shared = record {
  files = (text "/tmp/dridock/teams/bears/note", text "n") ∷ [];
  log = [];
  signals = [];
  removed = [];
}
