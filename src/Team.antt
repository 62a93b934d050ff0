-- ===== src/Team.antt =====
-- services/AgentRoster.ts: the named agents that work on one project.
pub mod Roster
pub mod Post
pub mod Shell
pub mod Send
pub mod Fetcher
pub mod Dir
pub mod Watching
pub mod Run
