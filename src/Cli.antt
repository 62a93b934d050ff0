-- ===== src/Cli.antt =====
-- The command line: the guards before a command, the dispatch of verbs, and the arguments of the
-- programmatic mode.
pub mod Guard
pub mod Registry
pub mod Args
