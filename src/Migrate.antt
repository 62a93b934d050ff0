-- ===== src/Migrate.antt =====
-- services/AutoMigrate.ts and services/migrators/: from `.claudebox` to `.dridock`.
pub mod Report
pub mod Moves
pub mod StateDirs
pub mod Workspace
pub mod Auto
pub mod Lossless
