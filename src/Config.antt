-- ===== src/Config.antt =====
-- services/ProjectConfig.ts, services/MachineConfig.ts and domain/paths.ts: the files of settings.
pub mod Yaml
pub mod Project
pub mod Machine
pub mod Root
