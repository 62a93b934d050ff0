-- ===== src/Settings.antt =====
-- services/ProjectConfig.ts and domain/EnvResolver.ts: the settings of a project and of a call.
pub mod Features
pub mod Env
