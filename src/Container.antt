-- ===== src/Container.antt =====
-- services/ContainerName.ts, EnvMountPassthrough.ts and DotExclusions.ts: what a container is run with.
pub mod Exclusions
pub mod Name
pub mod Passthrough
