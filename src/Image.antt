-- ===== src/Image.antt =====
-- The image of a project: its version against the wrapper's and cb-infra's, its seeding, and the
-- gate on the dot mount.
pub mod Docker
pub mod Ensure
pub mod Check
pub mod DotMount
