-- ===== src/Examples.antt =====
-- The theorems at concrete inputs.
mod Watch
mod Versions
mod Teams
mod Commands
mod Images
mod Arguments
mod Machines
mod Containers
mod Configs
mod Migrations
mod Desk
mod Posts
mod Fetchers
mod Watchers
mod TeamCommands
