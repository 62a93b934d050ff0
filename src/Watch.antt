-- ===== src/Watch.antt =====
-- The agent-team watcher: message headers, events, the persistent store and the delivery loop
-- (dridock-ts/src/services).
pub mod Header
pub mod Event
pub mod Store
pub mod Persist
pub mod Loop
pub mod Liveness
pub mod Inbox
pub mod Github
