-- ===== src/Domain.antt =====
-- dridock-ts/src/domain: the values that the commands and services share.
pub mod Version
