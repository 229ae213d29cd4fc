-- ===== src/Scripts.antt =====
-- The scripts of cmd/staking-api-service/scripts.
pub mod Backfill
pub mod Insertion
pub mod Saved
pub mod Replay
pub mod Replayed
