-- ===== src/Types.antt =====
-- The types that every layer shares.
pub mod Errors
pub mod States
pub mod Lifecycle
pub mod V2States
