-- ===== src/Utils.antt =====
-- internal/shared/utils
pub mod Bitcoin
pub mod Unbonding
