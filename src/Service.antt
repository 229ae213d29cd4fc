-- ===== src/Service.antt =====
-- internal/v1/service: the business logic over the database clients.
pub mod Params
pub mod Delegations
pub mod Unbonding
pub mod Timelock
pub mod Staker
pub mod Stats
pub mod Views
pub mod FinalityProviders
pub mod PublicKeys
