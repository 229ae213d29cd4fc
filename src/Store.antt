-- ===== src/Store.antt =====
-- internal/v1/db/client: the operations of the database, one module for each file of the source.
pub mod Access
pub mod Delegations
pub mod Unbonding
pub mod Timelock
pub mod BtcInfos
pub mod StatsLock
pub mod Others
pub mod Stats
pub mod V2Stats
