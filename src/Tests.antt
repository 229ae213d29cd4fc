-- ===== src/Tests.antt =====
-- Concrete instances of the parameters, and the theorems at concrete inputs.
pub mod Mappings
pub mod Memory
pub mod Sources
pub mod Collections
mod LifecycleTests
mod LedgerTests
mod UnbondingTests
mod LoopTests
mod RegistrationTests
mod AtomicTests
mod HistoryTests
mod StateTests
mod BtcInfoTests
mod ReadsTests
mod StatsTests
mod SumsTests
mod ReplayTests
mod ApiTests
mod PayloadTests
