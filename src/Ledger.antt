-- ===== src/Ledger.antt =====
-- The statistics as a ledger: every change of a document is an entry, and an entry is made only by
-- setting a flag of the stats lock that was not set.
pub mod Entries
pub mod Books
pub mod Postings
pub mod Quiet
pub mod Tasks
