-- ===== src/History.antt =====
-- What is written once and never taken back, over lists of tasks.
pub mod Grows
pub mod Tasks
