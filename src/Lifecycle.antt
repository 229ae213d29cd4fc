-- ===== src/Lifecycle.antt =====
-- What may become of a stored delegation, whatever the handlers do and the network loses.
pub mod Order
pub mod Store
pub mod Tasks
