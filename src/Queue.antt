-- ===== src/Queue.antt =====
-- internal/v1/queue/handler, and the message loop of internal/shared/queue.
pub mod Events
pub mod Handlers
pub mod Registration
pub mod StatsHandler
pub mod Messages
pub mod Loop
