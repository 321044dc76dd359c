-- ===== src/Store/Queue.antt =====
-- The write queue of internal/store/sqlite.go: `Enqueue` has `EnqueueWrite` and its helpers,
-- `Lease` has `LeaseQueueItems`; the other modules are about them.
pub mod Enqueue
pub mod Lease
pub mod Shape
pub mod Steps
pub mod Idempotent
pub mod Exclusive
pub mod Retry
