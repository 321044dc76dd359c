-- ===== src/Bridge.antt =====
-- cmd/bridge: the program beside Bear. `Bridge.Bear` is what queue.go calls, `Bridge.Payload` the
-- payloads of queue items, `Bridge.Actions`, `Bridge.TagActions` and `Bridge.Queue` queue.go, and
-- `Bridge.Cycle` a turn of the queue. `Bridge.Reads` is what sync.go reads and keeps,
-- `Bridge.Junction` its functions on ids and pairs, `Bridge.Delta` and `Bridge.Initial` its two
-- syncs, and `Bridge.Cycles` the whole cycle. The other children hold proofs.
pub mod Bear
pub mod Payload
pub mod Actions
pub mod TagActions
pub mod Queue
pub mod Answers
pub mod Cycle
pub mod Progress
pub mod Ends
pub mod Redo
pub mod Again
pub mod Copies
pub mod Junction
pub mod Sets
pub mod Changed
pub mod Reads
pub mod Delta
pub mod Initial
pub mod Batches
pub mod DeltaLaws
pub mod Cycles
pub mod Limits
pub mod Parts
pub mod News
pub mod Advance
pub mod Remembers
pub mod Deletions
