-- ===== src/Ipc.antt =====
-- internal/ipc/stats.go: the tracker that the bridge fills and IPC clients read.
pub mod Stats
pub mod LogBuffer
