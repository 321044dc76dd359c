-- ===== src/Models.antt =====
-- internal/models: the structures that the bridge, the hub and its store exchange.
pub mod Note
pub mod Tag
pub mod Attachment
pub mod Backlink
pub mod WriteQueue
pub mod Sync
pub mod Views
