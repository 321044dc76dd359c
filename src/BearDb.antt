-- ===== src/BearDb.antt =====
-- internal/beardb/sqlite.go: what the bridge reads from Bear's own database.
pub mod Tables
pub mod NoteColumns
pub mod TagColumns
pub mod AttachmentColumns
pub mod BacklinkColumns
pub mod Queries
pub mod Lookups
pub mod Restrict
pub mod Carried
