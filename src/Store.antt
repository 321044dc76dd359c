-- ===== src/Store.antt =====
-- internal/store: the hub's SQLite store. `Store.Db` is the state, `Store.Queue` the write queue,
-- `Store.Ack` the acknowledgements.
pub mod Db
pub mod NoteRows
pub mod NoteTable
pub mod Reads
pub mod Pages
pub mod Queue
pub mod Ack
pub mod Push
pub mod Scan
