-- ===== src/Store/Scan.antt =====
-- internal/store/scan.go: the columns of the tables of notes, tags, attachments and backlinks.
pub mod Values
pub mod NoteScan
pub mod TagScan
pub mod AttachmentScan
pub mod BacklinkScan
