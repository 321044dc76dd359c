-- ===== src/Api.antt =====
-- The writing handlers of internal/api, one request at a time. A handler is a function from the
-- database to the database and the answer: its calls of the store are transactions of their own, so
-- that an error keeps what the earlier calls did, except what the handler takes back itself.
pub mod Title
pub mod Reply
pub mod Notes
pub mod Create
pub mod TagHandlers
pub mod Laws
pub mod WriteBack
pub mod Written
pub mod Atomic
pub mod TagLaws
pub mod Retry
pub mod CreateLaws
pub mod SyncHandlers
pub mod Meta
pub mod Cleanup
pub mod Tokens
pub mod TokenLaws
pub mod ReadHandlers
pub mod ReadLaws
pub mod AddFile
pub mod AddFileLaws
pub mod AttachmentFiles
pub mod DownloadLaws
