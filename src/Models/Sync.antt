-- ===== src/Models/Sync.antt =====
-- internal/models/sync.go
use bear_sync.Prelude.{ℕ, String, Bool, List}
use bear_sync.Models.Note.{Note}
use bear_sync.Models.Tag.{Tag}
use bear_sync.Models.Attachment.{Attachment}
use bear_sync.Models.Backlink.{Backlink}

pub record NoteTagPair : Type 0 where
  pub note_id : String
  pub tag_id : String

pub record SyncPushRequest : Type 0 where
  pub notes : List Note
  pub tags : List Tag
  pub note_tags : List NoteTagPair
  pub pinned_note_tags : List NoteTagPair
  pub attachments : List Attachment
  pub backlinks : List Backlink
  pub deleted_note_ids : List String
  pub deleted_tag_ids : List String
  pub deleted_attachment_ids : List String
  pub deleted_backlink_ids : List String
  pub meta : List (String × String)

-- "applied", "failed", and any other text.
pub data AckStatus : Type 0 where
  applied failed : AckStatus
  other : String → AckStatus

pub record SyncAckItem : Type 0 where
  pub queue_id : ℕ
  pub idempotency_key : String
  pub status : AckStatus
  pub bear_id : String
  pub bear_modified_at : String
  pub error : String
  pub conflict_resolved : Bool
