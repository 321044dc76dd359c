-- ===== src/Models/Views.antt =====
-- What the consumer API shows of an attachment (internal/models/attachment.go), and a note with the
-- lists that queries join to it (internal/models/note.go).
use bear_sync.Prelude.{ℕ, String, List, map}
use bear_sync.Models.Note.{Note}
use bear_sync.Models.Tag.{Tag}
use bear_sync.Models.Attachment.{Attachment}
use bear_sync.Models.Backlink.{Backlink}
use bear_sync.Models.Note
use bear_sync.Models.Backlink

pub record AttachmentInfo : Type 0 where
  pub id : String
  pub type : String
  pub filename : String
  pub file_size : ℕ
  pub width : ℕ
  pub height : ℕ

pub record AttachmentMeta : Type 0 where
  pub id : String
  pub type : String
  pub filename : String
  pub normalized_extension : String
  pub file_size : ℕ
  pub width : ℕ
  pub height : ℕ
  pub created_at : String
  pub modified_at : String

unfoldable pub to_info : Attachment → AttachmentInfo
to_info a = record {
  id = a.id;
  type = a.type;
  filename = a.filename;
  file_size = a.info.file_size;
  width = a.info.width;
  height = a.info.height;
}

unfoldable pub to_meta : Attachment → AttachmentMeta
to_meta a = record {
  id = a.id;
  type = a.type;
  filename = a.filename;
  normalized_extension = a.info.normalized_extension;
  file_size = a.info.file_size;
  width = a.info.width;
  height = a.info.height;
  created_at = a.info.created_at;
  modified_at = a.info.modified_at;
}

unfoldable pub attachments_to_info : List Attachment → List AttachmentInfo
unfolding to_info
attachments_to_info = map to_info

unfoldable pub attachments_to_meta : List Attachment → List AttachmentMeta
unfolding to_meta
attachments_to_meta = map to_meta

-- `Tag.StripInternal`
unfoldable pub strip_tag : Tag → Tag
strip_tag t = record t { bear_raw = "" }

-- A `Note` with its `Tags`, `Attachments` and `Backlinks`.
pub record FullNote : Type 0 where
  pub note : Note
  pub tags : List Tag
  pub attachments : List AttachmentInfo
  pub backlinks : List Backlink

-- `Note.StripInternal`, with the joined lists.
unfoldable pub strip_full : FullNote → FullNote
unfolding Note.strip_internal strip_tag Backlink.strip_internal
strip_full n = record {
  note = Note.strip_internal n.note;
  tags = map strip_tag n.tags;
  attachments = n.attachments;
  backlinks = map Backlink.strip_internal n.backlinks;
}
