-- ===== src/Models/Attachment.antt =====
-- internal/models/attachment.go. What the store only copies stands in `AttachmentInfo`.
use bear_sync.Prelude.{ℕ, String, Option, List}

pub record AttachmentInfo : Type 0 where
  pub normalized_extension : String
  pub file_size : ℕ
  pub file_index : ℕ
  pub width : ℕ
  pub height : ℕ
  pub animated : ℕ
  pub duration : ℕ
  pub width1 : ℕ
  pub height1 : ℕ
  pub downloaded : ℕ
  pub skip_sync : ℕ
  pub unused : ℕ
  pub uploaded : ℕ
  pub version : ℕ
  pub created_at : String
  pub modified_at : String
  pub inserted_at : String
  pub encrypted_at : String
  pub unused_at : String
  pub uploaded_at : String
  pub search_text_at : String
  pub last_editing_device : String
  pub encryption_id : String
  pub search_text : String
  pub encrypted_data : List ℕ

pub record Attachment : Type 0 where
  pub id : String
  pub bear_id : Option String
  pub note_id : String
  pub type : String
  pub filename : String
  pub encrypted : ℕ
  pub permanently_deleted : ℕ
  pub info : AttachmentInfo
  pub file_path : String
  pub bear_raw : String
