-- ===== src/Models/Tag.antt =====
-- internal/models/tag.go. What the store only copies stands in `TagInfo`.
use bear_sync.Prelude.{ℕ, String, Option}

pub record TagInfo : Type 0 where
  pub pinned : ℕ
  pub is_root : ℕ
  pub hide_subtags_notes : ℕ
  pub sorting : ℕ
  pub sorting_direction : ℕ
  pub encrypted : ℕ
  pub version : ℕ
  pub modified_at : String
  pub pinned_at : String
  pub pinned_notes_at : String
  pub encrypted_at : String
  pub hide_subtags_notes_at : String
  pub sorting_at : String
  pub sorting_direction_at : String
  pub tag_con_date : String
  pub tag_con : String

pub record Tag : Type 0 where
  pub id : String
  pub bear_id : Option String
  pub title : String
  pub info : TagInfo
  pub bear_raw : String
