-- ===== src/Models/Backlink.antt =====
-- internal/models/backlink.go
use bear_sync.Prelude.{ℕ, String, Option}

pub record Backlink : Type 0 where
  pub id : String
  pub bear_id : Option String
  pub linked_by_id : String
  pub linking_to_id : String
  pub title : String
  pub location : ℕ
  pub version : ℕ
  pub modified_at : String
  pub bear_raw : String

-- `StripInternal`
unfoldable pub strip_internal : Backlink → Backlink
strip_internal b = record b { bear_raw = "" }
