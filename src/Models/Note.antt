-- ===== src/Models/Note.antt =====
-- internal/models/note.go. The flags, the dates and the metadata are records of their own, opened
-- into `Note`. `*string` is `Option String`. An `int` that the program only copies, or compares
-- with 0 and 1, is a natural number; `[]byte` is the list of its bytes. The row id, which only the
-- full-text index reads, and the joined lists, which queries fill, are left out.
use bear_sync.Prelude.{ℕ, String, Option, List, []}

-- The values that the program writes into the column `sync_status`, and any other text.
pub data SyncStatus : Type 0 where
  synced pending_to_bear conflict : SyncStatus
  other : String → SyncStatus

pub record NoteFlags : Type 0 where
  pub archived : ℕ
  pub encrypted : ℕ
  pub has_files : ℕ
  pub has_images : ℕ
  pub has_source_code : ℕ
  pub locked : ℕ
  pub pinned : ℕ
  pub shown_in_today : ℕ
  pub trashed : ℕ
  pub permanently_deleted : ℕ
  pub skip_sync : ℕ
  pub todo_completed : ℕ
  pub todo_incompleted : ℕ
  pub version : ℕ

pub record NoteDates : Type 0 where
  pub created_at : String
  pub modified_at : String
  pub archived_at : String
  pub encrypted_at : String
  pub locked_at : String
  pub pinned_at : String
  pub trashed_at : String
  pub order_date : String
  pub conflict_id_date : String

pub record NoteInfo : Type 0 where
  pub last_editing_device : String
  pub conflict_id : String
  pub encryption_id : String
  pub encrypted_data : List ℕ

pub record Note : Type 0 where
  pub id : String
  pub bear_id : Option String
  pub title : String
  pub subtitle : String
  pub body : String
  pub flags : NoteFlags
  pub open flags use *
  pub dates : NoteDates
  pub open dates use *
  pub info : NoteInfo
  pub open info use *
  pub sync_status : SyncStatus
  pub hub_modified_at : String
  pub bear_raw : String
  pub pending_bear_title : Option String
  pub pending_bear_body : Option String
  pub expected_bear_modified_at : Option String

-- Go's zero value of the flags, the dates and the metadata.
abbrev pub zero_flags : NoteFlags
zero_flags = record {
  archived = 0;
  encrypted = 0;
  has_files = 0;
  has_images = 0;
  has_source_code = 0;
  locked = 0;
  pinned = 0;
  shown_in_today = 0;
  trashed = 0;
  permanently_deleted = 0;
  skip_sync = 0;
  todo_completed = 0;
  todo_incompleted = 0;
  version = 0;
}

abbrev pub zero_dates : NoteDates
zero_dates = record {
  created_at = "";
  modified_at = "";
  archived_at = "";
  encrypted_at = "";
  locked_at = "";
  pinned_at = "";
  trashed_at = "";
  order_date = "";
  conflict_id_date = "";
}

abbrev pub zero_info : NoteInfo
zero_info = record {
  last_editing_device = "";
  conflict_id = "";
  encryption_id = "";
  encrypted_data = [];
}

-- `StripInternal`, on the fields of the note itself.
unfoldable pub strip_internal : Note → Note
strip_internal n = record n {
  bear_raw = "";
  info = record (n.info) { encrypted_data = [] };
  hub_modified_at = "";
}
