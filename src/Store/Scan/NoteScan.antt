-- ===== src/Store/Scan/NoteScan.antt =====
-- The columns of `Note` of internal/store/scan.go and internal/store/sqlite.go: how a row is
-- written and read back.
use bear_sync.Prelude.{String, List, [], ◌∷◌, ◌≡◌, refl}
use bear_sync.Models.Note.{Note}
use bear_sync.Store.Scan.Values.{
  Value, text, integer, blob, nullable, string_of, int_of, nullable_of, bytes_of, status_of,
  status_value, Row, null_row, set_columns, read_columns, without_first, nullable_round,
}

abbrev pub note_column_list : List String
note_column_list =
    "rowid" ∷ "id" ∷ "bear_id" ∷ "title" ∷ "subtitle" ∷ "body" ∷ "archived" ∷ "encrypted"
    ∷ "has_files" ∷ "has_images" ∷ "has_source_code" ∷ "locked" ∷ "pinned" ∷ "shown_in_today"
    ∷ "trashed" ∷ "permanently_deleted" ∷ "skip_sync" ∷ "todo_completed" ∷ "todo_incompleted"
    ∷ "version" ∷ "created_at" ∷ "modified_at" ∷ "archived_at" ∷ "encrypted_at" ∷ "locked_at"
    ∷ "pinned_at" ∷ "trashed_at" ∷ "order_date" ∷ "conflict_id_date" ∷ "last_editing_device"
    ∷ "conflict_id" ∷ "encryption_id" ∷ "encrypted_data" ∷ "sync_status" ∷ "hub_modified_at"
    ∷ "bear_raw" ∷ "pending_bear_title" ∷ "pending_bear_body" ∷ "expected_bear_modified_at" ∷ []

-- The columns of the INSERT, and those of the SET of the UPDATE.
abbrev pub note_insert_columns : List String
note_insert_columns =
    "id" ∷ "bear_id" ∷ "title" ∷ "subtitle" ∷ "body" ∷ "archived" ∷ "encrypted" ∷ "has_files"
    ∷ "has_images" ∷ "has_source_code" ∷ "locked" ∷ "pinned" ∷ "shown_in_today" ∷ "trashed"
    ∷ "permanently_deleted" ∷ "skip_sync" ∷ "todo_completed" ∷ "todo_incompleted" ∷ "version"
    ∷ "created_at" ∷ "modified_at" ∷ "archived_at" ∷ "encrypted_at" ∷ "locked_at" ∷ "pinned_at"
    ∷ "trashed_at" ∷ "order_date" ∷ "conflict_id_date" ∷ "last_editing_device" ∷ "conflict_id"
    ∷ "encryption_id" ∷ "encrypted_data" ∷ "sync_status" ∷ "hub_modified_at" ∷ "bear_raw"
    ∷ "pending_bear_title" ∷ "pending_bear_body" ∷ "expected_bear_modified_at" ∷ []

abbrev pub note_update_columns : List String
note_update_columns =
    "bear_id" ∷ "title" ∷ "subtitle" ∷ "body" ∷ "archived" ∷ "encrypted" ∷ "has_files"
    ∷ "has_images" ∷ "has_source_code" ∷ "locked" ∷ "pinned" ∷ "shown_in_today" ∷ "trashed"
    ∷ "permanently_deleted" ∷ "skip_sync" ∷ "todo_completed" ∷ "todo_incompleted" ∷ "version"
    ∷ "created_at" ∷ "modified_at" ∷ "archived_at" ∷ "encrypted_at" ∷ "locked_at" ∷ "pinned_at"
    ∷ "trashed_at" ∷ "order_date" ∷ "conflict_id_date" ∷ "last_editing_device" ∷ "conflict_id"
    ∷ "encryption_id" ∷ "encrypted_data" ∷ "sync_status" ∷ "hub_modified_at" ∷ "bear_raw"
    ∷ "pending_bear_title" ∷ "pending_bear_body" ∷ "expected_bear_modified_at" ∷ []

-- The fields of the scanner in the order of `dest`.
abbrev pub note_dest : List String
note_dest =
    "RowID" ∷ "ID" ∷ "BearID" ∷ "Title" ∷ "Subtitle" ∷ "Body" ∷ "Archived" ∷ "Encrypted"
    ∷ "HasFiles" ∷ "HasImages" ∷ "HasSourceCode" ∷ "Locked" ∷ "Pinned" ∷ "ShownInToday" ∷ "Trashed"
    ∷ "PermanentlyDeleted" ∷ "SkipSync" ∷ "TodoCompleted" ∷ "TodoIncompleted" ∷ "Version"
    ∷ "CreatedAt" ∷ "ModifiedAt" ∷ "ArchivedAt" ∷ "EncryptedAt" ∷ "LockedAt" ∷ "PinnedAt"
    ∷ "TrashedAt" ∷ "OrderDate" ∷ "ConflictIDDate" ∷ "LastEditingDevice" ∷ "ConflictID"
    ∷ "EncryptionID" ∷ "EncryptedData" ∷ "SyncStatus" ∷ "HubModifiedAt" ∷ "BearRaw"
    ∷ "PendingBearTitle" ∷ "PendingBearBody" ∷ "ExpectedBearModifiedAt" ∷ []

abbrev pub to_note : Row → Note
to_note s = record {
  id = string_of (s "ID");
  bear_id = nullable_of (s "BearID");
  title = string_of (s "Title");
  subtitle = string_of (s "Subtitle");
  body = string_of (s "Body");
  flags = record {
    archived = int_of (s "Archived");
    encrypted = int_of (s "Encrypted");
    has_files = int_of (s "HasFiles");
    has_images = int_of (s "HasImages");
    has_source_code = int_of (s "HasSourceCode");
    locked = int_of (s "Locked");
    pinned = int_of (s "Pinned");
    shown_in_today = int_of (s "ShownInToday");
    trashed = int_of (s "Trashed");
    permanently_deleted = int_of (s "PermanentlyDeleted");
    skip_sync = int_of (s "SkipSync");
    todo_completed = int_of (s "TodoCompleted");
    todo_incompleted = int_of (s "TodoIncompleted");
    version = int_of (s "Version");
  };
  dates = record {
    created_at = string_of (s "CreatedAt");
    modified_at = string_of (s "ModifiedAt");
    archived_at = string_of (s "ArchivedAt");
    encrypted_at = string_of (s "EncryptedAt");
    locked_at = string_of (s "LockedAt");
    pinned_at = string_of (s "PinnedAt");
    trashed_at = string_of (s "TrashedAt");
    order_date = string_of (s "OrderDate");
    conflict_id_date = string_of (s "ConflictIDDate");
  };
  info = record {
    last_editing_device = string_of (s "LastEditingDevice");
    conflict_id = string_of (s "ConflictID");
    encryption_id = string_of (s "EncryptionID");
    encrypted_data = bytes_of (s "EncryptedData");
  };
  sync_status = status_of (s "SyncStatus");
  hub_modified_at = string_of (s "HubModifiedAt");
  bear_raw = string_of (s "BearRaw");
  pending_bear_title = nullable_of (s "PendingBearTitle");
  pending_bear_body = nullable_of (s "PendingBearBody");
  expected_bear_modified_at = nullable_of (s "ExpectedBearModifiedAt");
}

abbrev pub note_values : Note → List Value
note_values x =
    text x.id
    ∷ nullable x.bear_id
    ∷ text x.title
    ∷ text x.subtitle
    ∷ text x.body
    ∷ integer x.archived
    ∷ integer x.encrypted
    ∷ integer x.has_files
    ∷ integer x.has_images
    ∷ integer x.has_source_code
    ∷ integer x.locked
    ∷ integer x.pinned
    ∷ integer x.shown_in_today
    ∷ integer x.trashed
    ∷ integer x.permanently_deleted
    ∷ integer x.skip_sync
    ∷ integer x.todo_completed
    ∷ integer x.todo_incompleted
    ∷ integer x.version
    ∷ text x.created_at
    ∷ text x.modified_at
    ∷ text x.archived_at
    ∷ text x.encrypted_at
    ∷ text x.locked_at
    ∷ text x.pinned_at
    ∷ text x.trashed_at
    ∷ text x.order_date
    ∷ text x.conflict_id_date
    ∷ text x.last_editing_device
    ∷ text x.conflict_id
    ∷ text x.encryption_id
    ∷ blob x.encrypted_data
    ∷ status_value x.sync_status
    ∷ text x.hub_modified_at
    ∷ text x.bear_raw
    ∷ nullable x.pending_bear_title
    ∷ nullable x.pending_bear_body
    ∷ nullable x.expected_bear_modified_at
    ∷ []

unfoldable pub insert_note_row : Note → Row
insert_note_row x = set_columns note_insert_columns (note_values x) null_row

unfoldable pub update_note_row : Note → Row → Row
update_note_row x row = set_columns note_update_columns (without_first (note_values x)) row

unfoldable pub scan_note : Row → Note
scan_note row = to_note (set_columns note_dest (read_columns note_column_list row) null_row)

-- A note whose status is one that the column can tell, inserted, or saved over a row with its id,
-- is read back as it was.
pub scan_note_round :
    (x : Note) (old : Row)
    → status_of (status_value x.sync_status) ≡ x.sync_status
    → old "id" ≡ text x.id
    → (scan_note (insert_note_row x) ≡ x) × (scan_note (update_note_row x old) ≡ x)
unfolding insert_note_row update_note_row scan_note
scan_note_round x old status same = (
  rw
      (
        nullable_round x.bear_id,
        nullable_round x.pending_bear_title,
        nullable_round x.pending_bear_body,
        nullable_round x.expected_bear_modified_at,
        status,
      )
      refl,
  rw
      (
        same,
        nullable_round x.bear_id,
        nullable_round x.pending_bear_title,
        nullable_round x.pending_bear_body,
        nullable_round x.expected_bear_modified_at,
        status,
      )
      refl,
)
