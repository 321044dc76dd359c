-- ===== src/Store/Scan/AttachmentScan.antt =====
-- The columns of `Attachment` of internal/store/scan.go and internal/store/sqlite.go: how a row is
-- written and read back.
use bear_sync.Prelude.{String, List, [], ◌∷◌, ◌≡◌, refl}
use bear_sync.Models.Attachment.{Attachment}
use bear_sync.Store.Scan.Values.{
  Value, text, integer, blob, nullable, string_of, int_of, nullable_of, bytes_of, Row, null_row,
  set_columns, read_columns, without_first, nullable_round,
}

abbrev pub attachment_column_list : List String
attachment_column_list =
    "id" ∷ "bear_id" ∷ "note_id" ∷ "type" ∷ "filename" ∷ "normalized_extension" ∷ "file_size"
    ∷ "file_index" ∷ "width" ∷ "height" ∷ "animated" ∷ "duration" ∷ "width1" ∷ "height1"
    ∷ "downloaded" ∷ "encrypted" ∷ "permanently_deleted" ∷ "skip_sync" ∷ "unused" ∷ "uploaded"
    ∷ "version" ∷ "created_at" ∷ "modified_at" ∷ "inserted_at" ∷ "encrypted_at" ∷ "unused_at"
    ∷ "uploaded_at" ∷ "search_text_at" ∷ "last_editing_device" ∷ "encryption_id" ∷ "search_text"
    ∷ "encrypted_data" ∷ "file_path" ∷ "bear_raw" ∷ []

-- The columns of the INSERT, and those of the SET of the UPDATE.
abbrev pub attachment_insert_columns : List String
attachment_insert_columns =
    "id" ∷ "bear_id" ∷ "note_id" ∷ "type" ∷ "filename" ∷ "normalized_extension" ∷ "file_size"
    ∷ "file_index" ∷ "width" ∷ "height" ∷ "animated" ∷ "duration" ∷ "width1" ∷ "height1"
    ∷ "downloaded" ∷ "encrypted" ∷ "permanently_deleted" ∷ "skip_sync" ∷ "unused" ∷ "uploaded"
    ∷ "version" ∷ "created_at" ∷ "modified_at" ∷ "inserted_at" ∷ "encrypted_at" ∷ "unused_at"
    ∷ "uploaded_at" ∷ "search_text_at" ∷ "last_editing_device" ∷ "encryption_id" ∷ "search_text"
    ∷ "encrypted_data" ∷ "file_path" ∷ "bear_raw" ∷ []

abbrev pub attachment_update_columns : List String
attachment_update_columns =
    "bear_id" ∷ "note_id" ∷ "type" ∷ "filename" ∷ "normalized_extension" ∷ "file_size"
    ∷ "file_index" ∷ "width" ∷ "height" ∷ "animated" ∷ "duration" ∷ "width1" ∷ "height1"
    ∷ "downloaded" ∷ "encrypted" ∷ "permanently_deleted" ∷ "skip_sync" ∷ "unused" ∷ "uploaded"
    ∷ "version" ∷ "created_at" ∷ "modified_at" ∷ "inserted_at" ∷ "encrypted_at" ∷ "unused_at"
    ∷ "uploaded_at" ∷ "search_text_at" ∷ "last_editing_device" ∷ "encryption_id" ∷ "search_text"
    ∷ "encrypted_data" ∷ "file_path" ∷ "bear_raw" ∷ []

-- The fields of the scanner in the order of `dest`.
abbrev pub attachment_dest : List String
attachment_dest =
    "ID" ∷ "BearID" ∷ "NoteID" ∷ "Type" ∷ "Filename" ∷ "NormalizedExtension" ∷ "FileSize"
    ∷ "FileIndex" ∷ "Width" ∷ "Height" ∷ "Animated" ∷ "Duration" ∷ "Width1" ∷ "Height1"
    ∷ "Downloaded" ∷ "Encrypted" ∷ "PermanentlyDeleted" ∷ "SkipSync" ∷ "Unused" ∷ "Uploaded"
    ∷ "Version" ∷ "CreatedAt" ∷ "ModifiedAt" ∷ "InsertedAt" ∷ "EncryptedAt" ∷ "UnusedAt"
    ∷ "UploadedAt" ∷ "SearchTextAt" ∷ "LastEditingDevice" ∷ "EncryptionID" ∷ "SearchText"
    ∷ "EncryptedData" ∷ "FilePath" ∷ "BearRaw" ∷ []

abbrev pub to_attachment : Row → Attachment
to_attachment s = record {
  id = string_of (s "ID");
  bear_id = nullable_of (s "BearID");
  note_id = string_of (s "NoteID");
  type = string_of (s "Type");
  filename = string_of (s "Filename");
  encrypted = int_of (s "Encrypted");
  permanently_deleted = int_of (s "PermanentlyDeleted");
  info = record {
    normalized_extension = string_of (s "NormalizedExtension");
    file_size = int_of (s "FileSize");
    file_index = int_of (s "FileIndex");
    width = int_of (s "Width");
    height = int_of (s "Height");
    animated = int_of (s "Animated");
    duration = int_of (s "Duration");
    width1 = int_of (s "Width1");
    height1 = int_of (s "Height1");
    downloaded = int_of (s "Downloaded");
    skip_sync = int_of (s "SkipSync");
    unused = int_of (s "Unused");
    uploaded = int_of (s "Uploaded");
    version = int_of (s "Version");
    created_at = string_of (s "CreatedAt");
    modified_at = string_of (s "ModifiedAt");
    inserted_at = string_of (s "InsertedAt");
    encrypted_at = string_of (s "EncryptedAt");
    unused_at = string_of (s "UnusedAt");
    uploaded_at = string_of (s "UploadedAt");
    search_text_at = string_of (s "SearchTextAt");
    last_editing_device = string_of (s "LastEditingDevice");
    encryption_id = string_of (s "EncryptionID");
    search_text = string_of (s "SearchText");
    encrypted_data = bytes_of (s "EncryptedData");
  };
  file_path = string_of (s "FilePath");
  bear_raw = string_of (s "BearRaw");
}

abbrev pub attachment_values : Attachment → List Value
attachment_values x =
    text x.id
    ∷ nullable x.bear_id
    ∷ text x.note_id
    ∷ text x.type
    ∷ text x.filename
    ∷ text x.info.normalized_extension
    ∷ integer x.info.file_size
    ∷ integer x.info.file_index
    ∷ integer x.info.width
    ∷ integer x.info.height
    ∷ integer x.info.animated
    ∷ integer x.info.duration
    ∷ integer x.info.width1
    ∷ integer x.info.height1
    ∷ integer x.info.downloaded
    ∷ integer x.encrypted
    ∷ integer x.permanently_deleted
    ∷ integer x.info.skip_sync
    ∷ integer x.info.unused
    ∷ integer x.info.uploaded
    ∷ integer x.info.version
    ∷ text x.info.created_at
    ∷ text x.info.modified_at
    ∷ text x.info.inserted_at
    ∷ text x.info.encrypted_at
    ∷ text x.info.unused_at
    ∷ text x.info.uploaded_at
    ∷ text x.info.search_text_at
    ∷ text x.info.last_editing_device
    ∷ text x.info.encryption_id
    ∷ text x.info.search_text
    ∷ blob x.info.encrypted_data
    ∷ text x.file_path
    ∷ text x.bear_raw
    ∷ []

unfoldable pub insert_attachment_row : Attachment → Row
insert_attachment_row x = set_columns attachment_insert_columns (attachment_values x) null_row

unfoldable pub update_attachment_row : Attachment → Row → Row
update_attachment_row x row =
    set_columns attachment_update_columns (without_first (attachment_values x)) row

unfoldable pub scan_attachment : Row → Attachment
scan_attachment row =
    to_attachment (set_columns attachment_dest (read_columns attachment_column_list row) null_row)

-- x
pub scan_attachment_round :
    (x : Attachment) (old : Row)
    → old "id" ≡ text x.id
    → (scan_attachment (insert_attachment_row x) ≡ x)
      × (scan_attachment (update_attachment_row x old) ≡ x)
unfolding insert_attachment_row update_attachment_row scan_attachment
scan_attachment_round x old same =
    (rw (nullable_round x.bear_id) refl, rw (same, nullable_round x.bear_id) refl)
