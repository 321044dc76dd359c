-- ===== src/Store/Scan/TagScan.antt =====
-- The columns of `Tag` of internal/store/scan.go and internal/store/sqlite.go: how a row is written
-- and read back.
use bear_sync.Prelude.{String, List, [], ◌∷◌, ◌≡◌, refl}
use bear_sync.Models.Tag.{Tag}
use bear_sync.Store.Scan.Values.{
  Value, text, integer, nullable, string_of, int_of, nullable_of, Row, null_row, set_columns,
  read_columns, without_first, nullable_round,
}

abbrev pub tag_column_list : List String
tag_column_list =
    "id" ∷ "bear_id" ∷ "title" ∷ "pinned" ∷ "is_root" ∷ "hide_subtags_notes" ∷ "sorting"
    ∷ "sorting_direction" ∷ "encrypted" ∷ "version" ∷ "modified_at" ∷ "pinned_at"
    ∷ "pinned_notes_at" ∷ "encrypted_at" ∷ "hide_subtags_notes_at" ∷ "sorting_at"
    ∷ "sorting_direction_at" ∷ "tag_con_date" ∷ "tag_con" ∷ "bear_raw" ∷ []

-- The columns of the INSERT, and those of the SET of the UPDATE.
abbrev pub tag_insert_columns : List String
tag_insert_columns =
    "id" ∷ "bear_id" ∷ "title" ∷ "pinned" ∷ "is_root" ∷ "hide_subtags_notes" ∷ "sorting"
    ∷ "sorting_direction" ∷ "encrypted" ∷ "version" ∷ "modified_at" ∷ "pinned_at"
    ∷ "pinned_notes_at" ∷ "encrypted_at" ∷ "hide_subtags_notes_at" ∷ "sorting_at"
    ∷ "sorting_direction_at" ∷ "tag_con_date" ∷ "tag_con" ∷ "bear_raw" ∷ []

abbrev pub tag_update_columns : List String
tag_update_columns =
    "bear_id" ∷ "title" ∷ "pinned" ∷ "is_root" ∷ "hide_subtags_notes" ∷ "sorting"
    ∷ "sorting_direction" ∷ "encrypted" ∷ "version" ∷ "modified_at" ∷ "pinned_at"
    ∷ "pinned_notes_at" ∷ "encrypted_at" ∷ "hide_subtags_notes_at" ∷ "sorting_at"
    ∷ "sorting_direction_at" ∷ "tag_con_date" ∷ "tag_con" ∷ "bear_raw" ∷ []

-- The fields of the scanner in the order of `dest`.
abbrev pub tag_dest : List String
tag_dest =
    "ID" ∷ "BearID" ∷ "Title" ∷ "Pinned" ∷ "IsRoot" ∷ "HideSubtagsNotes" ∷ "Sorting"
    ∷ "SortingDirection" ∷ "Encrypted" ∷ "Version" ∷ "ModifiedAt" ∷ "PinnedAt" ∷ "PinnedNotesAt"
    ∷ "EncryptedAt" ∷ "HideSubtagsNotesAt" ∷ "SortingAt" ∷ "SortingDirectionAt" ∷ "TagConDate"
    ∷ "TagCon" ∷ "BearRaw" ∷ []

abbrev pub to_tag : Row → Tag
to_tag s = record {
  id = string_of (s "ID");
  bear_id = nullable_of (s "BearID");
  title = string_of (s "Title");
  info = record {
    pinned = int_of (s "Pinned");
    is_root = int_of (s "IsRoot");
    hide_subtags_notes = int_of (s "HideSubtagsNotes");
    sorting = int_of (s "Sorting");
    sorting_direction = int_of (s "SortingDirection");
    encrypted = int_of (s "Encrypted");
    version = int_of (s "Version");
    modified_at = string_of (s "ModifiedAt");
    pinned_at = string_of (s "PinnedAt");
    pinned_notes_at = string_of (s "PinnedNotesAt");
    encrypted_at = string_of (s "EncryptedAt");
    hide_subtags_notes_at = string_of (s "HideSubtagsNotesAt");
    sorting_at = string_of (s "SortingAt");
    sorting_direction_at = string_of (s "SortingDirectionAt");
    tag_con_date = string_of (s "TagConDate");
    tag_con = string_of (s "TagCon");
  };
  bear_raw = string_of (s "BearRaw");
}

abbrev pub tag_values : Tag → List Value
tag_values x =
    text x.id
    ∷ nullable x.bear_id
    ∷ text x.title
    ∷ integer x.info.pinned
    ∷ integer x.info.is_root
    ∷ integer x.info.hide_subtags_notes
    ∷ integer x.info.sorting
    ∷ integer x.info.sorting_direction
    ∷ integer x.info.encrypted
    ∷ integer x.info.version
    ∷ text x.info.modified_at
    ∷ text x.info.pinned_at
    ∷ text x.info.pinned_notes_at
    ∷ text x.info.encrypted_at
    ∷ text x.info.hide_subtags_notes_at
    ∷ text x.info.sorting_at
    ∷ text x.info.sorting_direction_at
    ∷ text x.info.tag_con_date
    ∷ text x.info.tag_con
    ∷ text x.bear_raw
    ∷ []

unfoldable pub insert_tag_row : Tag → Row
insert_tag_row x = set_columns tag_insert_columns (tag_values x) null_row

unfoldable pub update_tag_row : Tag → Row → Row
update_tag_row x row = set_columns tag_update_columns (without_first (tag_values x)) row

unfoldable pub scan_tag : Row → Tag
scan_tag row = to_tag (set_columns tag_dest (read_columns tag_column_list row) null_row)

-- x
pub scan_tag_round :
    (x : Tag) (old : Row)
    → old "id" ≡ text x.id
    → (scan_tag (insert_tag_row x) ≡ x) × (scan_tag (update_tag_row x old) ≡ x)
unfolding insert_tag_row update_tag_row scan_tag
scan_tag_round x old same =
    (rw (nullable_round x.bear_id) refl, rw (same, nullable_round x.bear_id) refl)
