-- ===== src/Store/Scan/BacklinkScan.antt =====
-- The columns of `Backlink` of internal/store/scan.go and internal/store/sqlite.go: how a row is
-- written and read back.
use bear_sync.Prelude.{String, List, [], ◌∷◌, ◌≡◌, refl}
use bear_sync.Models.Backlink.{Backlink}
use bear_sync.Store.Scan.Values.{
  Value, text, integer, nullable, string_of, int_of, nullable_of, Row, null_row, set_columns,
  read_columns, without_first, nullable_round,
}

abbrev pub backlink_column_list : List String
backlink_column_list =
    "id" ∷ "bear_id" ∷ "linked_by_id" ∷ "linking_to_id" ∷ "title" ∷ "location" ∷ "version"
    ∷ "modified_at" ∷ "bear_raw" ∷ []

-- The columns of the INSERT, and those of the SET of the UPDATE.
abbrev pub backlink_insert_columns : List String
backlink_insert_columns =
    "id" ∷ "bear_id" ∷ "linked_by_id" ∷ "linking_to_id" ∷ "title" ∷ "location" ∷ "version"
    ∷ "modified_at" ∷ "bear_raw" ∷ []

abbrev pub backlink_update_columns : List String
backlink_update_columns =
    "bear_id" ∷ "linked_by_id" ∷ "linking_to_id" ∷ "title" ∷ "location" ∷ "version" ∷ "modified_at"
    ∷ "bear_raw" ∷ []

-- The fields of the scanner in the order of `dest`.
abbrev pub backlink_dest : List String
backlink_dest =
    "ID" ∷ "BearID" ∷ "LinkedByID" ∷ "LinkingToID" ∷ "Title" ∷ "Location" ∷ "Version" ∷ "ModifiedAt"
    ∷ "BearRaw" ∷ []

abbrev pub to_backlink : Row → Backlink
to_backlink s = record {
  id = string_of (s "ID");
  bear_id = nullable_of (s "BearID");
  linked_by_id = string_of (s "LinkedByID");
  linking_to_id = string_of (s "LinkingToID");
  title = string_of (s "Title");
  location = int_of (s "Location");
  version = int_of (s "Version");
  modified_at = string_of (s "ModifiedAt");
  bear_raw = string_of (s "BearRaw");
}

abbrev pub backlink_values : Backlink → List Value
backlink_values x =
    text x.id
    ∷ nullable x.bear_id
    ∷ text x.linked_by_id
    ∷ text x.linking_to_id
    ∷ text x.title
    ∷ integer x.location
    ∷ integer x.version
    ∷ text x.modified_at
    ∷ text x.bear_raw
    ∷ []

unfoldable pub insert_backlink_row : Backlink → Row
insert_backlink_row x = set_columns backlink_insert_columns (backlink_values x) null_row

unfoldable pub update_backlink_row : Backlink → Row → Row
update_backlink_row x row =
    set_columns backlink_update_columns (without_first (backlink_values x)) row

unfoldable pub scan_backlink : Row → Backlink
scan_backlink row =
    to_backlink (set_columns backlink_dest (read_columns backlink_column_list row) null_row)

-- x
pub scan_backlink_round :
    (x : Backlink) (old : Row)
    → old "id" ≡ text x.id
    → (scan_backlink (insert_backlink_row x) ≡ x) × (scan_backlink (update_backlink_row x old) ≡ x)
unfolding insert_backlink_row update_backlink_row scan_backlink
scan_backlink_round x old same =
    (rw (nullable_round x.bear_id) refl, rw (same, nullable_round x.bear_id) refl)
