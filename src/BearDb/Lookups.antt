-- ===== src/BearDb/Lookups.antt =====
-- What internal/beardb/sqlite.go answers the write queue: a note by its id, the titles of its tags,
-- the names of its files, and the notes of a title that were created after a moment.
use bear_sync.Prelude.{
  String, Bool, false, ◌&&◌, ◌||◌, none, some, Option, List, [], ◌∷◌, ltb, nat_eq, map, select,
  select_all, matches, if◌then◌else◌,
}
use bear_sync.Store.Scan.Values.{Row, string_of, nullable_of, real_of, int_of}
use bear_sync.Mapper.Date.{CoreDate}
use bear_sync.Bridge.Bear.{Problem, Fallible, fails, gives, NoteBasicInfo}
use bear_sync.Bridge.Reads.{◌>>=◌}
use bear_sync.BearDb.Tables.{BearTables, is_text, joined_with, flat_map, Joined, beside}
use bear_sync.BearDb.Queries.{tagged}

abbrev pub or_zero : Option CoreDate → CoreDate
or_zero none = record { seconds = 0; nanos = 0 }
or_zero (some d) = d

-- The fields that are NULL keep Go's zero values.
abbrev pub basic_info : Row → NoteBasicInfo
basic_info row = record {
  uuid = string_of (row "ZUNIQUEIDENTIFIER");
  title = string_of (row "ZTITLE");
  body = string_of (row "ZTEXT");
  modified_at = or_zero (real_of (row "ZMODIFICATIONDATE"));
  trashed = int_of (row "ZTRASHED");
  archived = int_of (row "ZARCHIVED");
}

abbrev pub first_info : Option Row → Option NoteBasicInfo
first_info none = none
first_info (some row) = some (basic_info row)

abbrev pub has_uuid : String → Row → Bool
has_uuid uuid row = matches (nullable_of (row "ZUNIQUEIDENTIFIER")) uuid

unfoldable pub note_by_uuid : Fallible BearTables → String → Fallible (Option NoteBasicInfo)
note_by_uuid answer uuid = answer >>= λ db. gives (first_info (select (has_uuid uuid) db.zsfnote))

unfoldable pub note_tag_titles : Fallible BearTables → String → Fallible (List String)
note_tag_titles answer uuid = do
  db ← answer
  gives (
      map (λ (row : Joined). string_of (row "t" "ZTITLE"))
        (select_all (λ row. has_uuid uuid (row "n") && is_text (row "t" "ZTITLE")) (tagged db)))

-- ZSFNOTEFILE f JOIN ZSFNOTE n ON f.ZNOTE = n.Z_PK
abbrev pub files_of_notes : BearTables → List Joined
files_of_notes db =
    flat_map
      (λ f. map (λ n. beside (("f", f) ∷ ("n", n) ∷ [])) (joined_with (f "ZNOTE") db.zsfnote))
      db.zsfnotefile

abbrev pub is_kept_file : String → Joined → Bool
is_kept_file uuid row =
    has_uuid uuid (row "n")
    && is_text (row "f" "ZFILENAME")
    && nat_eq (int_of (row "f" "ZPERMANENTLYDELETED")) 0

unfoldable pub note_attachment_filenames : Fallible BearTables → String → Fallible (List String)
note_attachment_filenames answer uuid = do
  db ← answer
  gives (
      map (λ (row : Joined). string_of (row "f" "ZFILENAME"))
        (select_all (is_kept_file uuid) (files_of_notes db)))

abbrev pub is_after : CoreDate → Option CoreDate → Bool
is_after t none = false
is_after t (some d) = ltb t.seconds d.seconds || (nat_eq t.seconds d.seconds && ltb t.nanos d.nanos)

-- The loop over the rows: an id that is NULL cannot be scanned into a string, and the column
-- ZARCHIVED is not read.
unfoldable pub scan_infos : Problem → List Row → Fallible (List NoteBasicInfo)
scan_infos null_id [] = gives []
scan_infos null_id (row ∷ rows) =
    let rest = scan_infos null_id rows in
    if is_text (row "ZUNIQUEIDENTIFIER")
    then (rest >>= λ infos. gives (record (basic_info row) { archived = 0 } ∷ infos))
    else fails null_id

unfoldable pub find_recent_notes_by_title :
    Problem → Fallible BearTables → String → CoreDate → Fallible (List NoteBasicInfo)
unfolding scan_infos
find_recent_notes_by_title null_id answer title created_after = do
  db ← answer
  scan_infos null_id (
      select_all
        (λ row.
          matches (nullable_of (row "ZTITLE")) title
          && is_after created_after (real_of (row "ZCREATIONDATE")))
        db.zsfnote)
