-- ===== src/BearDb/Queries.antt =====
-- The queries of internal/beardb/sqlite.go as functions of the tables, and `BearDB` filled with them:
-- each query fails, or it reads the tables as they are at its moment. The column of ids is a text:
-- what else it held would read as NULL.
use bear_sync.Prelude.{ℕ, String, Bool, ◌&&◌, List, [], ◌∷◌, map, select_all}
use bear_sync.Store.Scan.Values.{Row, string_of, nullable_of}
use bear_sync.Mapper.BearRows.{BearNoteRow, BearTagRow, BearAttachmentRow, BearBacklinkRow}
use bear_sync.Bridge.Bear.{Fallible, gives}
use bear_sync.Bridge.Junction.{BearPair}
use bear_sync.Bridge.Reads.{BearReads, ◌>>=◌}
use bear_sync.BearDb.Tables.{
  BearTables, modified_since, is_listed, is_text, joined_with, left_joined_with, flat_map, Joined,
  beside,
}
use bear_sync.BearDb.NoteColumns.{scan_bear_note}
use bear_sync.BearDb.TagColumns.{scan_bear_tag}
use bear_sync.BearDb.AttachmentColumns.{scan_bear_attachment}
use bear_sync.BearDb.BacklinkColumns.{scan_bear_backlink}

unfoldable pub notes : BearTables → ℕ → List BearNoteRow
unfolding scan_bear_note modified_since
notes db t = map scan_bear_note (select_all (modified_since t) db.zsfnote)

unfoldable pub tags : BearTables → ℕ → List BearTagRow
unfolding scan_bear_tag modified_since
tags db t = map scan_bear_tag (select_all (modified_since t) db.zsfnotetag)

-- ZSFNOTEFILE f LEFT JOIN ZSFNOTE n ON f.ZNOTE = n.Z_PK
abbrev pub files_with_notes : BearTables → List Joined
files_with_notes db =
    flat_map
      (λ f. map (λ n. beside (("f", f) ∷ ("n", n) ∷ [])) (left_joined_with (f "ZNOTE") db.zsfnote))
      db.zsfnotefile

unfoldable pub attachments : BearTables → ℕ → List BearAttachmentRow
unfolding scan_bear_attachment modified_since
attachments db t =
    map scan_bear_attachment (select_all (λ row. modified_since t (row "f")) (files_with_notes db))

-- The `len(uuids) == 0` of the queries with an IN.
abbrev pub unless_empty {ℓ} : {A : Type ℓ} → List String → Fallible (List A) → Fallible (List A)
unless_empty [] query = gives []
unless_empty (u ∷ uuids) query = query

unfoldable pub attachments_listed : BearTables → List String → List BearAttachmentRow
unfolding scan_bear_attachment
attachments_listed db uuids = map scan_bear_attachment (
    select_all (λ row. is_listed (nullable_of (row "f" "ZUNIQUEIDENTIFIER")) uuids)
      (files_with_notes db))

unfoldable pub attachments_by_uuids :
    Fallible BearTables → List String → Fallible (List BearAttachmentRow)
unfolding attachments_listed
attachments_by_uuids answer uuids =
    unless_empty uuids (answer >>= λ db. gives (attachments_listed db uuids))

-- ZSFNOTEBACKLINK b with the notes of ZLINKEDBY and ZLINKINGTO
abbrev pub backlinks_with_notes : BearTables → List Joined
backlinks_with_notes db =
    flat_map
      (λ b.
        flat_map
          (λ nb.
            map (λ nt. beside (("b", b) ∷ ("nb", nb) ∷ ("nt", nt) ∷ []))
              (left_joined_with (b "ZLINKINGTO") db.zsfnote))
          (left_joined_with (b "ZLINKEDBY") db.zsfnote))
      db.zsfnotebacklink

unfoldable pub backlinks : BearTables → ℕ → List BearBacklinkRow
unfolding scan_bear_backlink modified_since
backlinks db t =
    map scan_bear_backlink
      (select_all (λ row. modified_since t (row "b")) (backlinks_with_notes db))

-- A table of pairs of keys, of which `note_key` and `tag_key` are the columns, joined with the notes
-- and the tags.
abbrev pub pairs_joined : String → String → List Row → BearTables → List Joined
pairs_joined note_key tag_key table db =
    flat_map
      (λ j.
        flat_map
          (λ n.
            map (λ t. beside (("j", j) ∷ ("n", n) ∷ ("t", t) ∷ []))
              (joined_with (j tag_key) db.zsfnotetag))
          (joined_with (j note_key) db.zsfnote))
      table

abbrev pub tagged : BearTables → List Joined
tagged db = pairs_joined "Z_5NOTES" "Z_13TAGS" db.z_5tags db

abbrev pub pinned_in : BearTables → List Joined
pinned_in db = pairs_joined "Z_5PINNEDNOTES" "Z_13PINNEDINTAGS" db.z_5pinnedintags db

-- `queryJunction`: the pairs of ids of the rows that the WHERE selects.
unfoldable pub query_junction : (Joined → Bool) → List Joined → List BearPair
query_junction p rows =
    map
      (λ row. record {
        note_uuid = string_of (row "n" "ZUNIQUEIDENTIFIER");
        tag_uuid = string_of (row "t" "ZUNIQUEIDENTIFIER");
      })
      (select_all p rows)

abbrev pub both_named : Joined → Bool
both_named row = is_text (row "n" "ZUNIQUEIDENTIFIER") && is_text (row "t" "ZUNIQUEIDENTIFIER")

abbrev pub of_notes : List String → Joined → Bool
of_notes uuids row =
    is_listed (nullable_of (row "n" "ZUNIQUEIDENTIFIER")) uuids
    && is_text (row "t" "ZUNIQUEIDENTIFIER")

unfoldable pub note_tags : BearTables → List BearPair
unfolding query_junction
note_tags db = query_junction both_named (tagged db)

unfoldable pub pinned_note_tags : BearTables → List BearPair
unfolding query_junction
pinned_note_tags db = query_junction both_named (pinned_in db)

-- The queries for the pairs of some notes.
unfoldable pub pairs_listed : List Joined → List String → List BearPair
unfolding query_junction
pairs_listed rows uuids = query_junction (of_notes uuids) rows

unfoldable pub note_tags_for_notes : Fallible BearTables → List String → Fallible (List BearPair)
unfolding pairs_listed
note_tags_for_notes answer uuids =
    unless_empty uuids (answer >>= λ db. gives (pairs_listed (tagged db) uuids))

unfoldable pub pinned_note_tags_for_notes :
    Fallible BearTables → List String → Fallible (List BearPair)
unfolding pairs_listed
pinned_note_tags_for_notes answer uuids =
    unless_empty uuids (answer >>= λ db. gives (pairs_listed (pinned_in db) uuids))

-- `queryUUIDs` on each table
unfoldable pub query_uuids : List Row → List String
query_uuids table =
    map (λ row. string_of (row "ZUNIQUEIDENTIFIER"))
      (select_all (λ row. is_text (row "ZUNIQUEIDENTIFIER")) table)

-- The `BearDB` of a database whose query `q` answers `answer q`.
unfoldable pub bear_db : (String → Fallible BearTables) → BearReads
unfolding notes tags attachments attachments_by_uuids backlinks note_tags pinned_note_tags
    note_tags_for_notes pinned_note_tags_for_notes query_uuids
bear_db answer = record {
  notes = λ t. answer "notes" >>= λ db. gives (notes db t);
  tags = λ t. answer "tags" >>= λ db. gives (tags db t);
  attachments = λ t. answer "attachments" >>= λ db. gives (attachments db t);
  attachments_by_uuids = attachments_by_uuids (answer "attachments by uuids");
  backlinks = λ t. answer "backlinks" >>= λ db. gives (backlinks db t);
  note_tags = answer "note tags" >>= λ db. gives (note_tags db);
  pinned_note_tags = answer "pinned note tags" >>= λ db. gives (pinned_note_tags db);
  note_tags_for_notes = note_tags_for_notes (answer "note tags for notes");
  pinned_note_tags_for_notes = pinned_note_tags_for_notes (answer "pinned note tags for notes");
  all_note_uuids = answer "note uuids" >>= λ db. gives (query_uuids db.zsfnote);
  all_tag_uuids = answer "tag uuids" >>= λ db. gives (query_uuids db.zsfnotetag);
  all_attachment_uuids = answer "attachment uuids" >>= λ db. gives (query_uuids db.zsfnotefile);
  all_backlink_uuids = answer "backlink uuids" >>= λ db. gives (query_uuids db.zsfnotebacklink);
}
