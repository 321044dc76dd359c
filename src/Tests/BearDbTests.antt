-- ===== src/Tests/BearDbTests.antt =====
-- Bear's tables at a concrete moment, and what the bridge reads from them.
use bear_sync.Prelude.{String, List, [], ◌∷◌, ◌≡◌, refl, select_all}
use bear_sync.Models.Sync.{SyncPushRequest}
use bear_sync.Store.Scan.Values.{Value, integer, text, real, Row, null_row, set_columns}
use bear_sync.Mapper.BearRows.{BearNoteRow, BearTagRow}
use bear_sync.Bridge.Bear.{gives}
use bear_sync.Bridge.Junction.{member, extract_uuids}
use bear_sync.Bridge.Reads.{BearReads}
use bear_sync.Bridge.Delta.{build_delta_push}
use bear_sync.BearDb.Tables.{BearTables}
use bear_sync.BearDb.Queries.{
  notes, tags, attachments, backlinks, note_tags, pinned_note_tags, bear_db,
}
use bear_sync.BearDb.Restrict.{is_recent, is_asked, bear_db_restrict}
use bear_sync.BearDb.Carried.{carries, holds, build_delta_push-carries}
use bear_sync.Tests.SyncTests.{rendering, loaded, sent}

abbrev row_of : List String → List Value → Row
row_of columns values = set_columns columns values null_row

abbrev note_row : Value → Value → Value → Row
note_row key uuid date =
    row_of ("Z_PK" ∷ "ZUNIQUEIDENTIFIER" ∷ "ZMODIFICATIONDATE" ∷ []) (key ∷ uuid ∷ date ∷ [])

-- Two notes, of which the second changed after the second 10, one tag on both, and a file.
abbrev pub bear_tables : BearTables
bear_tables = record {
  zsfnote =
      note_row (integer 1) (text "B1") (real (record { seconds = 5; nanos = 0 }))
      ∷ note_row (integer 2) (text "B2") (real (record { seconds = 12; nanos = 500 }))
      ∷ [];
  zsfnotetag = row_of ("Z_PK" ∷ "ZUNIQUEIDENTIFIER" ∷ []) (integer 7 ∷ text "T1" ∷ []) ∷ [];
  zsfnotefile =
      row_of ("Z_PK" ∷ "ZUNIQUEIDENTIFIER" ∷ "ZNOTE" ∷ []) (integer 4 ∷ text "A1" ∷ integer 2 ∷ [])
      ∷ [];
  zsfnotebacklink = [];
  z_5tags =
      row_of ("Z_5NOTES" ∷ "Z_13TAGS" ∷ []) (integer 1 ∷ integer 7 ∷ [])
      ∷ row_of ("Z_5NOTES" ∷ "Z_13TAGS" ∷ []) (integer 2 ∷ integer 7 ∷ [])
      ∷ [];
  z_5pinnedintags = [];
}

abbrev reads : BearReads
unfolding bear_db
reads = bear_db (λ query. gives bear_tables)

second_pair :
    note_tags bear_tables
    ≡ record { note_uuid = "B1"; tag_uuid = "T1" }
      ∷ record { note_uuid = "B2"; tag_uuid = "T1" }
      ∷ []
unfolding note_tags
second_pair = refl

bear_db_restrict_example :
    let uuids : List String = "B2" ∷ [] in
    let reads = bear_db (λ query. gives bear_tables) in
    (reads.notes 10
      ≡ gives (select_all (λ n. is_recent 10 n.zmodificationdate) (notes bear_tables 0)))
    × (reads.tags 10
        ≡ gives (select_all (λ g. is_recent 10 g.zmodificationdate) (tags bear_tables 0)))
    × (reads.attachments 10
        ≡ gives (select_all (λ a. is_recent 10 a.zmodificationdate) (attachments bear_tables 0)))
    × (reads.backlinks 10
        ≡ gives (select_all (λ b. is_recent 10 b.zmodificationdate) (backlinks bear_tables 0)))
    × (reads.attachments_by_uuids uuids
        ≡ gives (select_all (λ a. is_asked uuids a.zuniqueidentifier) (attachments bear_tables 0)))
    × (reads.note_tags_for_notes uuids
        ≡ gives (select_all (λ p. member p.note_uuid uuids) (note_tags bear_tables)))
    × (reads.pinned_note_tags_for_notes uuids
        ≡ gives (select_all (λ p. member p.note_uuid uuids) (pinned_note_tags bear_tables)))
    × (reads.all_note_uuids
        ≡ gives (extract_uuids (λ (n : BearNoteRow). n.zuniqueidentifier) (notes bear_tables 0)))
    × (reads.all_tag_uuids
        ≡ gives (extract_uuids (λ (g : BearTagRow). g.zuniqueidentifier) (tags bear_tables 0)))
bear_db_restrict_example = bear_db_restrict bear_tables 10 ("B2" ∷ [])

abbrev delta : SyncPushRequest
unfolding build_delta_push bear_db
delta = sent (build_delta_push rendering (bear_db (λ query. gives bear_tables)) loaded)

build_delta_push-carries_example :
    (carries "B2" "T1" delta.note_tags ≡ holds "B2" "T1" (note_tags bear_tables))
    × (carries "B2" "T1" delta.pinned_note_tags ≡ holds "B2" "T1" (pinned_note_tags bear_tables))
unfolding build_delta_push bear_db notes
build_delta_push-carries_example =
    build_delta_push-carries rendering bear_tables loaded loaded delta "B2" "T1" refl refl refl
