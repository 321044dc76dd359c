-- ===== src/Tests/SyncTests.antt =====
-- The bridge's sync at concrete inputs, and rows that are written and read back.
use bear_sync.Prelude.{
  ℕ, String, true, false, none, some, List, [], ◌∷◌, ◌≡◌, ◌↔◌, refl, All, concat,
}
use bear_sync.Models.Note.{Note, synced}
use bear_sync.Models.Sync.{SyncPushRequest}
use bear_sync.Store.Db.{Db}
use bear_sync.Store.Scan.Values.{Row, text}
use bear_sync.Store.Scan.NoteScan.{scan_note, insert_note_row, update_note_row, scan_note_round}
use bear_sync.Mapper.BearRows.{BearNoteRow}
use bear_sync.Bridge.Bear.{Fallible, fails, gives}
use bear_sync.Bridge.Junction.{BearPair, IdPair, member, find_changed_junction_notes}
use bear_sync.Bridge.Changed.{has, find_changed_iff}
use bear_sync.Bridge.Cycle.{answered}
use bear_sync.Bridge.Reads.{BearReads, BridgeState, Rendering}
use bear_sync.Bridge.Delta.{Run, build_delta_push, delta_sync}
use bear_sync.Bridge.Advance.{Advance}
use bear_sync.Bridge.Remembers.{ScansNothing, delta_sync_remembers}
use bear_sync.Bridge.Deletions.{AreGone, Current, build_delta_push-AreGone}
use bear_sync.Bridge.Initial.{batches, empty_push}
use bear_sync.Bridge.Batches.{IsBatch, batches_cover}
use bear_sync.Tests.Data.{note_of, db_of}

abbrev pair_of : String → String → IdPair
pair_of n t = record { note_uuid = n; tag_uuid = t }

abbrev bear_pair : String → String → BearPair
bear_pair n t = record { note_uuid = n; tag_uuid = t }

find_changed_iff_example :
    (member "B1" (
        find_changed_junction_notes
          (pair_of "B1" "T1" ∷ pair_of "B1" "T2" ∷ [])
          (pair_of "B1" "T2" ∷ pair_of "B1" "T1" ∷ []))
      ≡ false)
    ↔ ((t : String)
        → has "B1" t (pair_of "B1" "T1" ∷ pair_of "B1" "T2" ∷ [])
          ≡ has "B1" t (pair_of "B1" "T2" ∷ pair_of "B1" "T1" ∷ []))
find_changed_iff_example =
    find_changed_iff (pair_of "B1" "T1" ∷ pair_of "B1" "T2" ∷ [])
      (pair_of "B1" "T2" ∷ pair_of "B1" "T1" ∷ []) "B1"

abbrev two_rows : List String
two_rows = "a" ∷ "b" ∷ []

batches_cover_example : (concat (batches two_rows) ≡ two_rows) × All IsBatch (batches two_rows)
batches_cover_example = batches_cover two_rows

abbrev bear_row : BearNoteRow
bear_row = record {
  zpk = 1;
  zuniqueidentifier = some "B1";
  ztitle = some "Title";
  zsubtitle = none;
  ztext = some "body";
  zarchived = none;
  zencrypted = none;
  zhasfiles = none;
  zhasimages = none;
  zhassourcecode = none;
  zlocked = none;
  zpinned = none;
  zshownintodaywidget = none;
  ztrashed = none;
  zpermanentlydeleted = none;
  zskipsync = none;
  ztodocompleted = none;
  ztodoincompleted = none;
  zversion = none;
  zcreationdate = none;
  zmodificationdate = none;
  zarchiveddate = none;
  zencryptiondate = none;
  zlockeddate = none;
  zpinneddate = none;
  ztrasheddate = none;
  zorderdate = none;
  zconflictuniqueidentifierdate = none;
  zlasteditingdevice = none;
  zconflictuniqueidentifier = none;
  zencryptionuniqueidentifier = none;
  zencrypteddata = [];
}

-- Bear with one note that changed, whose tag is `T1`, and one that did not.
abbrev bear_reads : BearReads
bear_reads = record {
  notes = λ t. gives (bear_row ∷ []);
  tags = λ t. gives [];
  attachments = λ t. gives [];
  attachments_by_uuids = λ ids. gives [];
  backlinks = λ t. gives [];
  note_tags = gives (bear_pair "B1" "T1" ∷ bear_pair "B2" "T2" ∷ []);
  pinned_note_tags = gives [];
  note_tags_for_notes = λ ids. gives (bear_pair "B1" "T1" ∷ []);
  pinned_note_tags_for_notes = λ ids. gives [];
  all_note_uuids = gives ("B1" ∷ "B2" ∷ []);
  all_tag_uuids = gives ("T1" ∷ "T2" ∷ []);
  all_attachment_uuids = gives [];
  all_backlink_uuids = gives [];
}

abbrev pub loaded : BridgeState
loaded = record {
  last_sync_at = 10;
  last_db_mod_time_nano = 0;
  known_note_ids = "B1" ∷ "B2" ∷ "B3" ∷ [];
  known_tag_ids = "T1" ∷ [];
  known_attachment_ids = [];
  known_backlink_ids = [];
  known_note_tag_pairs = pair_of "B1" "T1" ∷ pair_of "B2" "T1" ∷ [];
  known_pinned_note_tag_pairs = [];
  junction_full_scan_counter = 3;
}

abbrev pub rendering : Rendering
rendering = record {
  rfc3339 = λ t. "t9";
  raw_note = λ r. "{}";
  raw_tag = λ r. "{}";
  raw_attachment = λ r. "{}";
  raw_backlink = λ r. "{}";
  drawn_id = λ k. "drawn";
}

abbrev run : Run
run = record {
  now = 20;
  now_text = "t20";
  saves = true;
  delivery = λ k. answered;
  hub_now = λ k. "t21";
}

abbrev no_ids : ℕ → String
no_ids k = "hub"

abbrev empty_hub : Db
empty_hub = db_of [] (record { rows = []; next_id = 1 })

abbrev pub sent : Fallible (BridgeState × SyncPushRequest) → SyncPushRequest
sent (fails e) = empty_push
sent (gives (st, req)) = req

abbrev request : SyncPushRequest
unfolding build_delta_push
request = sent (build_delta_push rendering bear_reads loaded)

-- The pair of `B2` and `T2` is new to the bridge, and no push has held it: a scan finds nothing.
delta_sync_remembers_example :
    ScansNothing bear_reads
      (delta_sync no_ids rendering run bear_reads bear_reads loaded loaded empty_hub).1.0
unfolding delta_sync build_delta_push
delta_sync_remembers_example =
    delta_sync_remembers no_ids rendering run bear_reads bear_reads loaded loaded empty_hub loaded
      request refl refl refl

abbrev sample : Note
sample = note_of "n1" (some "B1") "Title" "body" synced

abbrev old_row : Row
old_row c = text "n1"

scan_note_round_example :
    (scan_note (insert_note_row sample) ≡ sample)
    × (scan_note (update_note_row sample old_row) ≡ sample)
scan_note_round_example = scan_note_round sample old_row refl refl

abbrev bear_now : Current bear_reads
bear_now = record {
  notes = "B1" ∷ "B2" ∷ [];
  tags = "T1" ∷ "T2" ∷ [];
  attachments = [];
  backlinks = [];
  reads_notes = refl;
  reads_tags = refl;
  reads_attachments = refl;
  reads_backlinks = refl;
}

-- The note `B3`, which the bridge knew, is gone.
build_delta_push-AreGone_example :
    AreGone loaded.known_note_ids bear_now.notes request.deleted_note_ids
    × (AreGone loaded.known_tag_ids bear_now.tags request.deleted_tag_ids
        × (AreGone loaded.known_attachment_ids bear_now.attachments request.deleted_attachment_ids
            × AreGone loaded.known_backlink_ids bear_now.backlinks request.deleted_backlink_ids))
unfolding build_delta_push
build_delta_push-AreGone_example =
    build_delta_push-AreGone rendering bear_reads loaded loaded request bear_now refl
