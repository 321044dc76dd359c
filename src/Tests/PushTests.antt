-- ===== src/Tests/PushTests.antt =====
-- Pushes at concrete inputs.
use bear_sync.Prelude.{
  ℕ, String, true, none, some, List, [], ◌∷◌, ◌≡◌, ◌↔◌, ◌⊎◌, refl, ok, any, select, Result,
}
use bear_sync.Models.Tag.{Tag, TagInfo}
use bear_sync.Models.Note.{Note, synced, pending_to_bear, conflict}
use bear_sync.Models.Sync.{SyncPushRequest, NoteTagPair}
use bear_sync.Store.Db.{Db, note_by_id}
use bear_sync.Store.NoteRows.{UniqueIds}
use bear_sync.Store.Ack.Live.{live_count}
use bear_sync.Store.Push.{process_sync_push}
use bear_sync.Store.Push.Notes.{upsert_note}
use bear_sync.Store.Push.Conflict.{IsGenuine, BothChanged, upsert_conflict_iff}
use bear_sync.Store.Push.Kept.{Follows}
use bear_sync.Store.Push.Whole.{process_sync_push-Kept}
use bear_sync.Store.Push.NoteTags.{replace_note_tags}
use bear_sync.Store.Push.HubIds.{hub_id}
use bear_sync.Store.Push.Tagged.{has_row, stands_for, replace_note_tags_iff}
use bear_sync.Store.Push.Removed.{process_sync_push-live}
use bear_sync.Tests.Data.{note_of, three_items, db_of}

-- The note n1 waits for Bear with the consumer's body; n2 is synced.
abbrev pub waiting : Note
waiting = record (note_of "n1" (some "B1") "Title" "hub body" pending_to_bear) {
  pending_bear_title = some "Title";
  pending_bear_body = some "old body";
}

abbrev pub quiet : Note
quiet = note_of "n2" (some "B2") "Other" "text" synced

abbrev pub two_notes : Db
two_notes = db_of (waiting ∷ quiet ∷ []) three_items

-- Bear edited the body of n1, too.
abbrev pub edited : Note
edited = record (note_of "x" (some "B1") "Title" "bear body" synced) {
  dates = record (waiting.dates) { modified_at = "t9" };
}

abbrev pub push : SyncPushRequest
push = record {
  notes = edited ∷ [];
  tags = [];
  note_tags = [];
  pinned_note_tags = [];
  attachments = [];
  backlinks = [];
  deleted_note_ids = "B2" ∷ [];
  deleted_tag_ids = [];
  deleted_attachment_ids = [];
  deleted_backlink_ids = [];
  meta = [];
}

abbrev pub no_ids : ℕ → String
no_ids k = "drawn"

abbrev value_or : Db → Result Db → Db
value_or d (ok x) = x
value_or d _ = d

abbrev pushed : Db
unfolding process_sync_push
pushed = value_or two_notes (process_sync_push no_ids two_notes push)

push_runs : process_sync_push no_ids two_notes push ≡ ok pushed
unfolding process_sync_push
push_runs = refl

upsert_conflict_iff_example :
    (db' : Db) × (delta' : Note) × (m : Note) × (upsert_note no_ids two_notes edited
      ≡ ok (db', delta'))
    × (select (note_by_id "n1") db'.notes ≡ some m)
    × (m.title ≡ "Title")
    × (m.body ≡ "hub body")
    × ((m.sync_status ≡ conflict) ↔ (
        IsGenuine edited waiting
        × (BothChanged "Title" "Title" "Title" ⊎ BothChanged "old body" "bear body" "hub body")))
upsert_conflict_iff_example =
    upsert_conflict_iff no_ids two_notes edited waiting "B1" "Title" "old body" (refl, (refl, tt))
      refl refl refl refl refl refl refl

process_sync_push-Kept_example :
    UniqueIds pushed.notes
    × ((select (note_by_id "n1") pushed.notes ≡ none) ⊎ Follows "n1" waiting pushed.notes)
process_sync_push-Kept_example =
    process_sync_push-Kept no_ids two_notes pushed push "n1" waiting (refl, (refl, tt)) push_runs
      refl

process_sync_push-live_example : live_count "n2" pushed.queue.rows ≡ 0
unfolding pushed process_sync_push
process_sync_push-live_example =
    process_sync_push-live no_ids two_notes pushed push "n2" quiet (refl, (refl, tt)) push_runs refl
      refl

abbrev plain_info : TagInfo
plain_info = record {
  pinned = 0;
  is_root = 1;
  hide_subtags_notes = 0;
  sorting = 0;
  sorting_direction = 0;
  encrypted = 0;
  version = 1;
  modified_at = "";
  pinned_at = "";
  pinned_notes_at = "";
  encrypted_at = "";
  hide_subtags_notes_at = "";
  sorting_at = "";
  sorting_direction_at = "";
  tag_con_date = "";
  tag_con = "";
}

abbrev work : Tag
work = record { id = "t1"; bear_id = some "T1"; title = "work"; info = plain_info; bear_raw = "" }

abbrev tagged_notes : Db
tagged_notes = record two_notes { tags = work ∷ [] }

abbrev pair : String → String → NoteTagPair
pair n t = record { note_id = n; tag_id = t }

abbrev old_pairs : List NoteTagPair
old_pairs = pair "n1" "t0" ∷ pair "n2" "t0" ∷ []

-- The note `n1`, which Bear edited, loses the tag `t0` and gets `t1`; `n2` is not named.
replace_note_tags_iff_example :
    let hub = hub_id tagged_notes (edited ∷ []) (pair "n1" "T1" ∷ []) in
    (has_row (pair "n1" "t1") (pair "n2" "t0" ∷ pair "n1" "t1" ∷ []) ≡ true) ↔ (
      ((has_row (pair "n1" "t1") old_pairs ≡ true) × ¬ ((k : String) × (hub k ≡ some "n1")))
      ⊎ (any (stands_for tagged_notes hub (pair "n1" "t1")) (pair "n1" "T1" ∷ []) ≡ true))
unfolding replace_note_tags
replace_note_tags_iff_example =
    replace_note_tags_iff tagged_notes old_pairs (edited ∷ []) (pair "n1" "T1" ∷ [])
      (pair "n1" "t1") refl
