-- ===== src/Store/Ack.antt =====
-- `AckQueueItems`, `ackSingleItem`, `ackApplied`, `ackUpdateNoteStatus` and `toNullString` of
-- internal/store/sqlite.go. An error of one item rolls the whole transaction back.
pub mod Effect
pub mod Live
pub mod Laws
pub mod Settled
pub mod Ended
pub mod Again
use bear_sync.Prelude.{
  ℕ, String, Bool, true, false, not, ◌&&◌, Option, none, some, List, [], ◌∷◌, ◌==◌, select, update,
  any, count_where, nat_eq, Result, ok, err, unique_violation, no_rows, ◌>>=◌, if◌then◌else◌,
}
use bear_sync.Models.Note.{Note, SyncStatus, synced, pending_to_bear, conflict}
use bear_sync.Models.WriteQueue.{WriteQueueItem, applied, failed, is_processing, is_live}
use bear_sync.Models.Sync.{SyncAckItem, AckStatus}
use bear_sync.Store.Db.{Db, by_id, note_by_id, note_by_bear_id}

abbrev pub is_conflict : SyncStatus → Bool
is_conflict conflict = true
is_conflict _ = false

abbrev pub to_null_string : String → Option String
to_null_string s = if s == "" then none else some s

-- note_id = ? AND id != ? AND status IN ('pending', 'processing')
abbrev pub other_pending : String → ℕ → List WriteQueueItem → ℕ
other_pending note k = count_where (λ i. i.note_id == note && not (by_id k i) && is_live i.status)

abbrev pub set_synced : Note → Note
set_synced n = record n {
  sync_status = synced;
  pending_bear_title = none;
  pending_bear_body = none;
  expected_bear_modified_at = none;
}

abbrev pub set_created : SyncAckItem → Note → Note
set_created a n = record n {
  bear_id = some a.bear_id;
  sync_status = synced;
  pending_bear_title = none;
  pending_bear_body = none;
  expected_bear_modified_at = to_null_string a.bear_modified_at;
}

abbrev pub set_created_pending : SyncAckItem → Note → Note → Note
set_created_pending a hub n = record n {
  bear_id = some a.bear_id;
  sync_status = pending_to_bear;
  expected_bear_modified_at = to_null_string a.bear_modified_at;
  pending_bear_title = some hub.title;
  pending_bear_body = some hub.body;
}

-- id = ? AND sync_status != 'conflict'
abbrev pub unless_conflict : String → Note → Bool
unless_conflict note n = note_by_id note n && not (is_conflict n.sync_status)

-- UPDATE notes SET bear_id = ?, … WHERE id = ? AND sync_status != 'conflict', with the constraint
-- that `bear_id` is UNIQUE.
unfoldable pub set_bear_id : (Note → Note) → String → String → List Note → Result (List Note)
set_bear_id f bear note notes =
    if any (unless_conflict note) notes
      && any (λ n. note_by_bear_id bear n && not (note_by_id note n)) notes
    then err unique_violation
    else ok (update (unless_conflict note) f notes)

-- The switch of `ackUpdateNoteStatus`, on the number of other live items for the note.
unfoldable pub ack_notes : ℕ → SyncAckItem → String → List Note → Result (List Note)
unfolding set_bear_id
ack_notes others a note notes =
    if a.conflict_resolved
    then (if nat_eq others 0
        then ok (update (λ n. note_by_id note n && is_conflict n.sync_status) set_synced notes)
        else ok notes)
    else if not (a.bear_id == "")
    then (if nat_eq others 0
        then set_bear_id (set_created a) a.bear_id note notes
        else elim (select (note_by_id note) notes) [
          | none ↦ err no_rows
          | some hub ↦ set_bear_id (set_created_pending a hub) a.bear_id note notes
        ])
    else if nat_eq others 0
    then ok (update (unless_conflict note) set_synced notes)
    else ok (
        update (unless_conflict note)
          (λ n. record n { expected_bear_modified_at = to_null_string a.bear_modified_at }) notes)

unfoldable pub ack_update_note_status : Db → SyncAckItem → String → Result Db
unfolding ack_notes
ack_update_note_status db a note = do
  notes ← ack_notes (other_pending note a.queue_id db.queue.rows) a note db.notes
  ok (record db { notes = notes })

abbrev pub set_applied : ℕ → WriteQueueItem → WriteQueueItem
set_applied now i = record i { status = applied; applied_at = some now; error = none }

abbrev pub set_failed : String → WriteQueueItem → WriteQueueItem
set_failed e i = record i { status = failed; error = some e }

abbrev pub with_rows : Db → List WriteQueueItem → Db
with_rows db rows = record db { queue = record (db.queue) { rows = rows } }

unfoldable pub ack_applied : Db → SyncAckItem → ℕ → Result Db
unfolding ack_update_note_status
ack_applied db a now =
    let rows = update (by_id a.queue_id) (set_applied now) db.queue.rows in
    let db' = with_rows db rows in
    elim (select (by_id a.queue_id) rows) [
      | none ↦ ok db'
      | some i ↦ (if i.note_id == "" then ok db' else ack_update_note_status db' a i.note_id)
    ]

abbrev pub is_applied : AckStatus → Bool
is_applied AckStatus.applied = true
is_applied _ = false

unfoldable pub ack_single_item : ℕ → Db → SyncAckItem → Result Db
unfolding ack_applied
ack_single_item now db a = elim (select (by_id a.queue_id) db.queue.rows) [
  | none ↦ ok db
  | some i ↦
      if not (is_processing i.status)
      then ok db
      else if is_applied a.status
      then ack_applied db a now
      else ok (with_rows db (update (by_id a.queue_id) (set_failed a.error) db.queue.rows))
]

unfoldable pub ack_queue_items : ℕ → Db → List SyncAckItem → Result Db
unfolding ack_single_item
ack_queue_items now db [] = ok db
ack_queue_items now db (a ∷ items) = do
  db' ← ack_single_item now db a
  ack_queue_items now db' items
