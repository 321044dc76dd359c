-- ===== src/Store/Push/Notes.antt =====
-- `upsertNote`, `updateExistingNote`, `detectContentConflict` and `insertNewNote` of
-- internal/store/sqlite.go.
use bear_sync.Prelude.{
  ℕ, suc, String, Bool, true, false, not, ◌&&◌, ◌||◌, Option, none, some, List, [], ◌∷◌, ◌++◌, ◌==◌,
  matches, select, update, any, Result, ok, err, unique_violation, if◌then◌else◌,
}
use bear_sync.Models.Note.{Note, SyncStatus, pending_to_bear, conflict}
use bear_sync.Store.Db.{Db, note_by_id, note_by_bear_id}
use bear_sync.Store.Ack.{is_conflict}

abbrev pub is_pending_to_bear : SyncStatus → Bool
is_pending_to_bear pending_to_bear = true
is_pending_to_bear _ = false

abbrev pub differ : String → String → Bool
differ a b = not (a == b)

unfoldable pub detect_content_conflict :
    Note → String → String → Option String → Option String → SyncStatus
detect_content_conflict delta hub_title hub_body (some bear_title) (some bear_body) =
    if (differ delta.title bear_title && differ hub_title bear_title)
      || (differ delta.body bear_body && differ hub_body bear_body)
    then conflict
    else pending_to_bear
detect_content_conflict delta hub_title hub_body _ _ = conflict

-- The delta is an echo of the hub's own write.
abbrev pub is_echo : Note → Note → Bool
is_echo note row = matches row.expected_bear_modified_at note.modified_at

-- The status that a pending row has after a delta.
unfoldable pub pending_status : Note → Note → SyncStatus
unfolding detect_content_conflict
pending_status note row =
    if is_echo note row
    then pending_to_bear
    else if differ note.modified_at ""
        && differ row.modified_at ""
        && differ note.modified_at row.modified_at
    then detect_content_conflict note row.title row.body row.pending_bear_title
        row.pending_bear_body
    else pending_to_bear

-- UPDATE notes SET … of a pending row: all columns but the id, the title, the body, the snapshot
-- and `hub_modified_at`.
unfoldable pub update_pending : Note → Note → Note
unfolding pending_status
update_pending note row = record row {
  bear_id = note.bear_id;
  subtitle = note.subtitle;
  flags = note.flags;
  dates = note.dates;
  info = note.info;
  bear_raw = note.bear_raw;
  sync_status = pending_status note row;
  expected_bear_modified_at = if is_echo note row then none else row.expected_bear_modified_at;
}

-- The row that overwrites one that is not pending. A conflict is kept.
unfoldable pub overwrite : Note → Note → Note
overwrite note row = record note {
  id = row.id;
  sync_status = if is_conflict row.sync_status then conflict else note.sync_status;
}

-- The table, and the request's note, into which the second branch writes the id and the status.
-- The row was found by the `bear_id` that is written, so that UNIQUE holds after as before.
unfoldable pub update_existing_note : List Note → Note → Note → List Note × Note
unfolding update_pending overwrite
update_existing_note notes note row =
    if is_pending_to_bear row.sync_status
    then (update (note_by_id row.id) (λ _. update_pending note row) notes, note)
    else (update (note_by_id row.id) (λ _. overwrite note row) notes, overwrite note row)

-- UNIQUE on `id` and on `bear_id`; NULL is equal to nothing.
abbrev pub clashes : Note → Note → Bool
clashes note n =
    n.id == note.id || elim note.bear_id [ none ↦ false | some b ↦ note_by_bear_id b n ]

unfoldable pub insert_new_note : (ℕ → String) → Db → Note → Result (Db × Note)
insert_new_note random_id db note =
    let draws = note.id == "" in
    let note' = record note { id = if draws then random_id db.drawn else note.id } in
    if any (clashes note') db.notes
    then err unique_violation
    else ok (
      record db {
        notes = db.notes ++ note' ∷ [];
        drawn = if draws then suc db.drawn else db.drawn;
      },
      note',
    )

-- `bear_id = ?`, where the request gives one.
abbrev pub find_by_bear_id : Option String → List Note → Option Note
find_by_bear_id none notes = none
find_by_bear_id (some b) notes = if b == "" then none else select (note_by_bear_id b) notes

unfoldable pub upsert_note : (ℕ → String) → Db → Note → Result (Db × Note)
unfolding update_existing_note insert_new_note
upsert_note random_id db note = elim (find_by_bear_id note.bear_id db.notes) [
  | none ↦ insert_new_note random_id db note
  | some row ↦
      if row.id == ""
      then insert_new_note random_id db note
      else (let (notes, note') = update_existing_note db.notes note row in
          ok (record db { notes = notes }, note'))
]
