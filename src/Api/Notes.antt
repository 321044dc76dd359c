-- ===== src/Api/Notes.antt =====
-- `createNote`, `updateNote`, `trashNote`, `archiveNote`, `handleCreateUpdateCoalesce` and
-- `snapshotPendingBear` of internal/api/notes_handler.go.
use bear_sync.Prelude.{String, Option, none, some, [], ◌∷◌, ◌==◌, nat_eq, ok, err, if◌then◌else◌}
use bear_sync.Models.Note.{Note, pending_to_bear, strip_internal}
use bear_sync.Models.WriteQueue.{update, trash, archive, text, object}
use bear_sync.Store.Db.{Db}
use bear_sync.Store.Ack.{is_conflict}
use bear_sync.Store.Queue.Enqueue.{WriteRequest, coalesce_create_update}
use bear_sync.Store.NoteTable.{get_note, update_note}
use bear_sync.Api.Title.{extract_title_from_body}
use bear_sync.Api.Reply.{
  Reply, refused, note_reply, Caller, write_of, try_enqueue, existing_item, is_retryable_queue_item,
  has_no_bear_id, not_synced_msg, refusal,
}

abbrev pub snapshot_pending_bear : Note → Note
snapshot_pending_bear n = elim n.pending_bear_title [
  | some t ↦ n
  | none ↦ record n { pending_bear_title = some n.title; pending_bear_body = some n.body }
]

-- What the handlers that change a note do from the call of `UpdateNote` on: `restored` is the note
-- that they write back if the write cannot be enqueued.
unfoldable pub save_and_enqueue : Caller → Db → Note → Note → WriteRequest → Db × Reply
unfolding update_note try_enqueue strip_internal
save_and_enqueue c db changed restored r = elim (update_note db changed) [
  | err e ↦ (db, refused 500 "failed to update note")
  | ok saved ↦ elim (try_enqueue c saved.queue r) [
    | ok (q, i) ↦ (record saved { queue = q }, note_reply 200 (strip_internal changed))
    | err e ↦ (
      elim (update_note saved restored) [ ok back ↦ back | err e ↦ saved ],
      refused 500 "failed to enqueue write",
    )
  ]
]

abbrev pub bear_id_of : Note → String
bear_id_of n = elim n.bear_id [ none ↦ "" | some b ↦ b ]

abbrev pub trashed_note : Caller → Note → Note
trashed_note c n =
    let m = snapshot_pending_bear n in
    record m {
      flags = record (m.flags) { trashed = 1 };
      dates = record (m.dates) { trashed_at = c.now };
      sync_status = pending_to_bear;
      hub_modified_at = c.now;
    }

-- The old fields, written over the changed note.
abbrev pub restore_trashed : Note → Note → Note
restore_trashed old n = record n {
  flags = record (n.flags) { trashed = old.trashed };
  dates = record (n.dates) { trashed_at = old.trashed_at };
  sync_status = old.sync_status;
  hub_modified_at = old.hub_modified_at;
  pending_bear_title = old.pending_bear_title;
  pending_bear_body = old.pending_bear_body;
}

unfoldable pub trash_note : Db → Caller → String → Db × Reply
unfolding get_note refusal existing_item is_retryable_queue_item strip_internal save_and_enqueue
trash_note db c id = elim (get_note db id) [
  | none ↦ (db, refused 404 "note not found")
  | some n ↦ elim (refusal n "note has unresolved conflicts; resolve conflicts before trashing") [
    | some r ↦ (db, r)
    | none ↦
        if is_retryable_queue_item (existing_item db c)
        then (db, note_reply 200 (strip_internal n))
        else save_and_enqueue c db (trashed_note c n) (restore_trashed n (trashed_note c n)) (
            write_of c trash n.id
              (object (("action", text "trash") ∷ ("bear_id", text (bear_id_of n)) ∷ [])))
  ]
]

abbrev pub archived_note : Caller → Note → Note
archived_note c n =
    let m = snapshot_pending_bear n in
    record m {
      flags = record (m.flags) { archived = 1 };
      dates = record (m.dates) { archived_at = c.now };
      sync_status = pending_to_bear;
      hub_modified_at = c.now;
    }

abbrev pub restore_archived : Note → Note → Note
restore_archived old n = record n {
  flags = record (n.flags) { archived = old.archived };
  dates = record (n.dates) { archived_at = old.archived_at };
  sync_status = old.sync_status;
  hub_modified_at = old.hub_modified_at;
  pending_bear_title = old.pending_bear_title;
  pending_bear_body = old.pending_bear_body;
}

unfoldable pub archive_note : Db → Caller → String → Db × Reply
unfolding get_note refusal existing_item is_retryable_queue_item strip_internal save_and_enqueue
archive_note db c id = elim (get_note db id) [
  | none ↦ (db, refused 404 "note not found")
  | some n ↦ elim (refusal n "note has unresolved conflicts; resolve conflicts before archiving") [
    | some r ↦ (db, r)
    | none ↦
        if is_retryable_queue_item (existing_item db c)
        then (db, note_reply 200 (strip_internal n))
        else save_and_enqueue c db (archived_note c n) (restore_archived n (archived_note c n))
            (write_of c archive n.id (object (("bear_id", text (bear_id_of n)) ∷ [])))
  ]
]

abbrev pub updated_note : Caller → String → Note → Note
updated_note c body n = record (snapshot_pending_bear n) {
  title = extract_title_from_body body;
  body = body;
  sync_status = pending_to_bear;
  hub_modified_at = c.now;
}

abbrev pub restore_updated : Note → Note → Note
restore_updated old n = record n {
  title = old.title;
  body = old.body;
  sync_status = old.sync_status;
  hub_modified_at = old.hub_modified_at;
  pending_bear_title = old.pending_bear_title;
  pending_bear_body = old.pending_bear_body;
}

abbrev pub coalesced_note : Caller → String → Note → Note
coalesced_note c body n = record n {
  title = extract_title_from_body body;
  body = body;
  hub_modified_at = c.now;
}

unfoldable pub handle_create_update_coalesce : Db → Caller → Note → String → Db × Reply
unfolding coalesce_create_update update_note strip_internal
handle_create_update_coalesce db c n body =
    elim (coalesce_create_update db.queue c.key n.id (object (("body", text body) ∷ []))
      c.consumer) [
        | err e ↦ (db, refused 500 "failed to coalesce create-update")
        | ok none ↦ (db, refused 409 not_synced_msg)
        | ok (some (q, i)) ↦
            let merged = record db { queue = q } in
            elim (update_note merged (coalesced_note c body n)) [
              | err e ↦ (merged, refused 500 "failed to update note")
              | ok saved ↦ (saved, note_reply 200 (strip_internal (coalesced_note c body n)))
            ]
      ]

-- From the reading of the request on. `body` is `none` where the request's JSON cannot be read.
unfoldable pub write_body : Db → Caller → Note → Option String → Db × Reply
unfolding existing_item is_retryable_queue_item strip_internal save_and_enqueue
    handle_create_update_coalesce
write_body db c n none = (db, refused 400 "invalid request body")
write_body db c n (some b) =
    if b == ""
    then (db, refused 400 "body is required")
    else if is_retryable_queue_item (existing_item db c)
    then (db, note_reply 200 (strip_internal n))
    else if has_no_bear_id n
    then handle_create_update_coalesce db c n b
    else save_and_enqueue c db (updated_note c b n) (restore_updated n (updated_note c b n))
        (write_of c update n.id (object (("bear_id", text (bear_id_of n)) ∷ ("body", text b) ∷ [])))

unfoldable pub update_note_body : Db → Caller → String → Option String → Db × Reply
unfolding get_note write_body
update_note_body db c id body = elim (get_note db id) [
  | none ↦ (db, refused 404 "note not found")
  | some n ↦
      if nat_eq n.encrypted 1
      then (db, refused 403 "encrypted notes are read-only")
      else if is_conflict n.sync_status
      then (db, refused 409 "note has unresolved conflicts; resolve conflicts before updating")
      else write_body db c n body
]
