-- ===== src/Api/Create.antt =====
-- `createNote` of internal/api/notes_handler.go. `random_id` stands for `generateID`, as in the
-- store.
use bear_sync.Prelude.{
  ℕ, suc, String, not, ◌&&◌, Option, none, some, List, [], ◌∷◌, ◌==◌, ok, err, if◌then◌else◌,
}
use bear_sync.Models.Note.{Note, pending_to_bear, zero_flags, zero_dates, zero_info, strip_internal}
use bear_sync.Models.WriteQueue.{
  WriteQueueItem, create, text, texts, Payload, object, is_failed, is_create,
}
use bear_sync.Store.Db.{Db}
use bear_sync.Store.NoteTable.{get_note, create_note, delete_note}
use bear_sync.Api.Reply.{
  Reply, refused, note_reply, id_reply, Caller, write_of, try_enqueue, existing_item,
  is_retryable_queue_item,
}

pub record CreateNoteRequest : Type 0 where
  pub title : String
  pub body : String
  pub tags : List String

-- `tags` is omitted where it is empty.
abbrev pub create_payload : CreateNoteRequest → Payload
create_payload req = object (
    ("title", text req.title)
    ∷ ("body", text req.body)
    ∷ elim req.tags [ [] ↦ [] | t ∷ ts ↦ ("tags", texts (t ∷ ts)) ∷ [] ])

abbrev pub new_note : Caller → String → CreateNoteRequest → Note
new_note c id req = record {
  id = id;
  bear_id = none;
  title = req.title;
  subtitle = "";
  body = req.body;
  flags = zero_flags;
  dates = record zero_dates { created_at = c.now; modified_at = c.now };
  info = zero_info;
  sync_status = pending_to_bear;
  hub_modified_at = c.now;
  bear_raw = "";
  pending_bear_title = none;
  pending_bear_body = none;
  expected_bear_modified_at = none;
}

-- The answer for an item that is in the queue already.
unfoldable pub created_reply : Db → WriteQueueItem → Reply
unfolding get_note strip_internal
created_reply db i = elim (get_note db i.note_id) [
  | some n ↦ note_reply 201 (strip_internal n)
  | none ↦ id_reply 201 i.note_id
]

-- The note of a failed create under the same key is deleted.
unfoldable pub clean_up_failed : Db → Option WriteQueueItem → Db
unfolding delete_note
clean_up_failed db none = db
clean_up_failed db (some i) =
    if is_failed i.status && is_create i.action && not (i.note_id == "")
    then delete_note db i.note_id
    else db

unfoldable pub insert_and_enqueue : (ℕ → String) → Db → Caller → CreateNoteRequest → Db × Reply
unfolding create_note try_enqueue delete_note created_reply strip_internal
insert_and_enqueue random_id db c req =
    let note = new_note c (random_id db.drawn) req in
    elim (create_note (record db { drawn = suc db.drawn }) note) [
      | err e ↦ (record db { drawn = suc db.drawn }, refused 500 "failed to create note")
      | ok created ↦
          elim (try_enqueue c created.queue (write_of c create note.id (create_payload req))) [
            | err e ↦ (delete_note created note.id, refused 500 "failed to enqueue write")
            | ok (q, i) ↦
                let queued = record created { queue = q } in
                if not (i.note_id == note.id)
                then (delete_note queued note.id, created_reply (delete_note queued note.id) i)
                else (queued, note_reply 201 (strip_internal note))
          ]
    ]

-- `req` is `none` where the request's JSON cannot be read.
unfoldable pub create_note_request :
    (ℕ → String) → Db → Caller → Option CreateNoteRequest → Db × Reply
unfolding existing_item is_retryable_queue_item created_reply clean_up_failed insert_and_enqueue
create_note_request random_id db c none = (db, refused 400 "invalid request body")
create_note_request random_id db c (some req) =
    if req.title == "" then (db, refused 400 "title is required") else elim (existing_item db c) [
      | none ↦ insert_and_enqueue random_id db c req
      | some i ↦
          if is_retryable_queue_item (some i)
          then (db, created_reply db i)
          else insert_and_enqueue random_id (clean_up_failed db (some i)) c req
    ]
