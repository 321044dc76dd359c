-- ===== src/Api/Retry.antt =====
-- Proofs about retries of the handlers of internal/api/notes_handler.go that change a note.
use bear_sync.Prelude.{
  String, true, false, Option, none, some, ◌==◌, ◌≡◌, refl, inl, inr, Bool-cases, Option-cases,
  nat_eq,
}
use bear_sync.Models.Note.{Note}
use bear_sync.Models.WriteQueue.{WriteQueueItem, is_failed}
use bear_sync.Store.Db.{Db}
use bear_sync.Store.Ack.{is_conflict}
use bear_sync.Store.Queue.Enqueue.{get_by_key}
use bear_sync.Store.Queue.Shape.{IsWellFormed}
use bear_sync.Store.NoteTable.{get_note}
use bear_sync.Api.Reply.{
  Reply, is_refused, Caller, existing_item, is_retryable_queue_item, refusal, has_no_bear_id,
}
use bear_sync.Api.Notes.{trash_note, archive_note, update_note_body, write_body}
use bear_sync.Api.Laws.{
  Outcome, refuses, accepts, trash_note-Outcome, archive_note-Outcome, update_note_body-Outcome,
}

module _ (c c' : Caller) (keyed : (c.key == "") ≡ false) (key : c'.key ≡ c.key)
    (consumer : c'.consumer ≡ c.consumer) where
  pub retryable_of_found :
      (db' : Db) {i : WriteQueueItem}
      → get_by_key db'.queue c.key c.consumer ≡ some i
      → is_failed i.status ≡ false
      → is_retryable_queue_item (existing_item db' c') ≡ true
  unfolding is_retryable_queue_item existing_item
  retryable_of_found db' {i} found live =
      rw (key, consumer, keyed, found, live, is_retryable_queue_item)

  retryable_of_Outcome :
      (db : Db) (out : Db × Reply)
      → Outcome db c out
      → is_refused out.1 ≡ false
      → is_retryable_queue_item (existing_item out.0 c') ≡ true
  retryable_of_Outcome db out (refuses db' code msg) h = cc
  retryable_of_Outcome db out (accepts db' r i n found live w) h = retryable_of_found db' found live

trash_retry :
    (db : Db) (c : Caller) (id : String)
    → is_retryable_queue_item (existing_item db c) ≡ true
    → (trash_note db c id).0 ≡ db
unfolding trash_note
trash_retry db c id h = elim (Option-cases (get_note db id)) [
  | inl e ↦ rw (e, trash_note)
  | inr (n, e) ↦
      elim (Option-cases
        (refusal n "note has unresolved conflicts; resolve conflicts before trashing")) [
          | inl f ↦ rw (e, trash_note) (rw f (rw h))
          | inr (r, f) ↦ rw (e, trash_note) (rw f)
        ]
]

archive_retry :
    (db : Db) (c : Caller) (id : String)
    → is_retryable_queue_item (existing_item db c) ≡ true
    → (archive_note db c id).0 ≡ db
unfolding archive_note
archive_retry db c id h = elim (Option-cases (get_note db id)) [
  | inl e ↦ rw (e, archive_note)
  | inr (n, e) ↦
      elim (Option-cases
        (refusal n "note has unresolved conflicts; resolve conflicts before archiving")) [
          | inl f ↦ rw (e, archive_note) (rw f (rw h))
          | inr (r, f) ↦ rw (e, archive_note) (rw f)
        ]
]

write_body_retry :
    (db : Db) (c : Caller) (n : Note) (body : Option String)
    → is_retryable_queue_item (existing_item db c) ≡ true
    → (write_body db c n body).0 ≡ db
unfolding write_body
write_body_retry db c n none h = refl
write_body_retry db c n (some b) h = elim (Bool-cases (b == "")) [
  | inl t ↦ rw t
  | inr t ↦ rw (t, h)
]

update_retry :
    (db : Db) (c : Caller) (id : String) (body : Option String)
    → is_retryable_queue_item (existing_item db c) ≡ true
    → (update_note_body db c id body).0 ≡ db
unfolding update_note_body
update_retry db c id body h = elim (Option-cases (get_note db id)) [
  | inl e ↦ rw (e, update_note_body)
  | inr (n, e) ↦ elim (Bool-cases (nat_eq n.encrypted 1)) [
    | inl t ↦ rw (e, update_note_body) (rw t)
    | inr t ↦ elim (Bool-cases (is_conflict n.sync_status)) [
      | inl f ↦ rw (e, update_note_body) (rw (t, f))
      | inr f ↦ rw (e, update_note_body) (rw (t, f) (write_body_retry db c n body h))
    ]
  ]
]

-- On a well-formed queue, once a request to trash a note under a key is accepted, any request to
-- trash a note under that key, by the same consumer, changes nothing.
pub trash_again :
    (db : Db) (c c' : Caller) (id id' : String)
    → IsWellFormed db.queue
    → (c.key == "") ≡ false
    → c'.key ≡ c.key
    → c'.consumer ≡ c.consumer
    → is_refused (trash_note db c id).1 ≡ false
    → (trash_note (trash_note db c id).0 c' id').0 ≡ (trash_note db c id).0
trash_again db c c' id id' w keyed key consumer accepted =
    trash_retry (trash_note db c id).0 c' id' (
      retryable_of_Outcome c c' keyed key consumer db (trash_note db c id)
        (trash_note-Outcome db c w id) accepted)

-- The same of archiving.
pub archive_again :
    (db : Db) (c c' : Caller) (id id' : String)
    → IsWellFormed db.queue
    → (c.key == "") ≡ false
    → c'.key ≡ c.key
    → c'.consumer ≡ c.consumer
    → is_refused (archive_note db c id).1 ≡ false
    → (archive_note (archive_note db c id).0 c' id').0 ≡ (archive_note db c id).0
archive_again db c c' id id' w keyed key consumer accepted =
    archive_retry (archive_note db c id).0 c' id' (
      retryable_of_Outcome c c' keyed key consumer db (archive_note db c id)
        (archive_note-Outcome db c w id) accepted)

-- On a well-formed queue, once an update of a note that Bear knows is accepted under a key, any
-- update under that key, by the same consumer, changes nothing.
pub update_again :
    (db : Db) (c c' : Caller) (id id' : String) (body body' : Option String) (n : Note)
    → IsWellFormed db.queue
    → (c.key == "") ≡ false
    → c'.key ≡ c.key
    → c'.consumer ≡ c.consumer
    → get_note db id ≡ some n
    → has_no_bear_id n ≡ false
    → is_refused (update_note_body db c id body).1 ≡ false
    → (update_note_body (update_note_body db c id body).0 c' id' body').0
      ≡ (update_note_body db c id body).0
update_again db c c' id id' body body' n w keyed key consumer found known accepted =
    update_retry (update_note_body db c id body).0 c' id' body' (
      retryable_of_Outcome c c' keyed key consumer db (update_note_body db c id body)
        (update_note_body-Outcome db c w id body found known) accepted)
