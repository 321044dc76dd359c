-- ===== src/Api/Laws.antt =====
-- Proofs about the outcomes of the handlers of internal/api/notes_handler.go that change a note.
use bear_sync.Prelude.{
  ◌∙◌, err, disk_failure, ℕ, String, true, false, Option, none, some, [], ◌∷◌, ◌==◌, ◌≡◌, refl, inl,
  inr, arith, nat_eq, ok, Result-cases, if◌then◌else◌, Bool-cases, Option-cases,
}
use mathlib.Core.Path.{subst}
use bear_sync.Models.Note.{Note, strip_internal}
use bear_sync.Models.WriteQueue.{
  WriteQueueItem, Action, Payload, update, trash, archive, text, object, is_failed,
}
use bear_sync.Store.Db.{Db, QueueTable}
use bear_sync.Store.Ack.{is_conflict}
use bear_sync.Store.Queue.Enqueue.{get_by_key, WriteRequest, enqueue_write}
use bear_sync.Store.Queue.Shape.{IsWellFormed}
use bear_sync.Store.Queue.Idempotent.{enqueue_write-Enqueued}
use bear_sync.Store.NoteTable.{get_note, update_note}
use bear_sync.Api.Reply.{
  Reply, refused, note_reply, is_refused, Caller, write_of, try_enqueue, existing_item,
  is_retryable_queue_item, refusal, has_no_bear_id, not_synced_msg,
}
use bear_sync.Api.Notes.{
  write_body, save_and_enqueue, trash_note, trashed_note, archive_note, archived_note,
  restore_archived, update_note_body, updated_note, restore_updated, restore_trashed, bear_id_of,
}

pub tried_enqueue :
    (c : Caller) (q : QueueTable) (r : WriteRequest)
    → c.enqueue_fails ≡ false
    → try_enqueue c q r ≡ enqueue_write q r
unfolding try_enqueue
tried_enqueue c q r f = rw (f, try_enqueue) refl

pub failed_enqueue :
    (c : Caller) (q : QueueTable) (r : WriteRequest)
    → c.enqueue_fails ≡ true
    → try_enqueue c q r ≡ err disk_failure
unfolding try_enqueue
failed_enqueue c q r f = rw (f, try_enqueue) refl

-- The outcome of a write: it is refused, or it is accepted and an item that is not failed stands in
-- the queue under the caller's key.
pub data Outcome (db : Db) (c : Caller) : Db × Reply → Type 0 where
  refuses : (db' : Db) (code : ℕ) (msg : String) → Outcome db c (db', refused code msg)
  accepts :
      (db' : Db) (r : Reply) (i : WriteQueueItem)
      → is_refused r ≡ false
      → get_by_key db'.queue c.key c.consumer ≡ some i
      → is_failed i.status ≡ false
      → IsWellFormed db'.queue
      → Outcome db c (db', r)

module _ (db : Db) (c : Caller) (w : IsWellFormed db.queue) where
  pub queue-update_note :
      (n : Note) {saved : Db} → update_note db n ≡ ok saved → db.queue ≡ saved.queue
  unfolding update_note
  queue-update_note n h = ground arith

  save_and_enqueue-Outcome :
      (changed restored : Note) (action : Action) (note : String) (p : Payload)
      → Outcome db c (save_and_enqueue c db changed restored (write_of c action note p))
  unfolding save_and_enqueue
  save_and_enqueue-Outcome changed restored action note p =
      elim (Result-cases (update_note db changed)) [
        | inl (saved, h) ↦
            let e =
              enqueue_write-Enqueued saved.queue (write_of c action note p)
                (subst IsWellFormed (queue-update_note changed h) w) in
            elim (Bool-cases c.enqueue_fails) [
              | inl f ↦
                  rw (h, save_and_enqueue)
                    (rw (failed_enqueue c saved.queue (write_of c action note p) f)
                      (refuses _ 500 _))
              | inr f ↦
                  rw (h, save_and_enqueue)
                    (rw (tried_enqueue c saved.queue (write_of c action note p) f ∙ e.runs) (
                      accepts (record saved { queue = e.table })
                        (note_reply 200 (strip_internal changed)) e.item refl e.found e.live
                        e.well_formed))
            ]
        | inr (e, h) ↦ rw (h, save_and_enqueue) (refuses db 500 "failed to update note")
      ]

  pub retry-Outcome :
      (r : Reply)
      → is_refused r ≡ false
      → is_retryable_queue_item (existing_item db c) ≡ true
      → Outcome db c (db, r)
  unfolding is_retryable_queue_item existing_item
  retry-Outcome r n h = elim (Option-cases (existing_item db c)) [
    | inl e ↦ ground arith
    | inr (i, e) ↦ accepts db r i n (ground arith) (ground arith) w
  ]

  pub refusal-Outcome :
      (n : Note) (msg : String) {r : Reply} → refusal n msg ≡ some r → Outcome db c (db, r)
  unfolding refusal
  refusal-Outcome n msg {r} h = elim (Bool-cases (nat_eq n.encrypted 1)) [
    | inl e ↦ answer 403 "encrypted notes are read-only" (ground arith)
    | inr e ↦ elim (Bool-cases (has_no_bear_id n)) [
      | inl b ↦ answer 409 not_synced_msg (ground arith)
      | inr b ↦ elim (Bool-cases (is_conflict n.sync_status)) [
        | inl s ↦ answer 409 msg (ground arith)
        | inr s ↦ cc (rw (e, b, s) at h)
      ]
    ]
  ]
    where
      answer : (code : ℕ) (m : String) → refused code m ≡ r → Outcome db c (db, r)
      answer code m e = subst (λ x. Outcome db c (db, x)) e (refuses db code m)

  once-Outcome :
      (n changed restored : Note) (action : Action) (p : Payload)
      → Outcome db c (
          if is_retryable_queue_item (existing_item db c)
          then (db, note_reply 200 (strip_internal n))
          else save_and_enqueue c db changed restored (write_of c action n.id p))
  once-Outcome n changed restored action p =
      elim (Bool-cases (is_retryable_queue_item (existing_item db c))) [
        | inl t ↦ rw t (retry-Outcome (note_reply 200 (strip_internal n)) refl t)
        | inr t ↦ rw t (save_and_enqueue-Outcome changed restored action n.id p)
      ]

  -- On a well-formed queue a request to trash a note is refused, or it is accepted, an item that
  -- is not failed stands in the queue under the caller's key, and the queue is well-formed.
  pub trash_note-Outcome : (id : String) → Outcome db c (trash_note db c id)
  unfolding trash_note
  trash_note-Outcome id = elim (Option-cases (get_note db id)) [
    | inl e ↦ rw (e, trash_note) (refuses db 404 "note not found")
    | inr (n, e) ↦
        elim (Option-cases
          (refusal n "note has unresolved conflicts; resolve conflicts before trashing")) [
            | inr (r, f) ↦
                rw (e, trash_note)
                  (rw f (
                    refusal-Outcome n
                      "note has unresolved conflicts; resolve conflicts before trashing" f))
            | inl f ↦
                rw (e, trash_note)
                  (rw f (
                    once-Outcome n (trashed_note c n) (restore_trashed n (trashed_note c n)) trash
                      (object (("action", text "trash") ∷ ("bear_id", text (bear_id_of n)) ∷ []))))
          ]
  ]

  -- The same of a request to archive a note.
  pub archive_note-Outcome : (id : String) → Outcome db c (archive_note db c id)
  unfolding archive_note
  archive_note-Outcome id = elim (Option-cases (get_note db id)) [
    | inl e ↦ rw (e, archive_note) (refuses db 404 "note not found")
    | inr (n, e) ↦
        elim (Option-cases
          (refusal n "note has unresolved conflicts; resolve conflicts before archiving")) [
            | inr (r, f) ↦
                rw (e, archive_note)
                  (rw f (
                    refusal-Outcome n
                      "note has unresolved conflicts; resolve conflicts before archiving" f))
            | inl f ↦
                rw (e, archive_note)
                  (rw f (
                    once-Outcome n (archived_note c n) (restore_archived n (archived_note c n))
                      archive (object (("bear_id", text (bear_id_of n)) ∷ []))))
          ]
  ]

  write_body-Outcome :
      (n : Note) (body : Option String)
      → has_no_bear_id n ≡ false
      → Outcome db c (write_body db c n body)
  unfolding write_body
  write_body-Outcome n none known = refuses db 400 "invalid request body"
  write_body-Outcome n (some b) known = elim (Bool-cases (b == "")) [
    | inl t ↦ rw t (refuses db 400 "body is required")
    | inr t ↦
        rw (t, known)
          (once-Outcome n (updated_note c b n) (restore_updated n (updated_note c b n)) update
            (object (("bear_id", text (bear_id_of n)) ∷ ("body", text b) ∷ [])))
  ]

  -- On a well-formed queue a request to update a note that Bear knows is refused, or it is
  -- accepted, an item that is not failed stands in the queue under the caller's key, and the
  -- queue is well-formed.
  pub update_note_body-Outcome :
      (id : String) (body : Option String) {n : Note}
      → get_note db id ≡ some n
      → has_no_bear_id n ≡ false
      → Outcome db c (update_note_body db c id body)
  unfolding update_note_body
  update_note_body-Outcome id body {n} e known = elim (Bool-cases (nat_eq n.encrypted 1)) [
    | inl t ↦ rw (e, update_note_body) (rw t (refuses db 403 "encrypted notes are read-only"))
    | inr t ↦ elim (Bool-cases (is_conflict n.sync_status)) [
      | inl f ↦
          rw (e, update_note_body)
            (rw (t, f)
              (refuses db 409 "note has unresolved conflicts; resolve conflicts before updating"))
      | inr f ↦ rw (e, update_note_body) (rw (t, f) (write_body-Outcome n body known))
    ]
  ]
