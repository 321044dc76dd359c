-- ===== src/Api/CreateLaws.antt =====
-- Proofs about `createNote` of internal/api/notes_handler.go.
use bear_sync.Prelude.{
  ◌∙◌, ℕ, suc, String, true, false, not, ◌&&◌, Option, none, some, ◌==◌, ◌≡◌, refl, sym, inl, inr,
  arith, Bool-cases, Option-cases, ok, Result-cases,
}
use mathlib.Core.Path.{subst}
use bear_sync.Models.Note.{Note}
use bear_sync.Models.WriteQueue.{WriteQueueItem, create, is_failed, is_create}
use bear_sync.Store.Db.{Db}
use bear_sync.Store.Queue.Enqueue.{get_by_key}
use bear_sync.Store.Queue.Shape.{IsWellFormed}
use bear_sync.Store.Queue.Idempotent.{enqueue_write-Enqueued}
use bear_sync.Store.NoteTable.{create_note, delete_note}
use bear_sync.Store.Push.Deletes.{remove_notes}
use bear_sync.Api.Reply.{
  Reply, is_refused, Caller, write_of, existing_item, is_retryable_queue_item,
}
use bear_sync.Api.Create.{
  CreateNoteRequest, create_payload, new_note, clean_up_failed, insert_and_enqueue,
  create_note_request,
}
use bear_sync.Api.Laws.{tried_enqueue, failed_enqueue}
use bear_sync.Api.Retry.{retryable_of_found}

-- An item that is not failed stands under the caller's key, unless the request is refused.
abbrev pub IsQueued : Caller → Db × Reply → Type 0
IsQueued c out =
    is_refused out.1 ≡ false
    → (i : WriteQueueItem) × (get_by_key out.0.queue c.key c.consumer ≡ some i)
      × (is_failed i.status ≡ false)

queue-delete_note : (db : Db) (k : String) → (delete_note db k).queue ≡ db.queue
unfolding delete_note remove_notes
queue-delete_note db k = refl

queue-create_note :
    (db : Db) (n : Note) {db' : Db} → create_note db n ≡ ok db' → db.queue ≡ db'.queue
unfolding create_note
queue-create_note db n h = ground arith

queue-clean_up_failed :
    (db : Db) (i : WriteQueueItem) → db.queue ≡ (clean_up_failed db (some i)).queue
unfolding clean_up_failed
queue-clean_up_failed db i =
    elim (Bool-cases (is_failed i.status && is_create i.action && not (i.note_id == ""))) [
      | inl t ↦ rw t (sym (queue-delete_note db i.note_id))
      | inr t ↦ rw t
    ]

module _ (random_id : ℕ → String) (c : Caller) where
  insert_and_enqueue-IsQueued :
      (db : Db) (req : CreateNoteRequest)
      → IsWellFormed db.queue
      → IsQueued c (insert_and_enqueue random_id db c req)
  unfolding insert_and_enqueue delete_note remove_notes
  insert_and_enqueue-IsQueued db req w =
      let note = new_note c (random_id db.drawn) req in
      let drawn = record db { drawn = suc db.drawn } in
      elim (Result-cases (create_note drawn note)) [
        | inr (e, h) ↦ rw (h, insert_and_enqueue) (λ x. cc)
        | inl (created, h) ↦
            let e =
              enqueue_write-Enqueued created.queue (write_of c create note.id (create_payload req))
                (subst IsWellFormed (queue-create_note drawn note h) w) in
            elim (Bool-cases c.enqueue_fails) [
              | inl f ↦
                  rw (h, insert_and_enqueue)
                    (rw
                      (failed_enqueue c created.queue
                        (write_of c create note.id (create_payload req)) f)
                      (λ x. cc))
              | inr f ↦
                  let runs =
                    tried_enqueue c created.queue (write_of c create note.id (create_payload req)) f
                    ∙ e.runs in
                  elim (Bool-cases (not (e.item.note_id == note.id))) [
                    | inl t ↦
                        rw (h, insert_and_enqueue) (rw runs (rw t (λ _. (e.item, e.found, e.live))))
                    | inr t ↦
                        rw (h, insert_and_enqueue) (rw runs (rw t (λ _. (e.item, e.found, e.live))))
                  ]
            ]
      ]

  -- On a well-formed queue, if a request to create a note under a key is not refused, an item that
  -- is not failed stands in the queue under the key.
  create_note_request-IsQueued :
      (db : Db) (req : Option CreateNoteRequest)
      → IsWellFormed db.queue
      → (c.key == "") ≡ false
      → IsQueued c (create_note_request random_id db c req)
  unfolding create_note_request existing_item is_retryable_queue_item
  create_note_request-IsQueued db none w keyed = λ x. cc
  create_note_request-IsQueued db (some req) w keyed = elim (Bool-cases (req.title == "")) [
    | inl t ↦ rw (t, create_note_request) (λ x. cc)
    | inr t ↦ elim (Option-cases (existing_item db c)) [
      | inl e ↦ rw (t, create_note_request) (rw e (insert_and_enqueue-IsQueued db req w))
      | inr (i, e) ↦ elim (Bool-cases (is_retryable_queue_item (some i))) [
        | inl f ↦ rw (t, create_note_request) (rw e (rw f (λ _. (i, ground arith, ground arith))))
        | inr f ↦
            rw (t, create_note_request)
              (rw e (
                rw f (
                  insert_and_enqueue-IsQueued (clean_up_failed db (some i)) req
                    (subst IsWellFormed (queue-clean_up_failed db i) w))))
      ]
    ]
  ]

none_retryable : is_retryable_queue_item none ≡ false
unfolding is_retryable_queue_item
none_retryable = refl

create_retry :
    (random_id : ℕ → String) (db : Db) (c : Caller) (req : Option CreateNoteRequest)
    → is_retryable_queue_item (existing_item db c) ≡ true
    → (create_note_request random_id db c req).0 ≡ db
unfolding create_note_request
create_retry random_id db c none h = refl
create_retry random_id db c (some req) h = elim (Bool-cases (req.title == "")) [
  | inl t ↦ rw (t, create_note_request)
  | inr t ↦ elim (Option-cases (existing_item db c)) [
    | inl e ↦ cc (none_retryable, subst (λ o. is_retryable_queue_item o ≡ true) e h)
    | inr (i, e) ↦
        rw (t, create_note_request) (rw e (rw (subst (λ o. is_retryable_queue_item o ≡ true) e h)))
  ]
]

-- On a well-formed queue, once a request to create a note under a key is accepted, any request to
-- create a note under that key, by the same consumer, changes nothing: there is no second note.
pub create_again :
    (random_id : ℕ → String) (db : Db) (c c' : Caller) (req req' : Option CreateNoteRequest)
    → IsWellFormed db.queue
    → (c.key == "") ≡ false
    → c'.key ≡ c.key
    → c'.consumer ≡ c.consumer
    → is_refused (create_note_request random_id db c req).1 ≡ false
    → (create_note_request random_id (create_note_request random_id db c req).0 c' req').0
      ≡ (create_note_request random_id db c req).0
create_again random_id db c c' req req' w keyed key consumer accepted =
    let out = create_note_request random_id db c req in
    let (i, found, live) = create_note_request-IsQueued random_id c db req w keyed accepted in
    create_retry random_id out.0 c' req'
      (retryable_of_found c c' keyed key consumer out.0 found live)
