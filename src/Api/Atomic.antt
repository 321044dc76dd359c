-- ===== src/Api/Atomic.antt =====
-- Proofs that `updateNote` and `trashNote` of internal/api/notes_handler.go write their note and its
-- queue item both, or neither.
use bear_sync.Prelude.{
  String, true, false, some, [], ◌∷◌, ◌==◌, ◌≡◌, refl, sym, ap, ◌∙◌, inl, inr, arith, nat_eq,
  eq_iff, select, select_sound, ok, if◌then◌else◌, Bool-cases, Option-cases, Result-cases,
}
use mathlib.Core.Path.{subst}
use bear_sync.Models.Note.{Note, strip_internal}
use bear_sync.Models.WriteQueue.{
  WriteQueueItem, Action, Payload, update, trash, text, object, is_failed,
}
use bear_sync.Store.Db.{Db, note_by_id}
use bear_sync.Store.Ack.{is_conflict}
use bear_sync.Store.Queue.Enqueue.{get_by_key}
use bear_sync.Store.Queue.Shape.{IsWellFormed}
use bear_sync.Store.Queue.Idempotent.{enqueue_write-Enqueued}
use bear_sync.Store.NoteRows.{UniqueIds}
use bear_sync.Store.NoteTable.{get_note, update_note}
use bear_sync.Api.Reply.{
  Reply, refused, note_reply, is_refused, Caller, write_of, existing_item, is_retryable_queue_item,
  refusal, has_no_bear_id,
}
use bear_sync.Api.Notes.{
  save_and_enqueue, bear_id_of, trashed_note, restore_trashed, trash_note, updated_note,
  restore_updated, write_body, update_note_body,
}
use bear_sync.Api.Laws.{tried_enqueue, failed_enqueue, queue-update_note}
use bear_sync.Api.Written.{
  IsTrashed, IsUpdated, kept-HoldsBears, snapshot_keeps, restored_trashed, restored_updated,
}
use bear_sync.Api.WriteBack.{write_back, get_written, get_other}

-- A refusal leaves the database; so does a request whose item is there already; and else the note
-- `id` is written, and no other, and its item stands under the caller's key.
pub data Atomic (db : Db) (c : Caller) (id : String) (Wrote : Note → Note → Type 0)
    : Db × Reply → Type 0 where
  undone : (r : Reply) → is_refused r ≡ true → Atomic db c id Wrote (db, r)
  repeated :
      (r : Reply) (i : WriteQueueItem)
      → is_refused r ≡ false
      → get_by_key db.queue c.key c.consumer ≡ some i
      → is_failed i.status ≡ false
      → Atomic db c id Wrote (db, r)
  both_written :
      (db' : Db) (r : Reply) (n m : Note) (i : WriteQueueItem)
      → is_refused r ≡ false
      → get_note db id ≡ some n
      → get_note db' id ≡ some m
      → Wrote n m
      → ((j : String) → (j == id) ≡ false → get_note db' j ≡ get_note db j)
      → get_by_key db'.queue c.key c.consumer ≡ some i
      → is_failed i.status ≡ false
      → IsWellFormed db'.queue
      → Atomic db c id Wrote (db', r)

refusal-is_refused :
    (n : Note) (msg : String) (r : Reply) → refusal n msg ≡ some r → is_refused r ≡ true
unfolding refusal
refusal-is_refused n msg r h = ground arith

module _ (db : Db) (c : Caller) (w : IsWellFormed db.queue) (u : UniqueIds db.notes) where
  -- From the call of `UpdateNote` on, for a note that is written back as it was.
  save_and_enqueue-Atomic :
      (n x restored : Note) (Wrote : Note → Note → Type 0) (action : Action) (p : Payload)
      → x.id ≡ n.id
      → x.bear_id ≡ n.bear_id
      → restored ≡ n
      → Wrote n x
      → get_note db n.id ≡ some n
      → Atomic db c n.id Wrote (save_and_enqueue c db x restored (write_of c action n.id p))
  unfolding save_and_enqueue get_note
  save_and_enqueue-Atomic n x restored Wrote action p same_id same_bear back wrote found =
      let req = write_of c action n.id p in
      elim (Result-cases (update_note db x)) [
        | inr (e, h) ↦ rw (h, save_and_enqueue) (undone (refused 500 "failed to update note") refl)
        | inl (saved, h) ↦ elim (Bool-cases c.enqueue_fails) [
          | inl f ↦
              let undo : update_note saved restored ≡ ok db =
                ap (update_note saved) back ∙ write_back db n x same_id same_bear found h u in
              rw (h, save_and_enqueue)
                (rw (failed_enqueue c saved.queue req f)
                  (rw undo (undone (refused 500 "failed to enqueue write") refl)))
          | inr f ↦
              let e =
                enqueue_write-Enqueued saved.queue req
                  (subst IsWellFormed (queue-update_note db c w x h) w) in
              rw (h, save_and_enqueue)
                (rw (tried_enqueue c saved.queue req f ∙ e.runs) (
                  both_written (record saved { queue = e.table })
                    (note_reply 200 (strip_internal x)) n x e.item refl found
                    (get_written db n x same_id same_bear found h) wrote
                    (get_other db n x same_id same_bear found h) e.found e.live e.well_formed))
        ]
      ]

  once-Atomic :
      (n x restored : Note) (Wrote : Note → Note → Type 0) (action : Action) (p : Payload)
      → x.id ≡ n.id
      → x.bear_id ≡ n.bear_id
      → restored ≡ n
      → Wrote n x
      → get_note db n.id ≡ some n
      → Atomic db c n.id Wrote (
          if is_retryable_queue_item (existing_item db c)
          then (db, note_reply 200 (strip_internal n))
          else save_and_enqueue c db x restored (write_of c action n.id p))
  unfolding is_retryable_queue_item existing_item
  once-Atomic n x restored Wrote action p same_id same_bear back wrote found =
      elim (Bool-cases (is_retryable_queue_item (existing_item db c))) [
        | inr t ↦
            rw t (
              save_and_enqueue-Atomic n x restored Wrote action p same_id same_bear back wrote
                found)
        | inl t ↦ elim (Option-cases (existing_item db c)) [
          | inl e ↦ cc (rw e at t)
          | inr (i, e) ↦
              rw t
                (repeated (note_reply 200 (strip_internal n)) i refl (ground arith) (ground arith))
        ]
      ]

  -- The id that found a note is its id.
  by_its_id :
      (id : String) (Wrote : Note → Note → Type 0) {n : Note} (out : Db × Reply)
      → get_note db id ≡ some n
      → (get_note db n.id ≡ some n → Atomic db c n.id Wrote out)
      → Atomic db c id Wrote out
  unfolding get_note
  by_its_id id Wrote {n} out found proof =
      let same : n.id ≡ id = (eq_iff n.id id).0 (select_sound (note_by_id id) db.notes found) in
      subst (λ k. Atomic db c k Wrote out) same
        (proof (subst (λ k. select (note_by_id k) db.notes ≡ some n) (sym same) found))

  -- On a well-formed queue and with unique ids, a request to trash a note is refused and the
  -- database stays as it was, also where the write of the note has succeeded and its item cannot
  -- be enqueued; or an item that is not failed stands under the caller's key already and the
  -- database stays as it was; or both are written: the note is in the trash, with its content and
  -- Bear's, and waits for Bear, no other note has changed, and an item that is not failed stands
  -- under the caller's key.
  pub trash_note-Atomic : (id : String) → Atomic db c id (IsTrashed c) (trash_note db c id)
  unfolding trash_note
  trash_note-Atomic id = elim (Option-cases (get_note db id)) [
    | inl e ↦ rw (e, trash_note) (undone (refused 404 "note not found") refl)
    | inr (n, e) ↦
        let msg : String = "note has unresolved conflicts; resolve conflicts before trashing" in
        elim (Option-cases (refusal n msg)) [
          | inr (r, f) ↦ rw (e, trash_note) (rw f (undone r (refusal-is_refused n msg r f)))
          | inl f ↦
              rw (e, trash_note)
                (rw f (
                  by_its_id id (IsTrashed c) {n = n} _ e (
                    once-Atomic n (trashed_note c n) (restore_trashed n (trashed_note c n))
                      (IsTrashed c) trash
                      (object (("action", text "trash") ∷ ("bear_id", text (bear_id_of n)) ∷ []))
                      (snapshot_keeps (λ x. x.id) n (λ t b. refl))
                      (snapshot_keeps (λ x. x.bear_id) n (λ t b. refl)) (restored_trashed c n)
                      (trashed n))))
        ]
  ]
    where
      trashed : (n : Note) → IsTrashed c n (trashed_note c n)
      trashed n = record {
        trashed = refl;
        trashed_at = refl;
        title = snapshot_keeps (λ x. x.title) n (λ t b. refl);
        body = snapshot_keeps (λ x. x.body) n (λ t b. refl);
        waits = refl;
        holds = kept-HoldsBears n (trashed_note c n) refl refl;
      }

  write_body-Atomic :
      (id : String) (n : Note) (b : String)
      → get_note db id ≡ some n
      → has_no_bear_id n ≡ false
      → Atomic db c id (IsUpdated c b) (write_body db c n (some b))
  unfolding write_body
  write_body-Atomic id n b e known = elim (Bool-cases (b == "")) [
    | inl t ↦ rw t (undone (refused 400 "body is required") refl)
    | inr t ↦
        rw (t, known)
          (by_its_id id (IsUpdated c b) {n = n} _ e (
            once-Atomic n (updated_note c b n) (restore_updated n (updated_note c b n))
              (IsUpdated c b) update
              (object (("bear_id", text (bear_id_of n)) ∷ ("body", text b) ∷ []))
              (snapshot_keeps (λ x. x.id) n (λ u v. refl))
              (snapshot_keeps (λ x. x.bear_id) n (λ u v. refl)) (restored_updated c b n)
              (record {
                body = refl;
                title = refl;
                trashed = snapshot_keeps (λ x. x.trashed) n (λ u v. refl);
                modified_at = refl;
                waits = refl;
                holds = kept-HoldsBears n (updated_note c b n) refl refl;
              })))
  ]

  -- On a well-formed queue and with unique ids, a request to give a note that Bear knows a new
  -- body is refused and the database stays as it was, also where the write of the note has
  -- succeeded and its item cannot be enqueued; or an item that is not failed stands under the
  -- caller's key already and the database stays as it was; or both are written: the note has the
  -- body and the title that it starts with, holds Bear's content and waits for Bear, no other
  -- note has changed, and an item that is not failed stands under the caller's key.
  pub update_note_body-Atomic :
      (id b : String) {n : Note}
      → get_note db id ≡ some n
      → has_no_bear_id n ≡ false
      → Atomic db c id (IsUpdated c b) (update_note_body db c id (some b))
  unfolding update_note_body
  update_note_body-Atomic id b {n} e known = elim (Bool-cases (nat_eq n.encrypted 1)) [
    | inl t ↦
        rw (e, update_note_body) (rw t (undone (refused 403 "encrypted notes are read-only") refl))
    | inr t ↦ elim (Bool-cases (is_conflict n.sync_status)) [
      | inl f ↦ rw (e, update_note_body) (rw (t, f) (undone _ refl))
      | inr f ↦ rw (e, update_note_body) (rw (t, f) (write_body-Atomic id n b e known))
    ]
  ]
