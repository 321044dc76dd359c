-- ===== src/Store/Push/Removed.antt =====
-- Proofs about `ProcessSyncPush` of internal/store/sqlite.go on the queue items of removed notes.
use bear_sync.Prelude.{
  ℕ, String, Bool, true, ◌&&◌, none, some, List, [], ◌∷◌, ◌==◌, ◌≡◌, refl, sym, ap, ◌∙◌, inl, inr,
  arith, eq_iff, select, update, ok, Bool-cases, if◌then◌else◌,
}
use bear_sync.Models.Note.{Note}
use bear_sync.Models.WriteQueue.{WriteQueueItem, is_live}
use bear_sync.Models.Sync.{SyncPushRequest}
use bear_sync.Store.Db.{Db, note_by_id}
use bear_sync.Store.NoteRows.{UniqueIds, select-delete}
use bear_sync.Store.Ack.{set_failed}
use bear_sync.Store.Ack.Live.{live_count}
use bear_sync.Store.Push.{process_sync_push, apply_deletes}
use bear_sync.Store.Push.Deletes.{
  note_deleted, refers_to, fail_queue_items_for_deleted_notes, delete_notes, remove_notes,
  delete_tags, delete_attachments, delete_backlinks,
}
use bear_sync.Store.Push.Whole.{process_sync_push-Stages, stage_notes, upsert_notes-Upserted}

refers_to_found :
    (gone : Note → Bool) (k : String) (notes : List Note) {m : Note}
    → select (note_by_id k) notes ≡ some m
    → gone m ≡ true
    → refers_to gone notes k ≡ true
refers_to_found gone k [] h g = ground arith
refers_to_found gone k (n ∷ notes) {m} h g = ground (arith, refers_to_found gone k notes {m = m})

live_count_failed :
    (dead : String → Bool) (why k : String) (rows : List WriteQueueItem)
    → dead k ≡ true
    → live_count k (update (λ i. is_live i.status && dead i.note_id) (set_failed why) rows) ≡ 0
live_count_failed dead why k [] d = refl
live_count_failed dead why k (i ∷ rows) d = elim (Bool-cases (i.note_id == k)) [
  | inl e ↦
      ground (arith, ap dead ((eq_iff i.note_id k).0 e) ∙ d, live_count_failed dead why k rows d)
  | inr e ↦ ground (arith, live_count_failed dead why k rows d)
]

rows-apply_deletes :
    (req : SyncPushRequest) (db : Db)
    → (apply_deletes req db).queue.rows
      ≡ (fail_queue_items_for_deleted_notes req.deleted_note_ids db).queue.rows
unfolding apply_deletes delete_notes remove_notes delete_tags delete_attachments delete_backlinks
rows-apply_deletes req db = refl

removed_is_gone :
    (gone : Note → Bool) (m : Note) → (if gone m then none else some m) ≡ none → gone m ≡ true
removed_is_gone gone m h = ground arith

-- If the ids of the notes are unique, a note that a successful push removes leaves no pending or
-- processing item in the queue.
pub process_sync_push-live :
    (random_id : ℕ → String) (db db' : Db) (req : SyncPushRequest) (k : String) (m : Note)
    → UniqueIds db.notes
    → process_sync_push random_id db req ≡ ok db'
    → select (note_by_id k) db.notes ≡ some m
    → select (note_by_id k) db'.notes ≡ none
    → live_count k db'.queue.rows ≡ 0
unfolding fail_queue_items_for_deleted_notes
process_sync_push-live random_id db db' req k m u run h removed =
    let gone = note_deleted req.deleted_note_ids in
    let s = process_sync_push-Stages random_id db req run in
    let ups = upsert_notes-Upserted random_id db req.notes u s.runs in
    let f = ups.follows k m h in
    let after = select-delete gone k s.upserted.notes ups.unique f.found in
    let is_gone =
      removed_is_gone gone f.later
        (sym after ∙ ap (select (note_by_id k)) (sym (stage_notes random_id db req s)) ∙ removed) in
    let dead =
      refers_to_found gone k s.before.notes (ap (select (note_by_id k)) s.same_notes ∙ f.found)
        is_gone in
    ap (λ (d : Db). live_count k d.queue.rows) (sym s.ends)
    ∙ ap (live_count k) (rows-apply_deletes req s.before)
    ∙ live_count_failed (refers_to gone s.before.notes) "note deleted from Bear" k
        s.before.queue.rows dead
