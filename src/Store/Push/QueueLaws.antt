-- ===== src/Store/Push/QueueLaws.antt =====
-- Proofs about `ProcessSyncPush` of internal/store/sqlite.go on the queue as a table.
use bear_sync.Prelude.{ℕ, String, Bool, ◌&&◌, ◌≡◌, refl, sym, update, All-update, ok}
use mathlib.Core.Path.{subst}
use bear_sync.Models.WriteQueue.{WriteQueueItem, is_live}
use bear_sync.Models.Sync.{SyncPushRequest}
use bear_sync.Store.Db.{Db, QueueTable}
use bear_sync.Store.Ack.{set_failed}
use bear_sync.Store.Ack.Live.{HasLease-ended}
use bear_sync.Store.Queue.Shape.{HasLease, IsWellFormed, Ascending-update}
use bear_sync.Store.Push.{process_sync_push, apply_deletes}
use bear_sync.Store.Push.Deletes.{
  note_deleted, refers_to, fail_queue_items_for_deleted_notes, delete_notes, remove_notes,
  delete_tags, delete_attachments, delete_backlinks,
}
use bear_sync.Store.Push.Whole.{process_sync_push-Stages}

IsWellFormed-failed :
    (why : String) (p : WriteQueueItem → Bool) (q : QueueTable)
    → IsWellFormed q
    → IsWellFormed (record q { rows = update p (set_failed why) q.rows })
IsWellFormed-failed why p q w = record {
  ascending = Ascending-update (set_failed why) (λ i. refl) p 0 q.rows q.next_id w.ascending;
  leases =
      All-update HasLease p (set_failed why) q.rows
        (λ i _ _. HasLease-ended (set_failed why i) refl) w.leases;
}

apply_deletes-IsWellFormed :
    (req : SyncPushRequest) (db : Db)
    → IsWellFormed db.queue
    → IsWellFormed (apply_deletes req db).queue
unfolding apply_deletes delete_notes remove_notes delete_tags delete_attachments delete_backlinks
    fail_queue_items_for_deleted_notes
apply_deletes-IsWellFormed req db w =
    IsWellFormed-failed "note deleted from Bear"
      (λ i. is_live i.status && refers_to (note_deleted req.deleted_note_ids) db.notes i.note_id)
      db.queue w

-- A push that succeeds keeps a well-formed queue well-formed.
pub process_sync_push-IsWellFormed :
    (random_id : ℕ → String) (db db' : Db) (req : SyncPushRequest)
    → IsWellFormed db.queue
    → process_sync_push random_id db req ≡ ok db'
    → IsWellFormed db'.queue
process_sync_push-IsWellFormed random_id db db' req w run =
    let s = process_sync_push-Stages random_id db req run in
    subst (λ (d : Db). IsWellFormed d.queue) s.ends
      (apply_deletes-IsWellFormed req s.before (subst IsWellFormed (sym s.same_queue) w))
