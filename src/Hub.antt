-- ===== src/Hub.antt =====
-- The hub as a state machine: the transactions of internal/store/sqlite.go in any order, on a
-- database that starts empty. The handlers of internal/api call nothing else that writes to the
-- queue.
use bear_sync.Prelude.{
  ℕ, String, Bool, ◌&&◌, some, List, [], ◌≡◌, refl, arith, update, select, All-update, ok,
  >>=-eq-ok, Option-cases, inl, inr,
}
use mathlib.Core.Path.{subst}
use bear_sync.Models.Note.{Note}
use bear_sync.Models.WriteQueue.{WriteQueueItem, Payload, is_pending}
use bear_sync.Models.Sync.{SyncAckItem, SyncPushRequest}
use bear_sync.Store.Db.{Db, QueueTable, by_id}
use bear_sync.Store.NoteTable.{create_note, update_note, delete_note}
use bear_sync.Store.Push.Deletes.{remove_notes}
use bear_sync.Store.Queue.Enqueue.{
  WriteRequest, enqueue_write, coalesce_create_update, by_pending_create, merge_body, merge_payload,
  merge_into, read_back,
}
use bear_sync.Store.Queue.Lease.{lease_queue_items}
use bear_sync.Store.Queue.Shape.{HasLease, IsWellFormed, Ascending-update}
use bear_sync.Store.Queue.Idempotent.{enqueue_write-found}
use bear_sync.Store.Queue.Exclusive.{lease-IsWellFormed}
use bear_sync.Store.Ack.{ack_queue_items}
use bear_sync.Store.Ack.Laws.{ack_queue_items-IsWellFormed}
use bear_sync.Store.Push.{process_sync_push}
use bear_sync.Store.Push.QueueLaws.{process_sync_push-IsWellFormed}

abbrev pub empty_db : Db
empty_db = record {
  notes = [];
  tags = [];
  note_tags = [];
  pinned_note_tags = [];
  attachments = [];
  backlinks = [];
  queue = record { rows = []; next_id = 1 };
  sync_meta = [];
  drawn = 0;
}

-- One transaction that succeeds.
pub data Step (random_id : ℕ → String) (db : Db) : Db → Type 0 where
  enqueues :
      (r : WriteRequest) (q : QueueTable) (i : WriteQueueItem)
      → enqueue_write db.queue r ≡ ok (q, i)
      → Step random_id db (record db { queue = q })
  coalesces :
      (key note consumer : String) (p : Payload) (q : QueueTable) (i : WriteQueueItem)
      → coalesce_create_update db.queue key note p consumer ≡ ok (some (q, i))
      → Step random_id db (record db { queue = q })
  leases :
      (by : String) (now duration : ℕ)
      → Step random_id db
          (record db { queue = (lease_queue_items db.notes db.queue by now duration).0 })
  acks :
      (now : ℕ) (items : List SyncAckItem) (db' : Db)
      → ack_queue_items now db items ≡ ok db'
      → Step random_id db db'
  pushes :
      (req : SyncPushRequest) (db' : Db)
      → process_sync_push random_id db req ≡ ok db'
      → Step random_id db db'
  creates : (n : Note) (db' : Db) → create_note db n ≡ ok db' → Step random_id db db'
  updates : (n : Note) (db' : Db) → update_note db n ≡ ok db' → Step random_id db db'
  deletes : (k : String) → Step random_id db (delete_note db k)

-- The databases that transactions reach.
pub data Reachable (random_id : ℕ → String) : Db → Type 0 where
  start : Reachable random_id empty_db
  next : (db db' : Db) → Reachable random_id db → Step random_id db db' → Reachable random_id db'

IsWellFormed-merged :
    (payload : Payload) (key : String) (p : WriteQueueItem → Bool) (q : QueueTable)
    → IsWellFormed q
    → IsWellFormed (record q { rows = update p (merge_payload payload key) q.rows })
IsWellFormed-merged payload key p q w = record {
  ascending =
      Ascending-update (merge_payload payload key) (λ i. refl) p 0 q.rows q.next_id w.ascending;
  leases =
      All-update HasLease p (merge_payload payload key) q.rows
        (λ i _ h. record { pending_free = h.pending_free; processing_held = h.processing_held })
        w.leases;
}

merge_into-IsWellFormed :
    (q : QueueTable) (k : ℕ) (payload : Payload) (key : String) {q' : QueueTable}
    {i : WriteQueueItem}
    → IsWellFormed q
    → merge_into q k payload key ≡ ok (some (q', i))
    → IsWellFormed q'
unfolding merge_into read_back
merge_into-IsWellFormed q k payload key {q'} {i} w run =
    subst IsWellFormed (ground arith)
      (IsWellFormed-merged payload key (λ j. by_id k j && is_pending j.status) q w)

coalesce-IsWellFormed :
    (q : QueueTable) (key note consumer : String) (p : Payload) {q' : QueueTable}
    {i : WriteQueueItem}
    → IsWellFormed q
    → coalesce_create_update q key note p consumer ≡ ok (some (q', i))
    → IsWellFormed q'
unfolding coalesce_create_update
coalesce-IsWellFormed q key note consumer p w run =
    elim (Option-cases (select (by_pending_create note consumer) q.rows)) [
      | inl e ↦ cc (rw (e, coalesce_create_update) at run)
      | inr (e, found) ↦
          let split =
            >>=-eq-ok (merge_body e.payload p) (λ m. merge_into q e.id m key)
              (rw (found, coalesce_create_update) at run) in
          merge_into-IsWellFormed q e.id split.0 key w split.2
    ]

queue-create_note :
    (db : Db) (n : Note) {db' : Db} → create_note db n ≡ ok db' → db.queue ≡ db'.queue
unfolding create_note
queue-create_note db n h = ground arith

queue-update_note :
    (db : Db) (n : Note) {db' : Db} → update_note db n ≡ ok db' → db.queue ≡ db'.queue
unfolding update_note
queue-update_note db n h = ground arith

queue-delete_note : (db : Db) (k : String) → db.queue ≡ (delete_note db k).queue
unfolding delete_note remove_notes
queue-delete_note db k = refl

Step-IsWellFormed :
    (random_id : ℕ → String) (db db' : Db)
    → Step random_id db db'
    → IsWellFormed db.queue
    → IsWellFormed db'.queue
Step-IsWellFormed random_id db _ (enqueues r q i run) w =
    (enqueue_write-found db.queue q r i w run).2
Step-IsWellFormed random_id db _ (coalesces key note consumer p q i run) w =
    coalesce-IsWellFormed db.queue key note consumer p w run
Step-IsWellFormed random_id db _ (leases by now duration) w =
    lease-IsWellFormed db.notes db.queue by now duration w
Step-IsWellFormed random_id db _ (acks now items db' run) w =
    ack_queue_items-IsWellFormed now db items w run
Step-IsWellFormed random_id db _ (pushes req db' run) w =
    process_sync_push-IsWellFormed random_id db db' req w run
Step-IsWellFormed random_id db _ (creates n db' run) w =
    subst IsWellFormed (queue-create_note db n run) w
Step-IsWellFormed random_id db _ (updates n db' run) w =
    subst IsWellFormed (queue-update_note db n run) w
Step-IsWellFormed random_id db _ (deletes k) w = subst IsWellFormed (queue-delete_note db k) w

-- In every database that the queue's transactions, pushes, and creations, updates and deletions
-- of notes reach from the empty one, in any order, where they succeed, the write queue is well-
-- formed: its ids ascend, a pending item is free, and an item that is being processed has a lease
-- that ends.
pub Reachable-IsWellFormed :
    (random_id : ℕ → String) (db : Db) → Reachable random_id db → IsWellFormed db.queue
Reachable-IsWellFormed random_id _ start = record { ascending = omega arith; leases = tt }
Reachable-IsWellFormed random_id _ (next db db' before step) =
    Step-IsWellFormed random_id db db' step (Reachable-IsWellFormed random_id db before)
