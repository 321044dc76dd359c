-- ===== src/Store/Ack/Again.antt =====
-- Proofs about a batch of acks that `AckQueueItems` of internal/store/sqlite.go gets a second time.
use bear_sync.Prelude.{ℕ, List, [], ◌∷◌, ◌≡◌, refl, false, arith, ok, All}
use bear_sync.Models.WriteQueue.{QueueStatus, is_live, is_processing}
use bear_sync.Models.Sync.{SyncAckItem}
use bear_sync.Store.Db.{Db}
use bear_sync.Store.Ack.{ack_queue_items}
use bear_sync.Store.Ack.Laws.{
  Idle, ack_single_item-Ended, ack-Idle, Idle-Ended, ack_queue_items-step,
}
use bear_sync.Store.Ack.Ended.{IsNot-ack_queue_items}

processing_live : (s : QueueStatus) → is_live s ≡ false → is_processing s ≡ false
processing_live s e = ground arith

-- After a batch that succeeds none of its acks finds an item that is being processed.
All-Idle :
    (now : ℕ) (db : Db) (items : List SyncAckItem) {db' : Db}
    → ack_queue_items now db items ≡ ok db'
    → All (Idle db') items
All-Idle now db [] run = tt
All-Idle now db (a ∷ items) {db'} run =
    let (d, one, rest) = ack_queue_items-step now db a items run in
    (
      IsNot-ack_queue_items is_processing processing_live now d items a.queue_id rest
          (Idle-Ended db a d (ack_single_item-Ended now db a one)),
      All-Idle now d items rest,
    )

ack-All-Idle :
    (now : ℕ) (db : Db) (items : List SyncAckItem)
    → All (Idle db) items
    → ack_queue_items now db items ≡ ok db
unfolding ack_queue_items
ack-All-Idle now db [] h = refl
ack-All-Idle now db (a ∷ items) h =
    rw (ack-Idle now db a h.0, ack_queue_items) (ack-All-Idle now db items h.1)

-- A batch of acks that succeeded, delivered again at any time, succeeds and changes nothing.
pub ack_batch_again :
    (now later : ℕ) (db : Db) (items : List SyncAckItem) {db' : Db}
    → ack_queue_items now db items ≡ ok db'
    → ack_queue_items later db' items ≡ ok db'
ack_batch_again now later db items {db'} run =
    ack-All-Idle later db' items (All-Idle now db items run)
