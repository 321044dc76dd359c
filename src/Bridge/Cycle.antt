-- ===== src/Bridge/Cycle.antt =====
-- `processQueue` of cmd/bridge/queue.go as one turn between the hub and Bear, with a driver of Bear
-- configured: the bridge leases items over HTTP, applies them and sends the acks. The bodies of the
-- requests are taken to arrive as they were sent.
use bear_sync.Prelude.{ℕ, some, List, [], ◌∷◌, length}
use bear_sync.Models.WriteQueue.{LeasedItem}
use bear_sync.Models.Sync.{SyncAckItem}
use bear_sync.Store.Db.{Db}
use bear_sync.Api.SyncHandlers.{SyncReply, Accepted, refused, replies, sync_queue, sync_ack}
use bear_sync.Bridge.Bear.{Bear}
use bear_sync.Bridge.Queue.{process_items}

-- What becomes of a request: the hub answers it, serves it and the answer is lost, or does not see
-- it.
pub data Delivery : Type 0 where
  answered unanswered lost : Delivery

-- What `processQueue` returns: nil without items, nil with the number of acks, or an error.
pub data CycleEnd : Type 0 where
  idle : CycleEnd
  acked : ℕ → CycleEnd
  lease_failed ack_failed : CycleEnd

abbrev pub ack_end : ℕ → SyncReply Accepted → CycleEnd
ack_end n (refused code msg) = ack_failed
ack_end n (replies a) = acked n

unfoldable pub send_acks : Db → ℕ → Delivery → List SyncAckItem → Db × CycleEnd
unfolding sync_ack
send_acks db now lost acks = (db, ack_failed)
send_acks db now unanswered acks = ((sync_ack db now (some acks)).0, ack_failed)
send_acks db now answered acks =
    let (db', reply, ids) = sync_ack db now (some acks) in (db', ack_end (length acks) reply)

module _ (B : Bear) where
  -- `now` is the hub's clock at the acks.
  unfoldable pub apply_leased :
      Db → B.State → ℕ → Delivery → List LeasedItem → B.State × (Db × CycleEnd)
  unfolding process_items send_acks
  apply_leased db s now acking [] = (s, (db, idle))
  apply_leased db s now acking (i ∷ items) =
      let (s', acks) = process_items B s (i ∷ items) in (s', send_acks db now acking acks)

  -- `now` and `now'` are the hub's clock at the lease and at the acks.
  unfoldable pub process_queue :
      Db → B.State → ℕ → Delivery → ℕ → Delivery → B.State × (Db × CycleEnd)
  unfolding sync_queue apply_leased
  process_queue db s now lost now' acking = (s, (db, lease_failed))
  process_queue db s now unanswered now' acking =
      (s, ((sync_queue db now "bridge").0, lease_failed))
  process_queue db s now answered now' acking =
      let (db', items) = sync_queue db now "bridge" in apply_leased db' s now' acking items
