-- ===== src/Api/Cleanup.antt =====
-- Proofs about the files that `syncAck` of internal/api/sync_handler.go removes.
use bear_sync.Prelude.{
  ℕ, String, true, false, some, List, [], ◌∷◌, ◌==◌, ◌≡◌, sym, inl, inr, arith, nat_eq_iff, select,
  select_sound, Bool-cases, Option-cases, Result-cases, All,
}
use mathlib.Core.Path.{subst}
use bear_sync.Models.WriteQueue.{WriteQueueItem, is_add_file, is_ended_applied}
use bear_sync.Models.Sync.{SyncAckItem}
use bear_sync.Store.Db.{Db, by_id}
use bear_sync.Store.Ack.{ack_queue_items, is_applied}
use bear_sync.Store.Queue.Enqueue.{get_queue_item}
use bear_sync.Bridge.Payload.{string_field}
use bear_sync.Api.SyncHandlers.{
  SyncReply, Accepted, replies, accepted, sync_ack, collect_add_file_cleanup_ids, blob_of,
}

-- The blob `k` is the one of an item of the queue that is an applied `add_file`.
pub record IsSpent (db : Db) (k : String) : Type 0 where
  pub item : WriteQueueItem
  pub found : select (by_id item.id) db.queue.rows ≡ some item
  pub uploads : is_add_file item.action ≡ true
  pub ended : is_ended_applied item.status ≡ true
  pub names : string_field "attachment_id" item.payload ≡ some k
  pub named : (k == "") ≡ false

blob_of-IsSpent :
    (db : Db) (q : ℕ) (i : WriteQueueItem) (k : String)
    → select (by_id q) db.queue.rows ≡ some i
    → blob_of i ≡ some k
    → IsSpent db k
blob_of-IsSpent db q i k found h = record {
  item = i;
  found =
      subst (λ x. select (by_id x) db.queue.rows ≡ some i)
        (sym ((nat_eq_iff i.id q).0 (select_sound (by_id q) db.queue.rows found))) found;
  uploads = ground arith;
  ended = ground arith;
  names = ground arith;
  named = ground arith;
}

collect-IsSpent :
    (db : Db) (acks : List SyncAckItem) → All (IsSpent db) (collect_add_file_cleanup_ids db acks)
unfolding collect_add_file_cleanup_ids get_queue_item
collect-IsSpent db [] = tt
collect-IsSpent db (a ∷ acks) = elim (Bool-cases (is_applied a.status)) [
  | inr e ↦ rw e (collect-IsSpent db acks)
  | inl e ↦ elim (Option-cases (select (by_id a.queue_id) db.queue.rows)) [
    | inl none_found ↦ rw (e, none_found) (collect-IsSpent db acks)
    | inr (i, found) ↦ elim (Option-cases (blob_of i)) [
      | inl no_blob ↦ rw (e, found, no_blob) (collect-IsSpent db acks)
      | inr (k, blob) ↦
          rw (e, found, blob)
            (blob_of-IsSpent db a.queue_id i k found blob, collect-IsSpent db acks)
    ]
  ]
]

-- Each blob that the hub removes after acks that it accepted is named by an item of its queue
-- that adds a file and that is applied.
pub sync_ack-IsSpent :
    (db : Db) (now : ℕ) (acks : List SyncAckItem) {db' : Db} {ids : List String}
    → sync_ack db now (some acks) ≡ (db', replies accepted, ids)
    → All (IsSpent db') ids
unfolding sync_ack
sync_ack-IsSpent db now acks {db'} {ids} run = elim (Result-cases (ack_queue_items now db acks)) [
  | inl (d, e) ↦
      subst (λ (out : Db × SyncReply Accepted × List String). All (IsSpent out.0) out.2)
        (rw (e, sync_ack) at run) (collect-IsSpent d acks)
  | inr (e, h) ↦ ground arith
]
