-- ===== src/Store/Ack/Ended.antt =====
-- Proofs about the items that acks end: `ackSingleItem` and `AckQueueItems` of
-- internal/store/sqlite.go on one row of the queue.
use bear_sync.Prelude.{
  ℕ, Bool, false, some, List, [], ◌∷◌, ◌≡◌, sym, ap, ◌∙◌, ◌⊎◌, inl, inr, arith, select, update, ok,
  ok_injective, Bool-cases,
}
use mathlib.Core.Path.{subst}
use bear_sync.Models.WriteQueue.{WriteQueueItem, QueueStatus, is_live, is_pending}
use bear_sync.Models.Sync.{SyncAckItem}
use bear_sync.Store.Db.{Db, by_id}
use bear_sync.Store.Ack.{ack_single_item, ack_queue_items}
use bear_sync.Store.Ack.Laws.{Ended, kept, ends, ack_single_item-Ended, ack_queue_items-step}
use bear_sync.Store.Ack.Live.{ended_dead}

-- The item `k` is in no status of `p`.
abbrev pub IsNot : (QueueStatus → Bool) → ℕ → List WriteQueueItem → Type 0
IsNot p k rows = (i : WriteQueueItem) → select (by_id k) rows ≡ some i → p i.status ≡ false

-- A row after an UPDATE is a row before it, or an updated one.
select-update_either :
    (p : WriteQueueItem → Bool) (f : WriteQueueItem → WriteQueueItem)
    → ((i : WriteQueueItem) → (f i).id ≡ i.id)
    → (k : ℕ) (rows : List WriteQueueItem) {j : WriteQueueItem}
    → select (by_id k) (update p f rows) ≡ some j
    → (select (by_id k) rows ≡ some j) ⊎ ((i : WriteQueueItem) × (f i ≡ j))
select-update_either p f keeps k [] h = ground arith
select-update_either p f keeps k (i ∷ rows) {j} h = elim (Bool-cases (by_id k i)) [
  | inl m ↦ elim (Bool-cases (p i)) [
    | inl t ↦ inr (i, ground (arith, keeps i))
    | inr t ↦ inl (ground arith)
  ]
  | inr m ↦ elim (select-update_either p f keeps k rows {j = j} (ground (arith, keeps i))) [
    | inl e ↦ inl (ground arith)
    | inr e ↦ inr e
  ]
]

-- The statuses of `p` are live ones.
module _ (p : QueueStatus → Bool) (live : (s : QueueStatus) → is_live s ≡ false → p s ≡ false) where
  IsNot-Ended :
      (db : Db) (a : SyncAckItem) (db' : Db)
      → Ended db a db'
      → (k : ℕ) → IsNot p k db.queue.rows
      → IsNot p k db'.queue.rows
  IsNot-Ended db a db' (kept idle e) k n = subst (λ (d : Db). IsNot p k d.queue.rows) (sym e) n
  IsNot-Ended db a db' (ends f ids notes dead e) k n = λ j h.
      elim (select-update_either (by_id a.queue_id) f ids k db.queue.rows
        (ap (λ q. select (by_id k) q.rows) (sym e) ∙ h)) [
          | inl same ↦ n j same
          | inr (i, same) ↦ subst (λ x. p x.status ≡ false) same (live (f i).status (dead i))
        ]

  pub IsNot-ack_single_item :
      (now : ℕ) (db : Db) (a : SyncAckItem) {db' : Db} (k : ℕ)
      → ack_single_item now db a ≡ ok db'
      → IsNot p k db.queue.rows
      → IsNot p k db'.queue.rows
  IsNot-ack_single_item now db a {db'} k run n =
      IsNot-Ended db a db' (ack_single_item-Ended now db a run) k n

  pub IsNot-ack_queue_items :
      (now : ℕ) (db : Db) (acks : List SyncAckItem) {db' : Db} (k : ℕ)
      → ack_queue_items now db acks ≡ ok db'
      → IsNot p k db.queue.rows
      → IsNot p k db'.queue.rows
  unfolding ack_queue_items
  IsNot-ack_queue_items now db [] k run n =
      subst (λ (d : Db). IsNot p k d.queue.rows) (ok_injective run) n
  IsNot-ack_queue_items now db (a ∷ acks) k run n =
      let (d, one, rest) = ack_queue_items-step now db a acks run in
      IsNot-ack_queue_items now d acks k rest (IsNot-ack_single_item now db a k one n)

-- An item that is not pending is not live after its ack.
pub ends_item :
    (now : ℕ) (db : Db) (a : SyncAckItem) {db' : Db}
    → ack_single_item now db a ≡ ok db'
    → IsNot is_pending a.queue_id db.queue.rows
    → IsNot is_live a.queue_id db'.queue.rows
ends_item now db a {db'} run n = ends_by db a db' (ack_single_item-Ended now db a run) n
  where
    ends_by :
        (db : Db) (a : SyncAckItem) (db' : Db)
        → Ended db a db'
        → IsNot is_pending a.queue_id db.queue.rows
        → IsNot is_live a.queue_id db'.queue.rows
    ends_by db a db' (kept idle e) n = λ j h.
        let h' = ap (λ (d : Db). select (by_id a.queue_id) d.queue.rows) (sym e) ∙ h in
        ground (arith, n j h', idle j h')
    ends_by db a db' (ends f ids notes dead e) n = λ j h.
        ended_dead f ids notes dead a.queue_id db.queue.rows
          (ap (λ q. select (by_id a.queue_id) q.rows) (sym e) ∙ h)
