-- ===== src/Store/Ack/Live.antt =====
-- The live items of a note, and the rows of the queue under the acks of internal/store/sqlite.go.
use bear_sync.Prelude.{
  ℕ, ◌≤◌, String, false, ◌&&◌, some, List, [], ◌∷◌, ◌==◌, ◌≡◌, refl, arith, select, update,
  count_where, All-update,
}
use bear_sync.Models.WriteQueue.{WriteQueueItem, is_live, is_processing}
use bear_sync.Store.Db.{by_id, QueueTable}
use bear_sync.Store.Ack.{other_pending, set_applied}
use bear_sync.Store.Queue.Shape.{HasLease, IsWellFormed, Ascending-update}

abbrev pub live_count : String → List WriteQueueItem → ℕ
live_count note = count_where (λ i. i.note_id == note && is_live i.status)

-- Once the acked row is applied, the live items of its note are the others.
pub others_are_live :
    (now k : ℕ) (note : String) (rows : List WriteQueueItem)
    → other_pending note k (update (by_id k) (set_applied now) rows)
      ≡ live_count note (update (by_id k) (set_applied now) rows)
others_are_live now k note [] = refl
others_are_live now k note (i ∷ rows) = ground (arith, others_are_live now k note rows)

pub HasLease-ended : (i : WriteQueueItem) → is_live i.status ≡ false → HasLease i
HasLease-ended i e = record {
  pending_free = λ p. ground arith;
  processing_held = λ p. ground arith;
}

module _ (f : WriteQueueItem → WriteQueueItem) (keeps_id : (i : WriteQueueItem) → (f i).id ≡ i.id)
    (keeps_note : (i : WriteQueueItem) → (f i).note_id ≡ i.note_id)
    (ends : (i : WriteQueueItem) → is_live (f i).status ≡ false) (k : ℕ) where
  pub live_count-update :
      (note : String) (rows : List WriteQueueItem)
      → live_count note (update (by_id k) f rows) ≤ live_count note rows
  live_count-update note [] = omega arith
  live_count-update note (i ∷ rows) =
      ground (arith, live_count-update note rows, ends i, keeps_note i)

  pub ended_idle :
      (rows : List WriteQueueItem) {j : WriteQueueItem}
      → select (by_id k) (update (by_id k) f rows) ≡ some j
      → is_processing j.status ≡ false
  ended_idle [] h = ground arith
  ended_idle (i ∷ rows) {j} h = ground (arith, keeps_id i, ends i, ended_idle rows {j = j})

  pub ended_dead :
      (rows : List WriteQueueItem) {j : WriteQueueItem}
      → select (by_id k) (update (by_id k) f rows) ≡ some j
      → is_live j.status ≡ false
  ended_dead [] h = ground arith
  ended_dead (i ∷ rows) {j} h = ground (arith, keeps_id i, ends i, ended_dead rows {j = j})

  pub IsWellFormed-ended :
      (q : QueueTable)
      → IsWellFormed q
      → IsWellFormed (record q { rows = update (by_id k) f q.rows })
  IsWellFormed-ended q w = record {
    ascending = Ascending-update f keeps_id (by_id k) 0 q.rows q.next_id w.ascending;
    leases =
        All-update HasLease (by_id k) f q.rows (λ i _ _. HasLease-ended (f i) (ends i)) w.leases;
  }
