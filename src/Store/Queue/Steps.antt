-- ===== src/Store/Queue/Steps.antt =====
-- What the parts of `EnqueueWrite` of internal/store/sqlite.go return, each under the tests that
-- lead to it.
use bear_sync.Prelude.{
  ℕ, suc, String, Bool, true, false, ◌&&◌, none, some, [], ◌∷◌, ◌++◌, ◌==◌, ◌≡◌, refl, ap, ◌∙◌, ◌⊎◌,
  inl, inr, arith, nat_eq, select, update, any, select_sound, Bool-cases, ok,
}
use bear_sync.Models.WriteQueue.{WriteQueueItem, is_pending}
use bear_sync.Store.Db.{QueueTable, by_id}
use bear_sync.Store.Queue.Shape.{IsWellFormed, select-update_found, select-by_id, count-ne-zero}
use bear_sync.Store.Queue.Enqueue.{
  WriteRequest, by_key, get_by_key, read_back, handle_idempotency_hit, merge_payload, merge_into,
  by_pending_update, coalesce_update_tx, inserted, same_key, insert_item, coalesces, enqueue_new,
  enqueue_write,
}

abbrev pub with_update :
    QueueTable → (WriteQueueItem → Bool) → (WriteQueueItem → WriteQueueItem) → QueueTable
with_update q p f = record q { rows = update p f q.rows }

pub read_back_found :
    (q : QueueTable) (k : ℕ) {i : WriteQueueItem}
    → select (by_id k) q.rows ≡ some i
    → read_back q k ≡ ok (q, i)
unfolding read_back
read_back_found q k h = ground arith

pub enqueue_write_hit :
    (q : QueueTable) (r : WriteRequest) {e : WriteQueueItem}
    → get_by_key q r.idempotency_key r.consumer_id ≡ some e
    → enqueue_write q r ≡ handle_idempotency_hit q e r
unfolding enqueue_write
enqueue_write_hit q r h = ground arith

pub enqueue_write_miss :
    (q : QueueTable) (r : WriteRequest)
    → get_by_key q r.idempotency_key r.consumer_id ≡ none
    → enqueue_write q r ≡ enqueue_new q r
unfolding enqueue_write
enqueue_write_miss q r h = ground arith

coalesce_found :
    (q : QueueTable) (r : WriteRequest) {e : WriteQueueItem}
    → select (by_pending_update r.note_id r.consumer_id) q.rows ≡ some e
    → coalesce_update_tx q r ≡ merge_into q e.id r.payload r.idempotency_key
unfolding coalesce_update_tx
coalesce_found q r h = rw (h, coalesce_update_tx)

pub coalesce_missed :
    (q : QueueTable) (r : WriteRequest)
    → select (by_pending_update r.note_id r.consumer_id) q.rows ≡ none
    → coalesce_update_tx q r ≡ ok none
unfolding coalesce_update_tx
coalesce_missed q r h = rw (h, coalesce_update_tx)

enqueue_new_merged :
    (q : QueueTable) (r : WriteRequest) {x : QueueTable × WriteQueueItem}
    → coalesces r ≡ true
    → coalesce_update_tx q r ≡ ok (some x)
    → enqueue_new q r ≡ ok x
unfolding enqueue_new
enqueue_new_merged q r c h = rw (c, h)

pub enqueue_new_inserts :
    (q : QueueTable) (r : WriteRequest)
    → (coalesces r ≡ false) ⊎ (coalesce_update_tx q r ≡ ok none)
    → enqueue_new q r ≡ insert_item q r
unfolding enqueue_new
enqueue_new_inserts q r (inl c) = rw c
enqueue_new_inserts q r (inr h) = elim (Bool-cases (coalesces r)) [
  | inl c ↦ rw (c, h)
  | inr c ↦ rw c
]

pub insert_item_fresh :
    (q : QueueTable) (r : WriteRequest) {x : QueueTable × WriteQueueItem}
    → any (same_key r) q.rows ≡ false
    → read_back
        (record { rows = q.rows ++ inserted q.next_id r ∷ []; next_id = suc q.next_id })
        q.next_id
      ≡ ok x
    → insert_item q r ≡ ok x
unfolding insert_item
insert_item_fresh q r f h = rw f h

pub same_key→by_key :
    (r : WriteRequest) (i : WriteQueueItem)
    → same_key r i ≡ true
    → by_key r.idempotency_key r.consumer_id i ≡ true
same_key→by_key r i h = ground arith

-- What the coalescing SELECT says of its row.
found_pending :
    (note consumer : String) (i : WriteQueueItem)
    → by_pending_update note consumer i ≡ true
    → (is_pending i.status ≡ true) × ((i.consumer_id == consumer) ≡ true)
found_pending note consumer i h = ground arith

abbrev pub guarded : WriteQueueItem → WriteQueueItem → Bool
guarded e i = by_id e.id i && is_pending i.status

module _ (q : QueueTable) (r : WriteRequest) (w : IsWellFormed q) where
  -- Reading back the row of an UPDATE by id that found its row.
  pub read_back_update :
      (p g : WriteQueueItem → Bool) (f : WriteQueueItem → WriteQueueItem) {e : WriteQueueItem}
      → ((i : WriteQueueItem) → (f i).id ≡ i.id)
      → select p q.rows ≡ some e
      → g e ≡ true
      → read_back (with_update q (λ i. by_id e.id i && g i) f) e.id
        ≡ ok (with_update q (λ i. by_id e.id i && g i) f, f e)
  read_back_update p g f {e} keeps h t = read_back_found _ e.id (
      select-update_found f keeps (by_id e.id) g q.rows (λ i. ap (λ k. nat_eq k e.id) (keeps i))
        (select-by_id 0 q.rows q.next_id p w.ascending h) t)

  pub pend :
      {e : WriteQueueItem}
      → select (by_pending_update r.note_id r.consumer_id) q.rows ≡ some e
      → (is_pending e.status ≡ true) × ((e.consumer_id == r.consumer_id) ≡ true)
  pend {e} s =
      found_pending r.note_id r.consumer_id e
        (select_sound (by_pending_update r.note_id r.consumer_id) q.rows s)

  merge_into_found :
      {e : WriteQueueItem}
      → select (by_pending_update r.note_id r.consumer_id) q.rows ≡ some e
      → is_pending e.status ≡ true
      → merge_into q e.id r.payload r.idempotency_key
        ≡ ok (
            some (
              with_update q (guarded e) (merge_payload r.payload r.idempotency_key),
              merge_payload r.payload r.idempotency_key e,
            ))
  unfolding merge_into
  merge_into_found {e} s t = ground (
    arith,
    count-ne-zero q.rows (by_pending_update r.note_id r.consumer_id) (λ i. is_pending i.status) s t,
    read_back_update _ (λ i. is_pending i.status) (merge_payload r.payload r.idempotency_key)
        (λ i. refl) s t,
  )

  pub enqueue_write_merges :
      {e : WriteQueueItem}
      → select (by_pending_update r.note_id r.consumer_id) q.rows ≡ some e
      → coalesces r ≡ true
      → get_by_key q r.idempotency_key r.consumer_id ≡ none
      → enqueue_write q r
        ≡ ok (
          with_update q (guarded e) (merge_payload r.payload r.idempotency_key),
          merge_payload r.payload r.idempotency_key e,
        )
  enqueue_write_merges s c h =
      enqueue_write_miss q r h
      ∙ enqueue_new_merged q r c (coalesce_found q r s ∙ merge_into_found s (pend s).0)
