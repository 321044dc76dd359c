-- ===== src/Store/Queue/Retry.antt =====
-- Proofs about the idempotency keys of `EnqueueWrite` of internal/store/sqlite.go.
use bear_sync.Prelude.{
  ℕ, String, true, false, ◌&&◌, Option, none, some, ◌==◌, ◌≡◌, sym, ◌∙◌, arith, select, All, ok,
  if◌then◌else◌, Bool-cases, inl, inr, nat_eq_iff, select-update-none, All-imp,
}
use mathlib.Core.Path.{subst}
use bear_sync.Models.WriteQueue.{WriteQueueItem, Payload, is_failed, is_pending}
use bear_sync.Store.Db.{QueueTable, by_id}
use bear_sync.Store.Queue.Shape.{IsWellFormed}
use bear_sync.Store.Queue.Enqueue.{
  WriteRequest, by_key, get_by_key, handle_idempotency_hit, enqueue_write, by_pending_update,
  coalesces, merge_payload,
}
use bear_sync.Store.Queue.Steps.{enqueue_write_hit, enqueue_write_merges, with_update}
use bear_sync.Store.Queue.Idempotent.{enqueue_write-found, ok_pair}

-- An item under the key that is not failed is returned as it is.
pub enqueue_existing :
    (q : QueueTable) (r : WriteRequest) {i : WriteQueueItem}
    → get_by_key q r.idempotency_key r.consumer_id ≡ some i
    → is_failed i.status ≡ false
    → enqueue_write q r ≡ ok (q, i)
unfolding handle_idempotency_hit
enqueue_existing q r h f = enqueue_write_hit q r h ∙ rw f

-- On a well-formed queue, whatever a second EnqueueWrite asks for, under the key and the consumer
-- of a first that succeeded it returns the first one's item and changes nothing.
pub enqueue_again :
    (q q' : QueueTable) (r r' : WriteRequest) (i : WriteQueueItem)
    → IsWellFormed q
    → enqueue_write q r ≡ ok (q', i)
    → r'.idempotency_key ≡ r.idempotency_key
    → r'.consumer_id ≡ r.consumer_id
    → enqueue_write q' r' ≡ ok (q', i)
enqueue_again q q' r r' i w run sk sc =
    let known = enqueue_write-found q q' r i w run in
    enqueue_existing q' r' (rw (sk, sc) known.0) known.1

-- The pending update that a new update of the same note merges with.
abbrev pub coalescing : QueueTable → WriteRequest → Option WriteQueueItem
coalescing q r = select (by_pending_update r.note_id r.consumer_id) q.rows

-- `i` answers to the key, if at all, as the pending row `k`, and not by its first key.
abbrev pub AnswersAs : String → String → ℕ → WriteQueueItem → Type 0
AnswersAs key consumer k i =
    by_key key consumer i ≡ true
    → (i.id ≡ k) × (is_pending i.status ≡ true) × ((i.idempotency_key == key) ≡ false)

not_by_merged :
    (key new consumer : String) (p : Payload) (i : WriteQueueItem)
    → (new == key) ≡ false
    → (i.idempotency_key == key) ≡ false
    → by_key key consumer (merge_payload p new i) ≡ false
not_by_merged key new consumer p i n o = rw (o, n)

not_by_key_merged :
    (key new consumer : String) (p : Payload) (i : WriteQueueItem)
    → (new == key) ≡ false
    → by_key key consumer i ≡ false
    → by_key key consumer (merge_payload p new i) ≡ false
not_by_key_merged key new consumer p i n o = ground arith

forget_row :
    (key new consumer : String) (p : Payload) (k : ℕ) (i : WriteQueueItem)
    → (new == key) ≡ false
    → AnswersAs key consumer k i
    → by_key key consumer (if by_id k i && is_pending i.status then merge_payload p new i else i)
      ≡ false
forget_row key new consumer p k i n a = elim (Bool-cases (by_key key consumer i)) [
  | inl y ↦
      let (same, pending, other) = a y in
      rw ((nat_eq_iff i.id k).1 same, pending) (not_by_merged key new consumer p i n other)
  | inr y ↦ elim (Bool-cases (by_id k i && is_pending i.status)) [
    | inl g ↦ rw g (not_by_key_merged key new consumer p i n y)
    | inr g ↦ rw g y
  ]
]

-- On a well-formed queue, if an update under a new key coalesces with a pending row, and no other
-- row answers to a key that this row does not have as its first key, then after the call no row
-- answers to that key, unless it is the new one.
pub coalesce_forgets_key :
    (q q' : QueueTable) (r : WriteRequest) (e i : WriteQueueItem) (key : String)
    → IsWellFormed q
    → get_by_key q r.idempotency_key r.consumer_id ≡ none
    → coalesces r ≡ true
    → coalescing q r ≡ some e
    → All (AnswersAs key r.consumer_id e.id) q.rows
    → (r.idempotency_key == key) ≡ false
    → enqueue_write q r ≡ ok (q', i)
    → get_by_key q' key r.consumer_id ≡ none
unfolding get_by_key
coalesce_forgets_key q q' r e i key w miss c found answers ne run =
    let merged =
      with_update q (λ j. by_id e.id j && is_pending j.status)
        (merge_payload r.payload r.idempotency_key) in
    let same = ok_pair (sym (enqueue_write_merges q r w found c miss) ∙ run) in
    subst (λ t. select (by_key key r.consumer_id) t.rows ≡ none) same.0
      (select-update-none (by_key key r.consumer_id) (λ j. by_id e.id j && is_pending j.status)
        (merge_payload r.payload r.idempotency_key) q.rows
        (All-imp (AnswersAs key r.consumer_id e.id) _ q.rows
          (λ j a. forget_row key r.idempotency_key r.consumer_id r.payload e.id j ne a) answers))
