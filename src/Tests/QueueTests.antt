-- ===== src/Tests/QueueTests.antt =====
-- The write queue at concrete inputs.
use bear_sync.Prelude.{false, none, some, [], ◌∷◌, ◌≡◌, refl, arith, ok, All, map}
use bear_sync.Models.WriteQueue.{WriteQueueItem, update, trash, pending, is_failed}
use bear_sync.Store.Db.{QueueTable}
use bear_sync.Store.Queue.Enqueue.{WriteRequest, enqueue_write, get_by_key, merge_payload}
use bear_sync.Store.Queue.Lease.{lease_queue_items}
use bear_sync.Store.Queue.Shape.{IsWellFormed}
use bear_sync.Store.Queue.Idempotent.{enqueue_write_succeeds, enqueue_write-found}
use bear_sync.Store.Queue.Retry.{enqueue_again, coalesce_forgets_key}
use bear_sync.Store.Queue.Exclusive.{lease_in_order, lease_exclusive, is_handed_out}
use bear_sync.Tests.Data.{item_of, three_items, three_items-IsWellFormed, request_of, body_payload}

-- A new update of n1 coalesces with the pending one.
abbrev new_update : WriteRequest
new_update = request_of "k4" update "n1" "new"

abbrev merged_item : WriteQueueItem
merged_item = merge_payload (body_payload "new") "k4" (item_of 1 "k1" update "n1" pending)

abbrev merged_items : QueueTable
merged_items = record three_items {
  rows = elim three_items.rows [ [] ↦ [] | i ∷ rows ↦ merged_item ∷ rows ];
}

enqueue_write_succeeds_example :
    (q' : QueueTable) × (i : WriteQueueItem) × (enqueue_write three_items new_update ≡ ok (q', i))
    × (get_by_key q' "k4" "web" ≡ some i)
    × (is_failed i.status ≡ false)
    × IsWellFormed q'
enqueue_write_succeeds_example =
    enqueue_write_succeeds three_items new_update three_items-IsWellFormed

merges : enqueue_write three_items new_update ≡ ok (merged_items, merged_item)
unfolding enqueue_write
merges = refl

enqueue_again_example :
    enqueue_write merged_items (request_of "k4" trash "n1" "other") ≡ ok (merged_items, merged_item)
enqueue_again_example =
    enqueue_again three_items merged_items new_update (request_of "k4" trash "n1" "other")
      merged_item three_items-IsWellFormed merges refl refl

abbrev twice_merged : WriteQueueItem
twice_merged = merge_payload (body_payload "newer") "k5" merged_item

abbrev twice_merged_items : QueueTable
twice_merged_items = record three_items {
  rows = elim three_items.rows [ [] ↦ [] | i ∷ rows ↦ twice_merged ∷ rows ];
}

merged_items-IsWellFormed : IsWellFormed merged_items
merged_items-IsWellFormed =
    (enqueue_write-found three_items merged_items new_update merged_item three_items-IsWellFormed
      merges).2

merges_again :
    enqueue_write merged_items (request_of "k5" update "n1" "newer")
    ≡ ok (twice_merged_items, twice_merged)
unfolding enqueue_write
merges_again = refl

coalesce_forgets_key_example : get_by_key twice_merged_items "k4" "web" ≡ none
unfolding get_by_key
coalesce_forgets_key_example =
    coalesce_forgets_key merged_items twice_merged_items (request_of "k5" update "n1" "newer")
      merged_item twice_merged "k4" merged_items-IsWellFormed refl refl refl
      (λ _. (refl, refl, refl), ((λ e. cc), ((λ e. cc), tt))) refl merges_again

lease_in_order_example :
    map (λ a. a.id) (lease_queue_items [] three_items "bridge" 60 30).1 ≡ 1 ∷ 2 ∷ []
unfolding lease_queue_items
lease_in_order_example = lease_in_order [] three_items "bridge" 60 30

lease_exclusive_example :
    let (q', items) = lease_queue_items [] three_items "bridge" 60 30 in
    All (λ a. is_handed_out items a.id ≡ false) (lease_queue_items [] q' "other" 90 30).1
lease_exclusive_example =
    lease_exclusive [] [] three_items "bridge" "other" 60 90 30 30 (omega arith)
