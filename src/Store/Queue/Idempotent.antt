-- ===== src/Store/Queue/Idempotent.antt =====
-- Proofs about `EnqueueWrite` of internal/store/sqlite.go, branch by branch.
use bear_sync.Prelude.{
  suc, true, false, ◌&&◌, none, some, [], ◌∷◌, ◌++◌, ◌≡◌, refl, sym, ◌∙◌, ◌⊎◌, inl, inr, arith,
  str_eq_self, select, All-update, All-append, select-append, any_of_select, select-none_of_imp,
  Result, Bool-cases, Option-cases, ok,
}
use mathlib.Core.Path.{subst, subst₂}
use bear_sync.Models.WriteQueue.{WriteQueueItem, is_failed}
use bear_sync.Store.Db.{QueueTable, by_id}
use bear_sync.Store.Queue.Shape.{
  HasLease, IsWellFormed, Ascending-update, Ascending-append, select-update_found,
  select-update_new, select-fresh,
}
use bear_sync.Store.Queue.Enqueue.{
  WriteRequest, by_key, get_by_key, reset, handle_idempotency_hit, merge_payload, by_pending_update,
  coalesce_update_tx, inserted, coalesces, enqueue_write,
}
use bear_sync.Store.Queue.Steps.{
  with_update, read_back_found, enqueue_write_hit, enqueue_write_miss, enqueue_new_inserts,
  coalesce_missed, insert_item_fresh, same_key→by_key, read_back_update, guarded, pend,
  enqueue_write_merges,
}

-- The call returns `item` and the table `table`, in which `item` stands under the key of the call.
pub record Enqueued (q : QueueTable) (r : WriteRequest) : Type 0 where
  pub table : QueueTable
  pub item : WriteQueueItem
  pub runs : enqueue_write q r ≡ ok (table, item)
  pub found : get_by_key table r.idempotency_key r.consumer_id ≡ some item
  pub live : is_failed item.status ≡ false
  pub well_formed : IsWellFormed table

module _ (q : QueueTable) (r : WriteRequest) (w : IsWellFormed q) where
  reset-HasLease : (i : WriteQueueItem) → HasLease (reset r i)
  reset-HasLease i = record { pending_free = λ _. (refl, refl); processing_held = λ e. cc }

  hit : {e : WriteQueueItem} → get_by_key q r.idempotency_key r.consumer_id ≡ some e → Enqueued q r
  unfolding get_by_key handle_idempotency_hit
  hit {e} h = elim (Bool-cases (is_failed e.status)) [
    | inl f ↦ record {
      table = with_update q (λ i. by_id e.id i && is_failed i.status) (reset r);
      item = reset r e;
      runs =
          enqueue_write_hit q r h
          ∙ rw f (
              read_back_update q r w (by_key r.idempotency_key r.consumer_id)
                (λ i. is_failed i.status) (reset r) (λ i. refl) h f);
      found = select-update_found (reset r) (λ i. refl) _ _ q.rows (λ i. refl) h f;
      live = refl;
      well_formed = record {
        ascending = Ascending-update (reset r) (λ i. refl) _ 0 q.rows q.next_id w.ascending;
        leases = All-update HasLease _ (reset r) q.rows (λ i _ _. reset-HasLease i) w.leases;
      };
    }
    | inr f ↦ record {
      table = q;
      item = e;
      runs = enqueue_write_hit q r h ∙ rw f;
      found = h;
      live = f;
      well_formed = w;
    }
  ]

  merge-HasLease :
      (i : WriteQueueItem) → HasLease i → HasLease (merge_payload r.payload r.idempotency_key i)
  merge-HasLease i h = record { pending_free = h.pending_free; processing_held = h.processing_held }

  merge :
      {e : WriteQueueItem}
      → select (by_pending_update r.note_id r.consumer_id) q.rows ≡ some e
      → coalesces r ≡ true
      → get_by_key q r.idempotency_key r.consumer_id ≡ none
      → Enqueued q r
  unfolding get_by_key
  merge {e} s c h = record {
    table = with_update q (guarded e) (merge_payload r.payload r.idempotency_key);
    item = merge_payload r.payload r.idempotency_key e;
    runs = enqueue_write_merges q r w s c h;
    found =
        select-update_new 0 q.rows q.next_id _ _ _ (merge_payload r.payload r.idempotency_key)
          w.ascending h s (pend q r w s).0
          (ground (arith, str_eq_self r.idempotency_key, pend q r w s));
    live = ground (arith, pend q r w s);
    well_formed = record {
      ascending = Ascending-update _ (λ i. refl) _ 0 q.rows q.next_id w.ascending;
      leases = All-update HasLease _ _ q.rows (λ i _ k. merge-HasLease i k) w.leases;
    };
  }

  missed :
      (coalesces r ≡ false) ⊎ (select (by_pending_update r.note_id r.consumer_id) q.rows ≡ none)
      → (coalesces r ≡ false) ⊎ (coalesce_update_tx q r ≡ ok none)
  missed (inl c) = inl c
  missed (inr s) = inr (coalesce_missed q r s)

  insert :
      (coalesces r ≡ false) ⊎ (select (by_pending_update r.note_id r.consumer_id) q.rows ≡ none)
      → get_by_key q r.idempotency_key r.consumer_id ≡ none
      → Enqueued q r
  unfolding get_by_key
  insert c h = record {
    table = record { rows = q.rows ++ inserted q.next_id r ∷ []; next_id = suc q.next_id };
    item = inserted q.next_id r;
    runs =
        enqueue_write_miss q r h
        ∙ enqueue_new_inserts q r (missed c)
        ∙ insert_item_fresh q r
            (any_of_select _ q.rows (select-none_of_imp _ _ q.rows (same_key→by_key r) h))
            (read_back_found _ q.next_id (
              select-append _ q.rows (inserted q.next_id r)
                (select-fresh 0 q.rows q.next_id w.ascending) (ground arith)));
    found =
        select-append _ q.rows (inserted q.next_id r) h
          (ground (arith, str_eq_self r.idempotency_key, str_eq_self r.consumer_id));
    live = refl;
    well_formed = record {
      ascending = Ascending-append 0 q.rows (inserted q.next_id r) w.ascending;
      leases =
          All-append HasLease q.rows _ w.leases
            (record { pending_free = λ _. (refl, refl); processing_held = λ e. cc }, tt);
    };
  }

  -- On a well-formed table the call succeeds: it returns an item that is not failed, stands in the
  -- new table under the call's key, and the new table is well-formed.
  pub enqueue_write-Enqueued : Enqueued q r
  unfolding get_by_key
  enqueue_write-Enqueued = elim (Option-cases (get_by_key q r.idempotency_key r.consumer_id)) [
    | inr (e, h) ↦ hit h
    | inl h ↦ elim (Bool-cases (coalesces r)) [
      | inr c ↦ insert (inl c) h
      | inl c ↦ elim (Option-cases (select (by_pending_update r.note_id r.consumer_id) q.rows)) [
        | inl s ↦ insert (inr s) h
        | inr (e, s) ↦ merge s c h
      ]
    ]
  ]

pub ok_pair :
    {q q' : QueueTable} {i i' : WriteQueueItem}
    → ◌≡◌ {A = Result (QueueTable × WriteQueueItem)} (ok (q, i)) (ok (q', i'))
    → (q ≡ q') × (i ≡ i')
ok_pair h = ground arith

-- On a well-formed queue every EnqueueWrite succeeds: the returned item is not failed and is
-- found under the key and the consumer of the call, and the queue stays well-formed.
pub enqueue_write_succeeds :
    (q : QueueTable) (r : WriteRequest)
    → IsWellFormed q
    → (q' : QueueTable) × (i : WriteQueueItem) × (enqueue_write q r ≡ ok (q', i))
      × (get_by_key q' r.idempotency_key r.consumer_id ≡ some i)
      × (is_failed i.status ≡ false)
      × IsWellFormed q'
enqueue_write_succeeds q r w =
    let e = enqueue_write-Enqueued q r w in
    (e.table, e.item, e.runs, e.found, e.live, e.well_formed)

-- A returned item is not failed and stands in the returned table under the key of the call; the
-- table is well-formed.
pub enqueue_write-found :
    (q q' : QueueTable) (r : WriteRequest) (i : WriteQueueItem)
    → IsWellFormed q
    → enqueue_write q r ≡ ok (q', i)
    → (get_by_key q' r.idempotency_key r.consumer_id ≡ some i)
      × (is_failed i.status ≡ false)
      × IsWellFormed q'
enqueue_write-found q q' r i w run =
    let e = enqueue_write-Enqueued q r w in
    let same = ok_pair (sym e.runs ∙ run) in
    (
      subst₂ (λ t j. get_by_key t r.idempotency_key r.consumer_id ≡ some j) same.0 same.1 e.found,
      subst (λ j. is_failed j.status ≡ false) same.1 e.live,
      subst IsWellFormed same.0 e.well_formed,
    )
