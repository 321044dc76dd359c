-- ===== src/Store/Queue/Exclusive.antt =====
-- Proofs about `LeaseQueueItems` of internal/store/sqlite.go: the queue after a lease, the items
-- that it hands out, and a second lease after a first.
use bear_sync.Prelude.{
  ℕ, ◌+◌, ◌≤◌, String, Bool, true, false, ◌||◌, some, List, [], ◌∷◌, ◌≡◌, refl, ap, ◌∙◌, inl, inr,
  map, arith, nat_eq, select_all, any, take, length, length-take-le, length-map, All, All-update,
  All-update_each, All-take, All-select_all, All-map, All-imp, any-map, map-take, Bool-cases,
}
use bear_sync.Models.Note.{Note}
use bear_sync.Models.WriteQueue.{WriteQueueItem, LeasedItem, processing, is_pending}
use bear_sync.Store.Db.{QueueTable}
use bear_sync.Store.Queue.Shape.{HasLease, IsWellFormed, Ascending-update}
use bear_sync.Store.Queue.Lease.{
  is_stale, release, expire_leases, lease_limit, pending_items, leased_to, is_among, to_leased,
  lease_rows, lease_queue_items,
}

release-HasLease : (i : WriteQueueItem) → HasLease (release i)
release-HasLease i = record { pending_free = λ _. (refl, refl); processing_held = λ e. cc }

leased_to-HasLease :
    (by : String) (until : ℕ) (i : WriteQueueItem) → HasLease (leased_to by until i)
leased_to-HasLease by until i = record {
  pending_free = λ e. cc;
  processing_held = λ e. (until, refl);
}

-- Leasing keeps a well-formed queue well-formed.
pub lease-IsWellFormed :
    (notes : List Note) (q : QueueTable) (by : String) (now duration : ℕ)
    → IsWellFormed q
    → IsWellFormed (lease_queue_items notes q by now duration).0
unfolding lease_queue_items
lease-IsWellFormed notes q by now duration w =
    let until = now + duration in
    let released = expire_leases now q.rows in
    record {
      ascending =
          Ascending-update (leased_to by until) (λ i. refl) _ 0 released q.next_id
            (Ascending-update release (λ i. refl) (is_stale now) 0 q.rows q.next_id w.ascending);
      leases =
          All-update HasLease _ (leased_to by until) released
            (λ i _ _. leased_to-HasLease by until i)
            (All-update HasLease (is_stale now) release q.rows (λ i _ _. release-HasLease i)
              w.leases);
    }

-- A hundred items at most.
pub length-lease :
    (notes : List Note) (q : QueueTable) (by : String) (now duration : ℕ)
    → length (lease_queue_items notes q by now duration).1 ≤ lease_limit
unfolding lease_queue_items
length-lease notes q by now duration =
    let released = expire_leases now q.rows in
    rw (length-map (to_leased notes by (now + duration)) (pending_items released)) (
      unfold pending_items in
      length-take-le lease_limit (select_all (λ i. is_pending i.status) released))

-- An item is free: pending, or processing under a lease that has run out.
abbrev pub is_free : ℕ → WriteQueueItem → Bool
is_free now i = is_pending i.status || is_stale now i

abbrev ids : List WriteQueueItem → List ℕ
ids = map (λ i. i.id)

ids-expired :
    (now : ℕ) (rows : List WriteQueueItem)
    → ids (select_all (λ i. is_pending i.status) (expire_leases now rows))
      ≡ ids (select_all (is_free now) rows)
unfolding expire_leases
ids-expired now [] = refl
ids-expired now (i ∷ rows) = ground (arith, ids-expired now rows)

ids-to_leased :
    (notes : List Note) (by : String) (until : ℕ) (rows : List WriteQueueItem)
    → map (λ (a : LeasedItem). a.id) (map (to_leased notes by until) rows) ≡ ids rows
unfolding to_leased
ids-to_leased notes by until [] = refl
ids-to_leased notes by until (i ∷ rows) = rw (ids-to_leased notes by until rows)

-- A lease hands out the first hundred of the items that are pending or whose lease has run out,
-- in the order of their ids.
pub lease_in_order :
    (notes : List Note) (q : QueueTable) (by : String) (now duration : ℕ)
    → map (λ a. a.id) (lease_queue_items notes q by now duration).1
      ≡ take lease_limit (map (λ i. i.id) (select_all (is_free now) q.rows))
unfolding lease_queue_items
lease_in_order notes q by now duration =
    let released = expire_leases now q.rows in
    ids-to_leased notes by (now + duration) (pending_items released)
    ∙ unfold pending_items in
      (map-take (λ i. i.id) lease_limit (select_all (λ i. is_pending i.status) released)
        ∙ ap (take lease_limit) (ids-expired now q.rows))

abbrev pub is_handed_out : List LeasedItem → ℕ → Bool
is_handed_out items k = any (λ a. nat_eq a.id k) items

-- A row that the first lease handed out is held until `until`.
abbrev pub Held : List WriteQueueItem → ℕ → WriteQueueItem → Type 0
Held items until i =
    is_among items i ≡ true → (i.status ≡ processing) × (i.lease_until ≡ some until)

pub Held-lease :
    (rows : List WriteQueueItem) (by : String) (now until : ℕ)
    → All (Held (pending_items (expire_leases now rows)) until) (lease_rows rows by now until)
unfolding lease_rows
Held-lease rows by now until =
    All-update_each (Held _ until) _ (leased_to by until) (expire_leases now rows)
      (λ i e _. (refl, refl)) (λ i e m. cc)

Held-expire :
    (items rows : List WriteQueueItem) (now until : ℕ)
    → now ≤ until
    → All (Held items until) rows
    → All (Held items until) (expire_leases now rows)
unfolding expire_leases
Held-expire items rows now until le h =
    All-update (Held items until) (is_stale now) release rows (λ i s k m. ground (arith, k m)) h

not_among :
    (items : List WriteQueueItem) (i : WriteQueueItem) (until : ℕ)
    → Held items until i
    → is_pending i.status ≡ true
    → is_among items i ≡ false
not_among items i until k p = elim (Bool-cases (is_among items i)) [
  | inl m ↦ ground (arith, k m)
  | inr m ↦ m
]

pending_not-Held :
    (items rows : List WriteQueueItem) (until : ℕ)
    → All (Held items until) rows
    → All (λ i. is_among items i ≡ false) (pending_items rows)
unfolding pending_items
pending_not-Held items rows until h =
    All-take (λ i. is_among items i ≡ false) lease_limit
      (select_all (λ i. is_pending i.status) rows)
      (All-select_all (λ i. is_among items i ≡ false) (λ i. is_pending i.status) rows
        (All-imp (Held items until) _ rows (λ i k p. not_among items i until k p) h))

-- A lease that is taken while another runs hands out none of the items of the other.
pub lease_exclusive :
    (notes notes' : List Note) (q : QueueTable) (by by' : String) (now now' duration duration' : ℕ)
    → now' ≤ now + duration
    → let (q', items) = lease_queue_items notes q by now duration in
      All (λ a. is_handed_out items a.id ≡ false) (lease_queue_items notes' q' by' now' duration').1
unfolding lease_queue_items
lease_exclusive notes notes' q by by' now now' duration duration' le =
    let until = now + duration in
    let first = pending_items (expire_leases now q.rows) in
    let again = expire_leases now' (lease_rows q.rows by now until) in
    All-map _ (to_leased notes' by' (now' + duration')) (pending_items again) (
      All-imp (λ i. is_among first i ≡ false) _ (pending_items again)
        (λ i e. unfold to_leased in rw (any-map _ (to_leased notes by until) first) e)
        (pending_not-Held first again until (
          Held-expire first (lease_rows q.rows by now until) now' until le
            (Held-lease q.rows by now until))))
