-- ===== src/Store/Queue/Shape.antt =====
-- The invariant of the write queue: ascending ids below `next_id`, no lease on a pending item, and
-- one on each item that is being processed.
use bear_sync.Prelude.{
  ℕ, suc, ◌≤◌, ◌<◌, Bool, true, ◌&&◌, none, some, List, [], ◌∷◌, ◌++◌, ◌≡◌, refl, select, update,
  count_where, All, arith, Bool-cases, inl, inr,
}
use bear_sync.Models.WriteQueue.{WriteQueueItem, pending, processing}
use bear_sync.Store.Db.{QueueTable, by_id}

-- The ids ascend from `lo` on, and stay below `hi`.
abbrev pub Ascending : ℕ → List WriteQueueItem → ℕ → Type 0
Ascending lo [] hi = lo ≤ hi
Ascending lo (i ∷ rows) hi = (lo ≤ i.id) × Ascending (suc i.id) rows hi

-- A pending item is free, and a processing one has a lease that ends.
pub record HasLease (i : WriteQueueItem) : Type 0 where
  pub pending_free : i.status ≡ pending → (i.lease_until ≡ none) × (i.processing_by ≡ none)
  pub processing_held : i.status ≡ processing → (t : ℕ) × (i.lease_until ≡ some t)

pub record IsWellFormed (q : QueueTable) : Type 0 where
  pub ascending : Ascending 0 q.rows q.next_id
  pub leases : All HasLease q.rows

module _ (f : WriteQueueItem → WriteQueueItem)
    (keeps_id : (i : WriteQueueItem) → (f i).id ≡ i.id) where
  pub Ascending-update :
      (p : WriteQueueItem → Bool) (lo : ℕ) (rows : List WriteQueueItem) (hi : ℕ)
      → Ascending lo rows hi
      → Ascending lo (update p f rows) hi
  Ascending-update p lo [] hi h = h
  Ascending-update p lo (i ∷ rows) hi h = (
    ground (arith, keeps_id i),
    elim (Bool-cases (p i)) [
      | inl m ↦ rw (m, keeps_id i) (Ascending-update p (suc i.id) rows hi h.1)
      | inr m ↦ rw m (Ascending-update p (suc i.id) rows hi h.1)
    ],
  )

  -- An UPDATE of the row that a SELECT found changes what the SELECT finds by that row.
  pub select-update_found :
      (p g : WriteQueueItem → Bool) (rows : List WriteQueueItem) {e : WriteQueueItem}
      → ((i : WriteQueueItem) → p (f i) ≡ p i)
      → select p rows ≡ some e
      → g e ≡ true
      → select p (update (λ i. by_id e.id i && g i) f rows) ≡ some (f e)
  select-update_found p g [] same h t = ground arith
  select-update_found p g (i ∷ rows) {e} same h t =
      ground (arith, same i, select-update_found p g rows {e = e} same)

pub Ascending-append :
    (lo : ℕ) (rows : List WriteQueueItem) (i : WriteQueueItem)
    → Ascending lo rows i.id
    → Ascending lo (rows ++ i ∷ []) (suc i.id)
Ascending-append lo [] i h = omega arith
Ascending-append lo (j ∷ rows) i h = (h.0, Ascending-append (suc j.id) rows i h.1)

pub Ascending-le : (lo : ℕ) (rows : List WriteQueueItem) (hi : ℕ) → Ascending lo rows hi → lo ≤ hi
Ascending-le lo [] hi h = h
Ascending-le lo (i ∷ rows) hi h = omega (arith, Ascending-le (suc i.id) rows hi h.1)

pub id_below :
    (lo : ℕ) (rows : List WriteQueueItem) (hi : ℕ) (p : WriteQueueItem → Bool) {e : WriteQueueItem}
    → Ascending lo rows hi
    → select p rows ≡ some e
    → (lo ≤ e.id) × (e.id < hi)
id_below lo [] hi p a h = ground arith
id_below lo (i ∷ rows) hi p {e} a h =
    ground (arith, Ascending-le (suc i.id) rows hi a.1, id_below (suc i.id) rows hi p {e = e} a.1)

pub select-fresh :
    (lo : ℕ) (rows : List WriteQueueItem) (hi : ℕ)
    → Ascending lo rows hi
    → select (by_id hi) rows ≡ none
select-fresh lo [] hi h = refl
select-fresh lo (i ∷ rows) hi h =
    ground (arith, Ascending-le (suc i.id) rows hi h.1, select-fresh (suc i.id) rows hi h.1)

-- The row that any SELECT found is the row with its id.
pub select-by_id :
    (lo : ℕ) (rows : List WriteQueueItem) (hi : ℕ) (p : WriteQueueItem → Bool) {e : WriteQueueItem}
    → Ascending lo rows hi
    → select p rows ≡ some e
    → select (by_id e.id) rows ≡ some e
select-by_id lo [] hi p a h = ground arith
select-by_id lo (i ∷ rows) hi p {e} a h = ground (
  arith,
  id_below (suc i.id) rows hi p {e = e} a.1,
  select-by_id (suc i.id) rows hi p {e = e} a.1,
)

-- A SELECT that found nothing finds the one row that an UPDATE makes it match.
pub select-update_new :
    (lo : ℕ) (rows : List WriteQueueItem) (hi : ℕ) (p q g : WriteQueueItem → Bool)
    (f : WriteQueueItem → WriteQueueItem) {e : WriteQueueItem}
    → Ascending lo rows hi
    → select p rows ≡ none
    → select q rows ≡ some e
    → g e ≡ true
    → p (f e) ≡ true
    → select p (update (λ i. by_id e.id i && g i) f rows) ≡ some (f e)
select-update_new lo [] hi p q g f a n h t m = ground arith
select-update_new lo (i ∷ rows) hi p q g f {e} a n h t m = ground (
  arith,
  id_below (suc i.id) rows hi q {e = e} a.1,
  select-update_new (suc i.id) rows hi p q g f {e = e} a.1,
)

-- The guard of an UPDATE by id holds of some row, if it holds of a row that was found.
pub count-ne-zero :
    (rows : List WriteQueueItem) (q g : WriteQueueItem → Bool) {e : WriteQueueItem}
    → select q rows ≡ some e
    → g e ≡ true
    → 0 < count_where (λ i. by_id e.id i && g i) rows
count-ne-zero [] q g h t = ground arith
count-ne-zero (i ∷ rows) q g {e} h t = ground (arith, count-ne-zero rows q g {e = e})
