-- ===== src/Bridge/Progress.antt =====
-- Proofs about a turn of `processQueue` in cmd/bridge/queue.go on the queue of the hub.
use bear_sync.Prelude.{
  ℕ, suc, ◌+◌, String, true, false, List, [], ◌∷◌, ◌≡◌, refl, sym, ap, ◌∙◌, arith, nat_eq,
  nat_eq_iff, ok, select_sound, any, All, All-imp, All-map, All_of_select, length,
}
use mathlib.Core.Path.{subst}
use bear_sync.Models.Note.{Note}
use bear_sync.Models.WriteQueue.{WriteQueueItem, LeasedItem, QueueStatus, is_live, is_pending}
use bear_sync.Models.Sync.{SyncAckItem}
use bear_sync.Store.Db.{Db, QueueTable, by_id}
use bear_sync.Store.Ack.{ack_queue_items}
use bear_sync.Store.Ack.Laws.{ack_queue_items-step}
use bear_sync.Store.Ack.Ended.{IsNot, IsNot-ack_single_item, IsNot-ack_queue_items, ends_item}
use bear_sync.Store.Queue.Lease.{
  lease_queue_items, lease_rows, pending_items, expire_leases, is_among, to_leased,
}
use bear_sync.Store.Queue.Exclusive.{Held, Held-lease}
use bear_sync.Api.SyncHandlers.{sync_queue, sync_ack, lease_seconds}
use bear_sync.Bridge.Bear.{Bear}
use bear_sync.Bridge.Queue.{process_items}
use bear_sync.Bridge.Answers.{AreAnswers, process_items-AreAnswers}
use bear_sync.Bridge.Cycle.{
  Delivery, answered, unanswered, lost, CycleEnd, acked, send_acks, apply_leased, process_queue,
}

among_longer :
    (y : WriteQueueItem) (ys xs : List WriteQueueItem)
    → All (λ x. is_among ys x ≡ true) xs
    → All (λ x. is_among (y ∷ ys) x ≡ true) xs
among_longer y ys xs = All-imp _ _ xs (λ x e. ground (arith, e))

among_self : (xs : List WriteQueueItem) → All (λ x. is_among xs x ≡ true) xs
among_self [] = tt
among_self (x ∷ xs) =
    (ground (arith, (nat_eq_iff x.id x.id).1 refl), among_longer x xs xs (among_self xs))

Held-IsNot :
    (first rows : List WriteQueueItem) (until k : ℕ)
    → All (Held first until) rows
    → any (λ j. nat_eq j.id k) first ≡ true
    → IsNot is_pending k rows
Held-IsNot first rows until k held e = λ j h.
    let same = (nat_eq_iff j.id k).0 (select_sound (by_id k) rows h) in
    let taken = subst (λ x. any (λ j. nat_eq j.id x) first ≡ true) (sym same) e in
    ap is_pending ((All_of_select (Held first until) (by_id k) rows held h taken).0)

-- None of the items that a lease hands out is pending after it.
pub lease-IsNot :
    (notes : List Note) (q : QueueTable) (by : String) (now duration : ℕ)
    → let (q', items) = lease_queue_items notes q by now duration in
      All (λ a. IsNot is_pending a.id q'.rows) items
unfolding lease_queue_items to_leased
lease-IsNot notes q by now duration =
    let until = now + duration in
    let first = pending_items (expire_leases now q.rows) in
    let rows = lease_rows q.rows by now until in
    All-map _ (to_leased notes by until) first (
      All-imp (λ x. is_among first x ≡ true) _ first
        (λ x e. Held-IsNot first rows until x.id (Held-lease q.rows by now until) e)
        (among_self first))

pending_live : (s : QueueStatus) → is_live s ≡ false → is_pending s ≡ false
pending_live s e = ground arith

none_live :
    (now : ℕ) (db : Db) (items : List LeasedItem) (acks : List SyncAckItem) {db' : Db}
    → AreAnswers items acks
    → ack_queue_items now db acks ≡ ok db'
    → All (λ i. IsNot is_pending i.id db.queue.rows) items
    → All (λ i. IsNot is_live i.id db'.queue.rows) items
none_live now db [] acks answers run h = tt
none_live now db (i ∷ items) [] answers run h = absurd answers
none_live now db (i ∷ items) (a ∷ acks) {db'} answers run h =
    let (d, one, rest) = ack_queue_items-step now db a acks run in
    let same = answers.0.same_id in
    let ended =
      subst (λ k. IsNot is_live k d.queue.rows) same
        (ends_item now db a one (subst (λ k. IsNot is_pending k db.queue.rows) (sym same) h.0)) in
    (
      IsNot-ack_queue_items is_live (λ s e. e) now d acks i.id rest ended,
      none_live now d items acks answers.1 rest (
          All-imp _ _ items
            (λ j n. IsNot-ack_single_item is_pending pending_live now db a j.id one n) h.1),
    )

sends_ok :
    (db : Db) (now : ℕ) (acking : Delivery) (acks : List SyncAckItem) {db' : Db} {n : ℕ}
    → send_acks db now acking acks ≡ (db', acked n)
    → ack_queue_items now db acks ≡ ok db'
unfolding send_acks sync_ack
sends_ok db now lost acks run = ground arith
sends_ok db now unanswered acks run = ground arith
sends_ok db now answered acks run = ground arith

snone_live :
    (db : Db) (now : ℕ) (acking : Delivery) (acks : List SyncAckItem) {db' : Db} {n : ℕ}
    → send_acks db now acking acks ≡ (db', acked n)
    → n ≡ length acks
unfolding send_acks sync_ack
snone_live db now lost acks run = ground arith
snone_live db now unanswered acks run = ground arith
snone_live db now answered acks run = ground arith

pub length-AreAnswers :
    (items : List LeasedItem) (acks : List SyncAckItem)
    → AreAnswers items acks
    → length acks ≡ length items
length-AreAnswers [] [] h = refl
length-AreAnswers [] (a ∷ acks) h = absurd h
length-AreAnswers (i ∷ items) [] h = absurd h
length-AreAnswers (i ∷ items) (a ∷ acks) h = ap suc (length-AreAnswers items acks h.1)

module _ (B : Bear) where
  pub apply_leased-IsNot :
      (db : Db) (s : B.State) (now : ℕ) (acking : Delivery) (items : List LeasedItem) {db' : Db}
      {s' : B.State} {n : ℕ}
      → All (λ i. IsNot is_pending i.id db.queue.rows) items
      → apply_leased B db s now acking items ≡ (s', (db', acked n))
      → All (λ i. IsNot is_live i.id db'.queue.rows) items × (n ≡ length items)
  unfolding apply_leased
  apply_leased-IsNot db s now acking [] h run = ground arith
  apply_leased-IsNot db s now acking (i ∷ items) h run =
      let acks = (process_items B s (i ∷ items)).1 in
      let answers = process_items-AreAnswers B s (i ∷ items) in
      let sent = ap (λ (out : B.State × (Db × CycleEnd)). out.1) run in
      (
        none_live now db (i ∷ items) acks answers (sends_ok db now acking acks sent) h,
        snone_live db now acking acks sent ∙ length-AreAnswers (i ∷ items) acks answers,
      )

  -- If a turn of the bridge ends with acks that the hub accepts, there was one for each of the
  -- items that the hub handed out, and none of these items is pending or being processed in the
  -- hub's queue afterwards.
  pub process_queue-IsNot :
      (db : Db) (s : B.State) (now now' : ℕ) (leasing acking : Delivery) {db' : Db} {s' : B.State}
      {n : ℕ}
      → process_queue B db s now leasing now' acking ≡ (s', (db', acked n))
      → All (λ i. IsNot is_live i.id db'.queue.rows) (sync_queue db now "bridge").1
        × (n ≡ length (sync_queue db now "bridge").1)
  unfolding process_queue sync_queue
  process_queue-IsNot db s now now' lost acking run = ground arith
  process_queue-IsNot db s now now' unanswered acking run = ground arith
  process_queue-IsNot db s now now' answered acking run =
      let leased = sync_queue db now "bridge" in
      apply_leased-IsNot leased.0 s now' acking leased.1
        (lease-IsNot db.notes db.queue "bridge" now lease_seconds) run
