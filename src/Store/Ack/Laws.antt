-- ===== src/Store/Ack/Laws.antt =====
-- Proofs about `ackSingleItem` and `AckQueueItems` of internal/store/sqlite.go on the queue.
use bear_sync.Prelude.{
  ℕ, ◌≤◌, String, false, some, List, [], ◌∷◌, ◌≡◌, refl, sym, ap, ◌∙◌, inl, inr, arith, select,
  update, ok, ok_injective, >>=-eq-ok, Bool-cases, Option-cases,
}
use mathlib.Core.Path.{subst}
use bear_sync.Models.WriteQueue.{WriteQueueItem, is_processing, is_live}
use bear_sync.Models.Sync.{SyncAckItem}
use bear_sync.Store.Db.{Db, by_id}
use bear_sync.Store.Queue.Shape.{IsWellFormed}
use bear_sync.Store.Ack.{
  ack_update_note_status, set_applied, set_failed, ack_applied, is_applied, ack_single_item,
  ack_queue_items,
}
use bear_sync.Store.Ack.Live.{live_count, live_count-update, ended_idle, IsWellFormed-ended}

-- The item that the ack names is not being processed, or is not there.
abbrev pub Idle : Db → SyncAckItem → Type 0
Idle db a =
    (i : WriteQueueItem)
    → select (by_id a.queue_id) db.queue.rows ≡ some i
    → is_processing i.status ≡ false

-- What one ack does to the queue: nothing, or it ends the processing item it names.
pub data Ended (db : Db) (a : SyncAckItem) (db' : Db) : Type 0 where
  kept : Idle db a → db' ≡ db → Ended db a db'
  ends :
      (f : WriteQueueItem → WriteQueueItem)
      → ((i : WriteQueueItem) → (f i).id ≡ i.id)
      → ((i : WriteQueueItem) → (f i).note_id ≡ i.note_id)
      → ((i : WriteQueueItem) → is_live (f i).status ≡ false)
      → db'.queue ≡ record (db.queue) { rows = update (by_id a.queue_id) f db.queue.rows }
      → Ended db a db'

ack_applied-queue :
    (db : Db) (a : SyncAckItem) (now : ℕ) {db' : Db}
    → ack_applied db a now ≡ ok db'
    → db'.queue
      ≡ record (db.queue) { rows = update (by_id a.queue_id) (set_applied now) db.queue.rows }
unfolding ack_applied ack_update_note_status
ack_applied-queue db a now run =
    elim (Option-cases
      (select (by_id a.queue_id) (update (by_id a.queue_id) (set_applied now) db.queue.rows))) [
        | inl e ↦ ground arith
        | inr (i, e) ↦ ground arith
      ]

pub ack_single_item-Ended :
    (now : ℕ) (db : Db) (a : SyncAckItem) {db' : Db}
    → ack_single_item now db a ≡ ok db'
    → Ended db a db'
unfolding ack_single_item
ack_single_item-Ended now db a {db'} run =
    elim (Option-cases (select (by_id a.queue_id) db.queue.rows)) [
      | inl e ↦ kept (λ i h. cc) (ground arith)
      | inr (i, e) ↦ elim (Bool-cases (is_processing i.status)) [
        | inl p ↦ elim (Bool-cases (is_applied a.status)) [
          | inl s ↦
              ends (set_applied now) (λ _. refl) (λ _. refl) (λ _. refl)
                (ack_applied-queue db a now {db' = db'} (ground arith))
          | inr s ↦ ends (set_failed a.error) (λ _. refl) (λ _. refl) (λ _. refl) (ground arith)
        ]
        | inr p ↦ kept (λ j h. ground arith) (ground arith)
      ]
    ]

pub ack-Idle : (now : ℕ) (db : Db) (a : SyncAckItem) → Idle db a → ack_single_item now db a ≡ ok db
unfolding ack_single_item
ack-Idle now db a idle = elim (Option-cases (select (by_id a.queue_id) db.queue.rows)) [
  | inl e ↦ rw (e, ack_single_item) refl
  | inr (i, e) ↦ rw (e, ack_single_item, idle i e) refl
]

pub Idle-Ended : (db : Db) (a : SyncAckItem) (db' : Db) → Ended db a db' → Idle db' a
Idle-Ended db a db' (kept idle e) = subst (λ d. Idle d a) (sym e) idle
Idle-Ended db a db' (ends f ids notes dead e) = λ j h.
    ended_idle f ids notes dead a.queue_id db.queue.rows
      (ap (λ q. select (by_id a.queue_id) q.rows) (sym e) ∙ h)

-- Delivering an ack again after it succeeded succeeds and changes nothing, at any later time.
pub ack_again :
    (now later : ℕ) (db : Db) (a : SyncAckItem) {db' : Db}
    → ack_single_item now db a ≡ ok db'
    → ack_single_item later db' a ≡ ok db'
ack_again now later db a {db'} run =
    ack-Idle later db' a (Idle-Ended db a db' (ack_single_item-Ended now db a run))

pub Ended-IsWellFormed :
    (db : Db) (a : SyncAckItem) (db' : Db)
    → Ended db a db'
    → IsWellFormed db.queue
    → IsWellFormed db'.queue
Ended-IsWellFormed db a db' (kept idle e) w = subst (λ d. IsWellFormed d.queue) (sym e) w
Ended-IsWellFormed db a db' (ends f ids notes dead e) w =
    subst IsWellFormed (sym e) (IsWellFormed-ended f ids notes dead a.queue_id db.queue w)

pub Ended-live :
    (note : String) (db : Db) (a : SyncAckItem) (db' : Db)
    → Ended db a db'
    → live_count note db'.queue.rows ≤ live_count note db.queue.rows
Ended-live note db a db' (kept idle e) = rw e (omega arith)
Ended-live note db a db' (ends f ids notes dead e) =
    rw e (live_count-update f ids notes dead a.queue_id note db.queue.rows)

pub ack_queue_items-step :
    (now : ℕ) (db : Db) (a : SyncAckItem) (items : List SyncAckItem) {db' : Db}
    → ack_queue_items now db (a ∷ items) ≡ ok db'
    → (d : Db) × (ack_single_item now db a ≡ ok d) × (ack_queue_items now d items ≡ ok db')
unfolding ack_queue_items
ack_queue_items-step now db a items run =
    >>=-eq-ok (ack_single_item now db a) (λ d. ack_queue_items now d items) run

-- A batch of acks that succeeds keeps a well-formed queue well-formed.
pub ack_queue_items-IsWellFormed :
    (now : ℕ) (db : Db) (items : List SyncAckItem) {db' : Db}
    → IsWellFormed db.queue
    → ack_queue_items now db items ≡ ok db'
    → IsWellFormed db'.queue
unfolding ack_queue_items
ack_queue_items-IsWellFormed now db [] w run =
    subst (λ d. IsWellFormed d.queue) (ok_injective run) w
ack_queue_items-IsWellFormed now db (a ∷ items) w run =
    let (d, one, rest) = ack_queue_items-step now db a items run in
    ack_queue_items-IsWellFormed now d items
      (Ended-IsWellFormed db a d (ack_single_item-Ended now db a one) w) rest

pub ack_queue_items-live :
    (note : String) (now : ℕ) (db : Db) (items : List SyncAckItem) {db' : Db}
    → ack_queue_items now db items ≡ ok db'
    → live_count note db'.queue.rows ≤ live_count note db.queue.rows
unfolding ack_queue_items
ack_queue_items-live note now db [] run = rw (ok_injective run) (omega arith)
ack_queue_items-live note now db (a ∷ items) run =
    let (d, one, rest) = ack_queue_items-step now db a items run in
    omega (
      arith,
      Ended-live note db a d (ack_single_item-Ended now db a one),
      ack_queue_items-live note now d items rest,
    )
