-- ===== src/Bridge/Ends.antt =====
-- Proofs that a turn of `processQueue` in cmd/bridge/queue.go comes to its end.
use bear_sync.Prelude.{
  ℕ, zero, suc, String, true, false, List, [], ◌∷◌, ◌==◌, ◌≡◌, refl, ap, ◌∙◌, inl, inr, nat_eq, ok,
  Result, select, update, All, length, Bool-cases, Option-cases,
}
use bear_sync.Models.Note.{Note}
use bear_sync.Models.WriteQueue.{LeasedItem, is_live, is_pending, is_processing, is_create}
use bear_sync.Models.Sync.{SyncAckItem}
use bear_sync.Store.Db.{Db, by_id}
use bear_sync.Store.Ack.{
  ack_queue_items, ack_single_item, ack_applied, ack_update_note_status, ack_notes, other_pending,
  set_applied, with_rows, is_applied,
}
use bear_sync.Store.Ack.Ended.{IsNot}
use bear_sync.Api.SyncHandlers.{sync_queue, sync_ack, lease_seconds}
use bear_sync.Bridge.Bear.{Bear}
use bear_sync.Bridge.Queue.{process_items}
use bear_sync.Bridge.Answers.{AreAnswers, process_items-AreAnswers}
use bear_sync.Bridge.Cycle.{answered, CycleEnd, idle, acked, send_acks, apply_leased, process_queue}
use bear_sync.Bridge.Progress.{length-AreAnswers, apply_leased-IsNot, lease-IsNot}

-- The ack names no note of Bear.
abbrev NamesNone : SyncAckItem → Type 0
NamesNone a = (a.bear_id == "") ≡ true

abbrev Succeeds : Result Db → Type 0
Succeeds r = (db' : Db) × (r ≡ ok db')

ack_notes_ok :
    (others : ℕ) (a : SyncAckItem) (note : String) (notes : List Note)
    → NamesNone a
    → (notes' : List Note) × (ack_notes others a note notes ≡ ok notes')
unfolding ack_notes
ack_notes_ok others a note notes e = elim (Bool-cases a.conflict_resolved) [
  | inl r ↦ elim (Bool-cases (nat_eq others 0)) [
    | inl z ↦ rw (r, z) (_, refl)
    | inr z ↦ rw (r, z) (_, refl)
  ]
  | inr r ↦ elim (Bool-cases (nat_eq others 0)) [
    | inl z ↦ rw (r, e, z) (_, refl)
    | inr z ↦ rw (r, e, z) (_, refl)
  ]
]

ack_update_ok :
    (db : Db) (a : SyncAckItem) (note : String)
    → NamesNone a
    → Succeeds (ack_update_note_status db a note)
unfolding ack_update_note_status
ack_update_ok db a note e =
    let (notes, run) =
      ack_notes_ok (other_pending note a.queue_id db.queue.rows) a note db.notes e in
    rw run (_, refl)

ack_applied_ok :
    (db : Db) (a : SyncAckItem) (now : ℕ) → NamesNone a → Succeeds (ack_applied db a now)
unfolding ack_applied
ack_applied_ok db a now e =
    let rows = update (by_id a.queue_id) (set_applied now) db.queue.rows in
    elim (Option-cases (select (by_id a.queue_id) rows)) [
      | inl h ↦ rw (h, ack_applied) (_, refl)
      | inr (i, h) ↦ elim (Bool-cases (i.note_id == "")) [
        | inl t ↦ rw (h, t, ack_applied) (_, refl)
        | inr t ↦ rw (h, t, ack_applied) (ack_update_ok (with_rows db rows) a i.note_id e)
      ]
    ]

ack_single_ok :
    (now : ℕ) (db : Db) (a : SyncAckItem) → NamesNone a → Succeeds (ack_single_item now db a)
unfolding ack_single_item
ack_single_ok now db a e = elim (Option-cases (select (by_id a.queue_id) db.queue.rows)) [
  | inl h ↦ rw (h, ack_single_item) (_, refl)
  | inr (i, h) ↦ elim (Bool-cases (is_processing i.status)) [
    | inr p ↦ rw (h, p, ack_single_item) (_, refl)
    | inl p ↦ elim (Bool-cases (is_applied a.status)) [
      | inl t ↦ rw (h, p, t, ack_single_item) (ack_applied_ok db a now e)
      | inr t ↦ rw (h, p, t, ack_single_item) (_, refl)
    ]
  ]
]

-- Acks that name no note of Bear are accepted.
pub ack_queue_ok :
    (now : ℕ) (db : Db) (acks : List SyncAckItem)
    → All NamesNone acks
    → Succeeds (ack_queue_items now db acks)
unfolding ack_queue_items
ack_queue_ok now db [] h = (db, refl)
ack_queue_ok now db (a ∷ acks) h =
    let (d, run) = ack_single_ok now db a h.0 in rw run (ack_queue_ok now d acks h.1)

answers_name_none :
    (items : List LeasedItem) (acks : List SyncAckItem)
    → AreAnswers items acks
    → All (λ i. is_create i.action ≡ false) items
    → All NamesNone acks
answers_name_none [] [] answers h = tt
answers_name_none [] (a ∷ acks) answers h = absurd answers
answers_name_none (i ∷ items) [] answers h = absurd answers
answers_name_none (i ∷ items) (a ∷ acks) answers h = (
  elim (Bool-cases (a.bear_id == "")) [
    | inl e ↦ e
    | inr e ↦ cc (h.0, (answers.0.names_created e).0)
  ],
  answers_name_none items acks answers.1 h.1,
)

-- The end of a turn with so many items.
abbrev pub end_of : ℕ → CycleEnd
end_of zero = idle
end_of (suc n) = acked (suc n)

send_acks_ok :
    (db : Db) (now : ℕ) (acks : List SyncAckItem)
    → All NamesNone acks
    → (send_acks db now answered acks).1 ≡ acked (length acks)
unfolding send_acks sync_ack
send_acks_ok db now acks h = let (d, run) = ack_queue_ok now db acks h in rw (run, sync_ack) refl

-- The turn has come to its end with none of the `items` alive.
abbrev pub IsOver : List LeasedItem → Db × CycleEnd → Type 0
IsOver items (db, end) =
    (end ≡ end_of (length items)) × All (λ i. IsNot is_live i.id db.queue.rows) items

module _ (B : Bear) where
  apply_leased-IsOver :
      (db : Db) (s : B.State) (now : ℕ) (items : List LeasedItem)
      → All (λ i. IsNot is_pending i.id db.queue.rows) items
      → All (λ i. is_create i.action ≡ false) items
      → IsOver items (apply_leased B db s now answered items).1
  unfolding apply_leased
  apply_leased-IsOver db s now [] idle_items h = (refl, tt)
  apply_leased-IsOver db s now (i ∷ items) idle_items h =
      let acks = (process_items B s (i ∷ items)).1 in
      let out = apply_leased B db s now answered (i ∷ items) in
      let answers = process_items-AreAnswers B s (i ∷ items) in
      let e =
        send_acks_ok db now acks (answers_name_none (i ∷ items) acks answers h)
        ∙ ap acked (length-AreAnswers (i ∷ items) acks answers) in
      (
        e,
        (apply_leased-IsNot B db s now answered (i ∷ items) idle_items
            (ap (λ (x : CycleEnd). (out.0, (out.1.0, x))) e)).0,
      )

  -- If none of the handed-out items is a create, and the hub answers both requests of a turn, the
  -- turn comes to its end without an error, with an ack for each item, and none of the items is
  -- pending or being processed in the hub's queue afterwards.
  pub process_queue-IsOver :
      (db : Db) (s : B.State) (now now' : ℕ)
      → All (λ i. is_create i.action ≡ false) (sync_queue db now "bridge").1
      → IsOver (sync_queue db now "bridge").1 (process_queue B db s now answered now' answered).1
  unfolding process_queue sync_queue
  process_queue-IsOver db s now now' h =
      let leased = sync_queue db now "bridge" in
      apply_leased-IsOver leased.0 s now' leased.1
        (lease-IsNot db.notes db.queue "bridge" now lease_seconds) h
