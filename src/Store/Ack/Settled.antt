-- ===== src/Store/Ack/Settled.antt =====
-- Proofs about `AckQueueItems` of internal/store/sqlite.go on a note.
use bear_sync.Prelude.{
  ℕ, ◌≤◌, ◌||◌, String, Bool, true, false, ◌&&◌, some, List, [], ◌∷◌, ◌==◌, ◌≡◌, refl, sym, ap, ◌∙◌,
  ◌⊎◌, inl, inr, arith, eq_iff, select, select_sound, update, any, ok, ok_injective, >>=-eq-ok,
  Bool-cases, Option-cases,
}
use mathlib.Core.Path.{subst}
use bear_sync.Models.Note.{Note, synced, conflict}
use bear_sync.Models.WriteQueue.{WriteQueueItem, is_processing}
use bear_sync.Models.Sync.{SyncAckItem}
use bear_sync.Store.Db.{Db, by_id, note_by_id}
use bear_sync.Store.Ack.{
  other_pending, ack_notes, ack_update_note_status, set_applied, with_rows, ack_applied, is_applied,
  ack_single_item, ack_queue_items,
}
use bear_sync.Store.Ack.Effect.{Acked, ack_notes-Acked, IsLast}
use bear_sync.Store.Ack.Live.{live_count, others_are_live}
use bear_sync.Store.Ack.Laws.{ack_queue_items-step, ack_queue_items-live}

-- The row `k`, which was `m`, after acks of which one says that a conflict is `resolved`.
pub record Settled (resolved : Bool) (k : String) (m : Note) (db' : Db) : Type 0 where
  pub later : Note
  pub found : select (note_by_id k) db'.notes ≡ some later
  pub same_title : later.title ≡ m.title
  pub same_body : later.body ≡ m.body
  -- a conflict ends only by an ack that says so, and with no live item of the note left
  pub conflict_kept :
      m.sync_status ≡ conflict
      → (later.sync_status ≡ conflict) ⊎ ((resolved ≡ true) × (live_count k db'.queue.rows ≡ 0))
  -- a note becomes synced only with no live item of it left
  pub synced_last :
      later.sync_status ≡ synced → (m.sync_status ≡ synced) ⊎ (live_count k db'.queue.rows ≡ 0)

Settled-same :
    (resolved : Bool) (k : String) (m : Note) (db' : Db)
    → select (note_by_id k) db'.notes ≡ some m
    → Settled resolved k m db'
Settled-same resolved k m db' h = record {
  later = m;
  found = h;
  same_title = refl;
  same_body = refl;
  conflict_kept = λ e. inl e;
  synced_last = λ e. inl e;
}

module _ (k : String) {m : Note} (now : ℕ) (db : Db) (a : SyncAckItem)
    (h : select (note_by_id k) db.notes ≡ some m) where
  last_live :
      (rows : List WriteQueueItem) (note : String)
      → rows ≡ update (by_id a.queue_id) (set_applied now) db.queue.rows
      → IsLast (other_pending note a.queue_id rows) note m
      → live_count k rows ≡ 0
  last_live rows note e l =
      ap (λ n. live_count n rows) (sym same_key)
      ∙ ap (live_count note) e
      ∙ sym (others_are_live now a.queue_id note db.queue.rows)
      ∙ ap (other_pending note a.queue_id) (sym e)
      ∙ l.0
    where
      same_key : note ≡ k
      same_key =
          sym ((eq_iff m.id note).0 l.1)
          ∙ (eq_iff m.id k).0 (select_sound (note_by_id k) db.notes h)

  Acked-Settled :
      (db' : Db) (note : String)
      → db'.queue.rows ≡ update (by_id a.queue_id) (set_applied now) db.queue.rows
      → Acked k m (other_pending note a.queue_id db'.queue.rows) a note db'.notes
      → Settled a.conflict_resolved k m db'
  Acked-Settled db' note e acked = record {
    later = acked.later;
    found = acked.found;
    same_title = acked.effect.same_title;
    same_body = acked.effect.same_body;
    conflict_kept = λ c. elim (acked.effect.conflict_kept c) [
      | inl kept ↦ inl kept
      | inr (r, l) ↦ inr (r, last_live db'.queue.rows note e l)
    ];
    synced_last = λ s. elim (acked.effect.synced_last s) [
      | inl kept ↦ inl kept
      | inr l ↦ inr (last_live db'.queue.rows note e l)
    ];
  }

  ack_update-Settled :
      (note : String) {db' : Db}
      → ack_update_note_status
          (with_rows db (update (by_id a.queue_id) (set_applied now) db.queue.rows))
          a
          note
        ≡ ok db'
      → Settled a.conflict_resolved k m db'
  unfolding ack_update_note_status
  ack_update-Settled note {db'} run =
      let rows = update (by_id a.queue_id) (set_applied now) db.queue.rows in
      let (notes', acked, same) =
        >>=-eq-ok (ack_notes (other_pending note a.queue_id rows) a note db.notes)
          (λ notes. ok (record (with_rows db rows) { notes = notes })) run in
      subst (Settled a.conflict_resolved k m) (ok_injective same) (
        Acked-Settled (record (with_rows db rows) { notes = notes' }) note refl
          (ack_notes-Acked k (other_pending note a.queue_id rows) a note db.notes h acked))

  ack_applied-Settled :
      {db' : Db} → ack_applied db a now ≡ ok db' → Settled a.conflict_resolved k m db'
  unfolding ack_applied
  ack_applied-Settled {db'} run =
      elim (Option-cases
        (select (by_id a.queue_id) (update (by_id a.queue_id) (set_applied now) db.queue.rows))) [
          | inl e ↦ Settled-same a.conflict_resolved k m db' (ground arith)
          | inr (i, e) ↦ elim (Bool-cases (i.note_id == "")) [
            | inl t ↦ Settled-same a.conflict_resolved k m db' (ground arith)
            | inr t ↦ ack_update-Settled i.note_id (ground arith)
          ]
        ]

  pub ack_single_item-Settled :
      {db' : Db} → ack_single_item now db a ≡ ok db' → Settled a.conflict_resolved k m db'
  unfolding ack_single_item
  ack_single_item-Settled {db'} run =
      elim (Option-cases (select (by_id a.queue_id) db.queue.rows)) [
        | inl e ↦ Settled-same a.conflict_resolved k m db' (ground arith)
        | inr (i, e) ↦ elim (Bool-cases (is_processing i.status && is_applied a.status)) [
          | inl p ↦ ack_applied-Settled (ground arith)
          | inr p ↦ Settled-same a.conflict_resolved k m db' (ground arith)
        ]
      ]

Settled-trans :
    (r s : Bool) (k : String) {m : Note} (db' db'' : Db)
    → (x : Settled r k m db') → Settled s k x.later db''
    → live_count k db''.queue.rows ≤ live_count k db'.queue.rows
    → Settled (r || s) k m db''
Settled-trans r s k db' db'' x y less = record {
  later = y.later;
  found = y.found;
  same_title = y.same_title ∙ x.same_title;
  same_body = y.same_body ∙ x.same_body;
  conflict_kept = λ c. ground (arith, x.conflict_kept c, y.conflict_kept);
  synced_last = λ e. ground (arith, y.synced_last e, x.synced_last);
}

-- A batch of acks that succeeds keeps the title and the body of every note, ends a conflict only
-- if one of the acks says that it is resolved, and then, as when it makes a note synced, no
-- pending or processing item of the note is left.
pub ack_queue_items-Settled :
    (now : ℕ) (db : Db) (items : List SyncAckItem) (k : String) {m : Note} {db' : Db}
    → select (note_by_id k) db.notes ≡ some m
    → ack_queue_items now db items ≡ ok db'
    → Settled (any (λ a. a.conflict_resolved) items) k m db'
unfolding ack_queue_items
ack_queue_items-Settled now db [] k {m} {db'} h run =
    Settled-same false k m db'
      (subst (λ d. select (note_by_id k) d.notes ≡ some m) (ok_injective run) h)
ack_queue_items-Settled now db (a ∷ items) k {m} {db'} h run =
    let (d, one, rest) = ack_queue_items-step now db a items run in
    let x = ack_single_item-Settled k now db a h one in
    Settled-trans a.conflict_resolved (any (λ a. a.conflict_resolved) items) k d db' x
      (ack_queue_items-Settled now d items k x.found rest) (ack_queue_items-live k now d items rest)
