-- ===== src/Store/Queue/Lease.antt =====
-- `LeaseQueueItems` of internal/store/sqlite.go. `now` is one reading of the clock; the source
-- reads it twice in a row.
use bear_sync.Prelude.{
  ℕ, ◌+◌, String, Bool, false, ◌&&◌, Option, none, some, List, map, ltb, nat_eq, select, select_all,
  update, any, take,
}
use bear_sync.Models.Note.{Note, SyncStatus}
use bear_sync.Models.WriteQueue.{
  pending, processing, WriteQueueItem, LeasedItem, is_pending, is_processing,
}
use bear_sync.Store.Db.{QueueTable, note_by_id}

-- lease_until < ?, which NULL does not satisfy
abbrev pub before : Option ℕ → ℕ → Bool
before none now = false
before (some t) now = ltb t now

abbrev pub is_stale : ℕ → WriteQueueItem → Bool
is_stale now i = is_processing i.status && before i.lease_until now

abbrev pub release : WriteQueueItem → WriteQueueItem
release i = record i { status = pending; processing_by = none; lease_until = none }

unfoldable pub expire_leases : ℕ → List WriteQueueItem → List WriteQueueItem
expire_leases now rows = update (is_stale now) release rows

abbrev pub lease_limit : ℕ
lease_limit = 100

unfoldable pub pending_items : List WriteQueueItem → List WriteQueueItem
pending_items rows = take lease_limit (select_all (λ i. is_pending i.status) rows)

abbrev pub leased_to : String → ℕ → WriteQueueItem → WriteQueueItem
leased_to by until i = record i {
  status = processing;
  processing_by = some by;
  lease_until = some until;
}

-- id IN (…)
abbrev pub is_among : List WriteQueueItem → WriteQueueItem → Bool
is_among items i = any (λ j. nat_eq j.id i.id) items

-- LEFT JOIN notes n ON n.id = wq.note_id
join_status : List Note → WriteQueueItem → Option SyncStatus
join_status notes i = elim (select (note_by_id i.note_id) notes) [
  | none ↦ none
  | some n ↦ some n.sync_status
]

unfoldable pub to_leased : List Note → String → ℕ → WriteQueueItem → LeasedItem
unfolding join_status
to_leased notes by until i = record {
  item = leased_to by until i;
  note_sync_status = join_status notes i;
}

unfoldable pub lease_rows : List WriteQueueItem → String → ℕ → ℕ → List WriteQueueItem
unfolding expire_leases pending_items
lease_rows rows by now until =
    let released = expire_leases now rows in
    update (is_among (pending_items released)) (leased_to by until) released

unfoldable pub lease_queue_items :
    List Note → QueueTable → String → ℕ → ℕ → QueueTable × List LeasedItem
unfolding lease_rows to_leased
lease_queue_items notes q by now duration =
    let until = now + duration in
    (
      record q { rows = lease_rows q.rows by now until },
      map (to_leased notes by until) (pending_items (expire_leases now q.rows)),
    )
