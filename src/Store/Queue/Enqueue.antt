-- ===== src/Store/Queue/Enqueue.antt =====
-- `GetQueueItem`, `GetQueueItemByIdempotencyKey`, `EnqueueWrite`, `handleIdempotencyHit`,
-- `coalesceUpdateTx` and `CoalesceCreateUpdate` of internal/store/sqlite.go, each as a function on
-- the table. An error leaves the table as it was: the transaction is rolled back.
use bear_sync.Prelude.{
  ℕ, suc, String, Bool, not, ◌&&◌, ◌||◌, Option, none, some, List, [], ◌∷◌, ◌++◌, ◌==◌, matches,
  select, update, any, count_where, Result, ok, err, unique_violation, no_rows, bad_payload, ◌>>=◌,
  if◌then◌else◌, nat_eq, put,
}
use bear_sync.Models.WriteQueue.{
  Action, pending, Json, text, texts, Payload, object, malformed, WriteQueueItem, is_pending,
  is_failed, is_live, is_update, is_create,
}
use bear_sync.Store.Db.{QueueTable, by_id}

-- The arguments of `EnqueueWrite`, and the time that SQLite takes for `created_at`.
pub record WriteRequest : Type 0 where
  pub idempotency_key : String
  pub action : Action
  pub note_id : String
  pub payload : Payload
  pub consumer_id : String
  pub now : String

-- (idempotency_key = ? OR secondary_idempotency_key = ?) AND consumer_id = ?
abbrev pub by_key : String → String → WriteQueueItem → Bool
by_key key consumer i =
    (i.idempotency_key == key || matches i.secondary_idempotency_key key)
    && i.consumer_id == consumer

unfoldable pub get_queue_item : QueueTable → ℕ → Option WriteQueueItem
get_queue_item q k = select (by_id k) q.rows

unfoldable pub get_by_key : QueueTable → String → String → Option WriteQueueItem
get_by_key q key consumer = select (by_key key consumer) q.rows

-- Reading a row back inside the transaction.
unfoldable pub read_back : QueueTable → ℕ → Result (QueueTable × WriteQueueItem)
unfolding get_queue_item
read_back q k = elim (get_queue_item q k) [ none ↦ err no_rows | some i ↦ ok (q, i) ]

abbrev pub reset : WriteRequest → WriteQueueItem → WriteQueueItem
reset r i = record i {
  status = pending;
  action = r.action;
  note_id = r.note_id;
  payload = r.payload;
  processing_by = none;
  lease_until = none;
  applied_at = none;
  error = none;
}

-- Where the guarded UPDATE touches no row, the item is read back from the table as it is, so that
-- the branch on `rowsAffected` needs no case of its own.
unfoldable pub handle_idempotency_hit :
    QueueTable → WriteQueueItem → WriteRequest → Result (QueueTable × WriteQueueItem)
unfolding read_back
handle_idempotency_hit q existing r =
    let rows = update (λ i. by_id existing.id i && is_failed i.status) (reset r) q.rows in
    if is_failed existing.status
    then read_back (record q { rows = rows }) existing.id
    else ok (q, existing)

abbrev pub merge_payload : Payload → String → WriteQueueItem → WriteQueueItem
merge_payload p key i = record i { payload = p; secondary_idempotency_key = some key }

-- The second UPDATE of both coalescing functions; `none` where its guard finds no row.
unfoldable pub merge_into :
    QueueTable → ℕ → Payload → String → Result (Option (QueueTable × WriteQueueItem))
unfolding read_back
merge_into q k p key =
    let guarded = λ (i : WriteQueueItem). by_id k i && is_pending i.status in
    let merged = record q { rows = update guarded (merge_payload p key) q.rows } in
    if nat_eq (count_where guarded q.rows) 0
    then ok none
    else (read_back merged k >>= λ r. ok (some r))

abbrev pub by_pending_update : String → String → WriteQueueItem → Bool
by_pending_update note consumer i =
    i.note_id == note && is_update i.action && is_pending i.status && i.consumer_id == consumer

unfoldable pub coalesce_update_tx :
    QueueTable → WriteRequest → Result (Option (QueueTable × WriteQueueItem))
unfolding merge_into
coalesce_update_tx q r = elim (select (by_pending_update r.note_id r.consumer_id) q.rows) [
  | none ↦ ok none
  | some e ↦ merge_into q e.id r.payload r.idempotency_key
]

-- INSERT INTO write_queue, with the constraint UNIQUE(idempotency_key, consumer_id).
abbrev pub inserted : ℕ → WriteRequest → WriteQueueItem
inserted k r = record {
  id = k;
  idempotency_key = r.idempotency_key;
  action = r.action;
  note_id = r.note_id;
  payload = r.payload;
  created_at = r.now;
  status = pending;
  processing_by = none;
  lease_until = none;
  applied_at = none;
  error = none;
  consumer_id = r.consumer_id;
  secondary_idempotency_key = none;
}

abbrev pub same_key : WriteRequest → WriteQueueItem → Bool
same_key r i = i.idempotency_key == r.idempotency_key && i.consumer_id == r.consumer_id

unfoldable pub insert_item : QueueTable → WriteRequest → Result (QueueTable × WriteQueueItem)
unfolding read_back
insert_item q r =
    if any (same_key r) q.rows
    then err unique_violation
    else read_back (record { rows = q.rows ++ inserted q.next_id r ∷ []; next_id = suc q.next_id })
        q.next_id

abbrev pub coalesces : WriteRequest → Bool
coalesces r = is_update r.action && not (r.note_id == "")

-- The miss of the idempotency check: coalesce, or insert.
unfoldable pub enqueue_new : QueueTable → WriteRequest → Result (QueueTable × WriteQueueItem)
unfolding coalesce_update_tx insert_item
enqueue_new q r = do
  coalesced ← if coalesces r then coalesce_update_tx q r else ok none
  elim coalesced [ none ↦ insert_item q r | some done ↦ ok done ]

unfoldable pub enqueue_write : QueueTable → WriteRequest → Result (QueueTable × WriteQueueItem)
unfolding get_by_key handle_idempotency_hit enqueue_new
enqueue_write q r = elim (get_by_key q r.idempotency_key r.consumer_id) [
  | none ↦ enqueue_new q r
  | some existing ↦ handle_idempotency_hit q existing r
]

abbrev pub by_pending_create : String → String → WriteQueueItem → Bool
by_pending_create note consumer i =
    i.note_id == note && is_create i.action && is_pending i.status && i.consumer_id == consumer

-- json.Unmarshal of the update payload into map[string]string, read at "body". It fails where a
-- member is no text, and where the payload is no object.
body_member : List (String × Json) → Result (Option String)
body_member [] = ok none
body_member ((j, texts v) ∷ m) = err bad_payload
body_member ((j, text v) ∷ m) = do
  rest ← body_member m
  ok (elim rest [ none ↦ (if j == "body" then some v else none) | some w ↦ some w ])

-- The payload of a create with the body of an update.
pub merge_body : Payload → Payload → Result Payload
unfolding body_member
merge_body (malformed t) p = err bad_payload
merge_body (object m) (malformed t) = err bad_payload
merge_body (object m) (object u) = do
  body ← body_member u
  ok (object (elim body [ none ↦ m | some v ↦ put "body" (text v) m ]))

unfoldable pub coalesce_create_update :
    QueueTable → String → String → Payload → String → Result (Option (QueueTable × WriteQueueItem))
unfolding merge_body merge_into
coalesce_create_update q key note p consumer =
    elim (select (by_pending_create note consumer) q.rows) [
      | none ↦ ok none
      | some e ↦ (merge_body e.payload p >>= λ merged. merge_into q e.id merged key)
    ]

-- `PendingQueueCount`
unfoldable pub pending_queue_count : QueueTable → ℕ
pending_queue_count q = count_where (λ i. is_live i.status) q.rows
