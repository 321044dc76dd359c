-- ===== src/Api/Reply.antt =====
-- What a handler of internal/api answers, and what it takes from a request.
use bear_sync.Prelude.{
  ℕ, String, Bool, true, false, not, Option, none, some, ◌==◌, nat_eq, Result, err, disk_failure,
  if◌then◌else◌,
}
use bear_sync.Models.Note.{Note}
use bear_sync.Models.WriteQueue.{WriteQueueItem, Action, Payload, is_failed}
use bear_sync.Store.Db.{Db, QueueTable}
use bear_sync.Store.Ack.{is_conflict}
use bear_sync.Store.Queue.Enqueue.{get_by_key, WriteRequest, enqueue_write}

-- `writeError`, and `writeJSON` of a note, of an id with "accepted", or of a queue item.
pub data Reply : Type 0 where
  refused : ℕ → String → Reply
  note_reply : ℕ → Note → Reply
  id_reply : ℕ → String → Reply
  item_reply : ℕ → WriteQueueItem → Reply

abbrev pub is_refused : Reply → Bool
is_refused (refused code msg) = true
is_refused _ = false

-- The Idempotency-Key, the consumer that the token names, the clock of the hub and of SQLite, and
-- whether the transaction of `EnqueueWrite` fails, as it does on a full disk.
pub record Caller : Type 0 where
  pub key : String
  pub consumer : String
  pub now : String
  pub sql_now : String
  pub enqueue_fails : Bool

abbrev pub write_of : Caller → Action → String → Payload → WriteRequest
write_of c action note payload = record {
  idempotency_key = c.key;
  action = action;
  note_id = note;
  payload = payload;
  consumer_id = c.consumer;
  now = c.sql_now;
}

-- `EnqueueWrite`, as a handler calls it.
unfoldable pub try_enqueue :
    Caller → QueueTable → WriteRequest → Result (QueueTable × WriteQueueItem)
unfolding enqueue_write
try_enqueue c q r = if c.enqueue_fails then err disk_failure else enqueue_write q r

-- The item under the caller's key, which the handlers ask for if there is a key.
unfoldable pub existing_item : Db → Caller → Option WriteQueueItem
unfolding get_by_key
existing_item db c = if c.key == "" then none else get_by_key db.queue c.key c.consumer

unfoldable pub is_retryable_queue_item : Option WriteQueueItem → Bool
is_retryable_queue_item none = false
is_retryable_queue_item (some i) = not (is_failed i.status)

abbrev pub has_no_bear_id : Note → Bool
has_no_bear_id n = elim n.bear_id [ none ↦ true | some b ↦ b == "" ]

abbrev pub not_synced_msg : String
not_synced_msg = "note not yet synced to Bear; retry after initial sync completes"

-- The guards that `trashNote`, `archiveNote` and `addTag` share, in their order.
unfoldable pub refusal : Note → String → Option Reply
refusal n conflict_msg =
    if nat_eq n.encrypted 1
    then some (refused 403 "encrypted notes are read-only")
    else if has_no_bear_id n
    then some (refused 409 not_synced_msg)
    else if is_conflict n.sync_status
    then some (refused 409 conflict_msg)
    else none
