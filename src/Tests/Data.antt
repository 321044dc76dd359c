-- ===== src/Tests/Data.antt =====
-- Notes, queue items and requests for the tests.
use bear_sync.Prelude.{ℕ, String, Option, none, some, List, [], ◌∷◌, arith, refl}
use bear_sync.Models.Note.{Note, SyncStatus, zero_flags, zero_dates, zero_info}
use bear_sync.Models.WriteQueue.{
  WriteQueueItem, Action, update, create, trash, QueueStatus, pending, processing, failed, Payload,
  object, text,
}
use bear_sync.Store.Db.{QueueTable, Db}
use bear_sync.Store.Queue.Enqueue.{WriteRequest}
use bear_sync.Store.Queue.Shape.{IsWellFormed, HasLease}

abbrev pub note_of : String → Option String → String → String → SyncStatus → Note
note_of id bear title body status = record {
  id = id;
  bear_id = bear;
  title = title;
  subtitle = "";
  body = body;
  flags = zero_flags;
  dates = record zero_dates { modified_at = "t1" };
  info = zero_info;
  sync_status = status;
  hub_modified_at = "";
  bear_raw = "";
  pending_bear_title = none;
  pending_bear_body = none;
  expected_bear_modified_at = none;
}

abbrev pub body_payload : String → Payload
body_payload b = object (("body", text b) ∷ [])

abbrev pub item_of : ℕ → String → Action → String → QueueStatus → WriteQueueItem
item_of k key action note status = record {
  id = k;
  idempotency_key = key;
  action = action;
  note_id = note;
  payload = body_payload "b";
  created_at = "t0";
  status = status;
  processing_by = none;
  lease_until = none;
  applied_at = none;
  error = none;
  consumer_id = "web";
  secondary_idempotency_key = none;
}

abbrev pub held : ℕ → WriteQueueItem → WriteQueueItem
held until i = record i {
  status = processing;
  processing_by = some "bridge";
  lease_until = some until;
}

-- A free update of the note n1, a leased trash of n2, and a failed create of n3.
abbrev pub three_items : QueueTable
three_items = record {
  rows =
      item_of 1 "k1" update "n1" pending
      ∷ held 50 (item_of 2 "k2" trash "n2" pending)
      ∷ item_of 3 "k3" create "n3" failed
      ∷ [];
  next_id = 4;
}

pending-HasLease :
    (k : ℕ) (key : String) (action : Action) (note : String)
    → HasLease (item_of k key action note pending)
pending-HasLease k key action note = record {
  pending_free = λ _. (refl, refl);
  processing_held = λ e. cc;
}

failed-HasLease :
    (k : ℕ) (key : String) (action : Action) (note : String)
    → HasLease (item_of k key action note failed)
failed-HasLease k key action note = record { pending_free = λ e. cc; processing_held = λ e. cc }

held-HasLease : (until : ℕ) (i : WriteQueueItem) → HasLease (held until i)
held-HasLease until i = record { pending_free = λ e. cc; processing_held = λ _. (until, refl) }

pub three_items-IsWellFormed : IsWellFormed three_items
three_items-IsWellFormed = record {
  ascending = (omega arith, (omega arith, (omega arith, omega arith)));
  leases = (
    pending-HasLease 1 "k1" update "n1",
    (
      held-HasLease 50 (item_of 2 "k2" trash "n2" pending),
      (failed-HasLease 3 "k3" create "n3", tt),
    ),
  );
}

abbrev pub request_of : String → Action → String → String → WriteRequest
request_of key action note body = record {
  idempotency_key = key;
  action = action;
  note_id = note;
  payload = body_payload body;
  consumer_id = "web";
  now = "t5";
}

abbrev pub db_of : List Note → QueueTable → Db
db_of notes q = record {
  notes = notes;
  tags = [];
  note_tags = [];
  pinned_note_tags = [];
  attachments = [];
  backlinks = [];
  queue = q;
  sync_meta = [];
  drawn = 0;
}
