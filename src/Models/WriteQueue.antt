-- ===== src/Models/WriteQueue.antt =====
-- internal/models/write_queue.go. A nullable column is an `Option`. The times that the queue
-- compares (`lease_until`, `applied_at`) are RFC 3339 texts in UTC with a precision of a second,
-- whose order is the order of the seconds: they are modelled as seconds.
use bear_sync.Prelude.{ℕ, String, Bool, true, false, Option, List}
use bear_sync.Models.Note.{SyncStatus}

pub data Action : Type 0 where
  create update add_tag trash add_file archive rename_tag delete_tag : Action
  other : String → Action

pub data QueueStatus : Type 0 where
  pending processing applied failed : QueueStatus

-- A member of a payload: the program writes texts and lists of texts.
pub data Json : Type 0 where
  text : String → Json
  texts : List String → Json

-- The column `payload`: the members of a JSON object in order, or a text that is no JSON object.
pub data Payload : Type 0 where
  object : List (String × Json) → Payload
  malformed : String → Payload

pub record WriteQueueItem : Type 0 where
  pub id : ℕ
  pub idempotency_key : String
  pub action : Action
  pub note_id : String
  pub payload : Payload
  pub created_at : String
  pub status : QueueStatus
  pub processing_by : Option String
  pub lease_until : Option ℕ
  pub applied_at : Option ℕ
  pub error : Option String
  pub consumer_id : String
  pub secondary_idempotency_key : Option String

-- A leased item: the row, and the `note_sync_status` that the join adds (`none` is the text "").
pub record LeasedItem : Type 0 where
  pub item : WriteQueueItem
  pub open item use *
  pub note_sync_status : Option SyncStatus

abbrev pub is_pending : QueueStatus → Bool
is_pending pending = true
is_pending _ = false

abbrev pub is_processing : QueueStatus → Bool
is_processing processing = true
is_processing _ = false

abbrev pub is_failed : QueueStatus → Bool
is_failed failed = true
is_failed _ = false

-- status IN ('pending', 'processing')
abbrev pub is_live : QueueStatus → Bool
is_live pending = true
is_live processing = true
is_live _ = false

abbrev pub is_update : Action → Bool
is_update update = true
is_update _ = false

abbrev pub is_create : Action → Bool
is_create create = true
is_create _ = false

abbrev pub is_add_file : Action → Bool
is_add_file add_file = true
is_add_file _ = false

abbrev pub is_ended_applied : QueueStatus → Bool
is_ended_applied applied = true
is_ended_applied _ = false
