-- ===== src/Ipc/Stats.antt =====
-- `StatsTracker` of internal/ipc/stats.go, one call at a time, as its mutex has them. A count is a
-- natural number, the number of entries that a client asks for, too: a negative one is answered as
-- 0 is. A channel of capacity 1 that carries no value is a flag.
use bear_sync.Prelude.{
  ℕ, zero, suc, ◌-◌, String, Bool, true, false, ◌||◌, Option, none, some, List, [], ◌∷◌, ◌++◌, leb,
  ltb, nat_eq, length, if◌then◌else◌,
}

pub data State : Type 0 where
  idle syncing error : State

pub record LogEntry : Type 0 where
  pub time : String
  pub level : String
  pub msg : String

pub record QueueStatusItem : Type 0 where
  pub id : ℕ
  pub action : String
  pub note_title : String
  pub status : String
  pub created_at : String

pub record StatsTracker : Type 0 where
  pub state : State
  pub last_sync : Option String
  pub last_error : String
  pub notes_synced : ℕ
  pub tags_synced : ℕ
  pub queue_processed : ℕ
  pub last_duration_ms : ℕ
  pub version : String
  pub log_buf : List LogEntry
  pub log_size : ℕ
  pub queue_items : List QueueStatusItem
  pub sync_trigger : Bool
  pub shutdown : Bool

abbrev pub default_log_buffer_size : ℕ
default_log_buffer_size = 500

unfoldable pub new_stats_tracker : ℕ → StatsTracker
new_stats_tracker size = record {
  state = idle;
  last_sync = none;
  last_error = "";
  notes_synced = 0;
  tags_synced = 0;
  queue_processed = 0;
  last_duration_ms = 0;
  version = "";
  log_buf = [];
  log_size = if nat_eq size 0 then default_log_buffer_size else size;
  queue_items = [];
  sync_trigger = false;
  shutdown = false;
}

unfoldable pub set_version : String → StatsTracker → StatsTracker
set_version v st = record st { version = v }

pub record SyncStats : Type 0 where
  pub notes_synced : ℕ
  pub tags_synced : ℕ
  pub queue_processed : ℕ
  pub last_duration_ms : ℕ

pub record StatusResponse : Type 0 where
  pub state : State
  pub last_sync : String
  pub last_error : String
  pub stats : SyncStats
  pub version : String

unfoldable pub get_status : StatsTracker → StatusResponse
get_status st = record {
  state = st.state;
  last_sync = elim st.last_sync [ none ↦ "" | some t ↦ t ];
  last_error = st.last_error;
  stats = record {
    notes_synced = st.notes_synced;
    tags_synced = st.tags_synced;
    queue_processed = st.queue_processed;
    last_duration_ms = st.last_duration_ms;
  };
  version = st.version;
}

unfoldable pub get_queue_status : StatsTracker → List QueueStatusItem
get_queue_status st = st.queue_items

unfoldable pub trigger_sync : StatsTracker → StatsTracker
trigger_sync st = record st { sync_trigger = true }

unfoldable pub request_shutdown : StatsTracker → StatsTracker
request_shutdown st = record st { shutdown = true }

unfoldable pub set_syncing : StatsTracker → StatsTracker
set_syncing st = record st { state = syncing }

unfoldable pub set_idle : String → StatsTracker → StatsTracker
set_idle now st = record st { state = idle; last_error = ""; last_sync = some now }

unfoldable pub set_error : String → StatsTracker → StatsTracker
set_error msg st = record st { state = error; last_error = msg }

unfoldable pub record_sync : ℕ → ℕ → ℕ → ℕ → StatsTracker → StatsTracker
record_sync notes tags processed ms st = record st {
  notes_synced = notes;
  tags_synced = tags;
  queue_processed = processed;
  last_duration_ms = ms;
}

unfoldable pub set_queue_items : List QueueStatusItem → StatsTracker → StatsTracker
set_queue_items items st = record st { queue_items = items }

-- The first item with the id.
unfoldable pub set_status : ℕ → String → List QueueStatusItem → List QueueStatusItem
set_status k status [] = []
set_status k status (i ∷ items) =
    let rest = set_status k status items in
    if nat_eq i.id k then (record i { status = status }) ∷ items else i ∷ rest

unfoldable pub update_queue_item_status : ℕ → String → StatsTracker → StatsTracker
unfolding set_status
update_queue_item_status k status st = record st {
  queue_items = set_status k status st.queue_items;
}

unfoldable pub clear_queue_items : StatsTracker → StatsTracker
clear_queue_items st = record st { queue_items = [] }

abbrev pub drop {ℓ} : {A : Type ℓ} → ℕ → List A → List A
drop zero xs = xs
drop (suc n) [] = []
drop (suc n) (x ∷ xs) = drop n xs

-- A full buffer shifts: the oldest entry goes.
unfoldable pub push_entry : ℕ → LogEntry → List LogEntry → List LogEntry
push_entry size e buf = if leb size (length buf) then drop 1 buf ++ e ∷ [] else buf ++ e ∷ []

unfoldable pub add_log : LogEntry → StatsTracker → StatsTracker
unfolding push_entry
add_log e st = record st { log_buf = push_entry st.log_size e st.log_buf }

-- The last `n` entries of the buffer.
unfoldable pub last_entries : ℕ → List LogEntry → List LogEntry
last_entries n buf =
    let len = length buf in
    if nat_eq n 0 || nat_eq len 0 then [] else drop (len - (if ltb len n then len else n)) buf

unfoldable pub get_logs : ℕ → StatsTracker → List LogEntry
unfolding last_entries
get_logs n st = last_entries n st.log_buf
