-- ===== src/Bridge/Cycles.antt =====
-- `Run` of cmd/bridge/sync.go: one cycle of the bridge. The events and the counters for them are
-- left out.
use bear_sync.Prelude.{ℕ, String, not, ◌&&◌, Option, none, some, nat_eq, ltb, if◌then◌else◌}
use bear_sync.Store.Db.{Db}
use bear_sync.Bridge.Bear.{Bear}
use bear_sync.Bridge.Cycle.{Delivery, CycleEnd, process_queue}
use bear_sync.Bridge.Reads.{BearReads, BridgeState, Rendering}
use bear_sync.Bridge.Delta.{Run, SyncEnd, synced, sync_failed, delta_sync}
use bear_sync.Bridge.Initial.{initial_sync}

-- What `loadState` finds.
pub data StateFile : Type 0 where
  no_file unreadable : StateFile
  saved : BridgeState → StateFile

abbrev pub file_of : Option BridgeState → StateFile
file_of none = no_file
file_of (some st) = saved st

-- `bearDBModTime` from the times of the database and of its WAL file, where a file that `os.Stat`
-- does not find has none.
abbrev pub later_of : ℕ → Option ℕ → ℕ
later_of t none = t
later_of t (some u) = if ltb t u then u else t

unfoldable pub bear_db_mod_time : Option ℕ → Option ℕ → ℕ
bear_db_mod_time db_time wal_time = later_of (later_of 0 db_time) wal_time

-- The first half of `Run`, up to the queue.
unfoldable pub sync_bear :
    (ℕ → String)
    → Rendering
    → Run
    → BearReads
    → BearReads
    → ℕ
    → StateFile
    → Db
    → Db × (StateFile × SyncEnd)
unfolding initial_sync delta_sync
sync_bear random_id r run reads reads' mod_time no_file db =
    let (db', (st, end)) = initial_sync random_id r run reads mod_time db in
    (db', (file_of st, end))
sync_bear random_id r run reads reads' mod_time unreadable db = (db, (unreadable, sync_failed))
sync_bear random_id r run reads reads' mod_time (saved st) db =
    let changed =
      delta_sync random_id r run reads reads' st (record st { last_db_mod_time_nano = mod_time })
        db in
    if not (nat_eq mod_time 0) && nat_eq mod_time st.last_db_mod_time_nano
    then (db, (saved st, synced))
    else (changed.0, (saved changed.1.0, changed.1.1))

-- The end of a cycle: an error of the first half, or what became of the queue.
pub data RunEnd : Type 0 where
  sync_error : RunEnd
  queue_end : CycleEnd → RunEnd

-- The hub's clock at the lease and at the acks, and what becomes of the two requests.
pub record QueueCalls : Type 0 where
  pub lease_at : ℕ
  pub leasing : Delivery
  pub ack_at : ℕ
  pub acking : Delivery

unfoldable pub run_cycle :
    (B : Bear)
    → (ℕ → String)
    → Rendering
    → Run
    → QueueCalls
    → BearReads
    → BearReads
    → ℕ
    → StateFile
    → Db
    → B.State
    → B.State × (Db × (StateFile × RunEnd))
unfolding sync_bear process_queue
run_cycle B random_id r run calls reads reads' mod_time file db s =
    let (db', (file', end)) = sync_bear random_id r run reads reads' mod_time file db in
    elim end [
      | sync_failed ↦ (s, (db', (file', sync_error)))
      | synced ↦
          (let (s', (db'', q)) =
              process_queue B db' s calls.lease_at calls.leasing calls.ack_at calls.acking in
            (s', (db'', (file', queue_end q))))
    ]
