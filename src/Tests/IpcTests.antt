-- ===== src/Tests/IpcTests.antt =====
-- The log buffer at concrete inputs.
use bear_sync.Prelude.{String, List, [], ◌∷◌, ◌≡◌}
use bear_sync.Ipc.Stats.{LogEntry, get_logs, new_stats_tracker}
use bear_sync.Ipc.LogBuffer.{add_logs, get_logs-add_logs}

abbrev entry : String → LogEntry
entry msg = record { time = "t"; level = "info"; msg = msg }

abbrev three_entries : List LogEntry
three_entries = entry "a" ∷ entry "b" ∷ entry "c" ∷ []

get_logs-add_logs_example :
    get_logs 5 (add_logs three_entries (new_stats_tracker 2)) ≡ entry "b" ∷ entry "c" ∷ []
unfolding new_stats_tracker
get_logs-add_logs_example = get_logs-add_logs 2 5 three_entries
