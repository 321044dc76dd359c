-- ===== src/XCallback/RealBear.antt =====
-- Bear as `processQueue` of cmd/bridge/queue.go meets it: its writes are those of
-- internal/xcallback/xcallback.go, and its reads those of internal/beardb/sqlite.go.
use bear_sync.Prelude.{ℕ, String, List}
use bear_sync.Mapper.Date.{CoreDate}
use bear_sync.Bridge.Bear.{Problem, Fallible, Failure, Bear}
use bear_sync.BearDb.Tables.{BearTables}
use bear_sync.BearDb.Lookups
use bear_sync.XCallback.Driver
use bear_sync.XCallback.Driver.{Machine}

-- What stands around the two: Bear's tables in a state of the machine, for each query of the file
-- or with its error, what happens in the sleeps, the hub's files, the moment from which on the
-- search by title looks, and the texts of errors and dates.
pub record Surroundings (M : Machine) : Type 0 where
  pub tables : String → M.World → Fallible BearTables
  pub sleep : M.World → M.World
  pub download : String → Fallible (List ℕ)
  pub created_after : M.World → CoreDate
  pub null_id : Problem
  pub describe : Failure → String
  pub rfc3339 : ℕ → String

abbrev pub real_bear : (M : Machine) → Surroundings M → String → Bear
real_bear M e token = record {
  State = M.World;
  note_by_uuid = λ s u. Lookups.note_by_uuid (e.tables "note" s) u;
  note_tag_titles = λ s u. Lookups.note_tag_titles (e.tables "tag titles" s) u;
  note_attachment_filenames = λ s u. Lookups.note_attachment_filenames (e.tables "files" s) u;
  find_recent_notes_by_title = λ s t.
      Lookups.find_recent_notes_by_title e.null_id (e.tables "recent" s) t (e.created_after s);
  create = Driver.create M token;
  update = Driver.update M token;
  add_tag = Driver.add_tag M token;
  trash = Driver.trash M token;
  archive = Driver.archive M token;
  add_file = Driver.add_file M token;
  rename_tag = Driver.rename_tag M token;
  delete_tag = Driver.delete_tag M token;
  sleep = e.sleep;
  download_attachment = e.download;
  describe = e.describe;
  rfc3339 = e.rfc3339;
}
