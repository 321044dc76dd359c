-- ===== src/Store/Db.antt =====
-- The tables of internal/store/sqlite.go (`migrate`). A table is the list of its rows in the order
-- of insertion, which is the order of the keys where SQLite assigns them. `next_id` is the next
-- AUTOINCREMENT key of `write_queue`; `drawn` counts the ids that `generateID` has drawn.
use bear_sync.Prelude.{ℕ, String, Bool, List, ◌==◌, nat_eq, matches, ◌||◌}
use bear_sync.Models.Note.{Note}
use bear_sync.Models.Tag.{Tag}
use bear_sync.Models.Attachment.{Attachment}
use bear_sync.Models.Backlink.{Backlink}
use bear_sync.Models.WriteQueue.{WriteQueueItem}
use bear_sync.Models.Sync.{NoteTagPair}

pub record QueueTable : Type 0 where
  pub rows : List WriteQueueItem
  pub next_id : ℕ

pub record Db : Type 0 where
  pub notes : List Note
  pub tags : List Tag
  pub note_tags : List NoteTagPair
  pub pinned_note_tags : List NoteTagPair
  pub attachments : List Attachment
  pub backlinks : List Backlink
  pub queue : QueueTable
  pub sync_meta : List (String × String)
  pub drawn : ℕ

-- The conditions of the WHERE clauses.
abbrev pub by_id : ℕ → WriteQueueItem → Bool
by_id k i = nat_eq i.id k

abbrev pub note_by_id : String → Note → Bool
note_by_id k n = n.id == k

abbrev pub note_by_bear_id : String → Note → Bool
note_by_bear_id k n = matches n.bear_id k

-- bear_id = ? OR id = ?
abbrev pub note_by_either : String → Note → Bool
note_by_either k n = matches n.bear_id k || n.id == k
