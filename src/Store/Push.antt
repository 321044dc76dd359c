-- ===== src/Store/Push.antt =====
-- `ProcessSyncPush` of internal/store/sqlite.go: one transaction over the whole request, in the
-- order of the source. An error rolls everything back. `Notes`, `Tags`, `Attachments` and
-- `Backlinks` have the upserts, `NoteTags` the junction tables, `Deletes` the deletions.
-- `random_id` stands for `generateID`: its value at `n` is the n-th id that is drawn.
pub mod Notes
pub mod Tags
pub mod Attachments
pub mod Backlinks
pub mod NoteTags
pub mod HubIds
pub mod Replaced
pub mod Tagged
pub mod Deletes
pub mod Conflict
pub mod Kept
pub mod Upserted
pub mod Frame
pub mod Whole
pub mod Removed
pub mod QueueLaws
use bear_sync.Prelude.{ℕ, String, List, [], ◌∷◌, Result, ok, ◌>>=◌}
use bear_sync.Models.Note.{Note}
use bear_sync.Models.Sync.{SyncPushRequest, NoteTagPair}
use bear_sync.Store.Db.{Db}
use Notes.{upsert_note}
use Tags.{upsert_tag}
use Attachments.{upsert_attachment}
use Backlinks.{upsert_backlink}
use NoteTags.{replace_note_tags}
use Deletes.{
  fail_queue_items_for_deleted_notes, delete_notes, delete_tags, delete_attachments,
  delete_backlinks,
}

-- A loop over the entities of one kind.
unfoldable pub for_each {ℓ} : {A : Type ℓ} → (Db → A → Result Db) → Db → List A → Result Db
for_each step db [] = ok db
for_each step db (x ∷ xs) = do db' ← step db x; for_each step db' xs

-- The loop over the notes, which writes the id of an updated or inserted row into the request.
unfoldable pub upsert_notes : (ℕ → String) → Db → List Note → Result (Db × List Note)
unfolding upsert_note
upsert_notes random_id db [] = ok (db, [])
upsert_notes random_id db (n ∷ ns) = do
  (db', n') ← upsert_note random_id db n
  (db'', ns') ← upsert_notes random_id db' ns
  ok (db'', n' ∷ ns')

-- What follows the upserts, which cannot fail.
unfoldable pub apply_deletes : SyncPushRequest → Db → Db
unfolding fail_queue_items_for_deleted_notes delete_notes delete_tags delete_attachments
    delete_backlinks
apply_deletes req db = delete_backlinks req.deleted_backlink_ids (
    delete_attachments req.deleted_attachment_ids (
      delete_tags req.deleted_tag_ids (
        delete_notes req.deleted_note_ids
          (fail_queue_items_for_deleted_notes req.deleted_note_ids db))))

unfoldable pub process_sync_push : (ℕ → String) → Db → SyncPushRequest → Result Db
unfolding for_each upsert_notes apply_deletes upsert_tag upsert_attachment upsert_backlink
    replace_note_tags
process_sync_push random_id db req = do
  (db₁, notes) ← upsert_notes random_id db req.notes
  db₂ ← for_each (upsert_tag random_id) db₁ req.tags
  note_tags ← replace_note_tags db₂ db₂.note_tags notes req.note_tags
  let db₃ = record db₂ { note_tags = note_tags }
  pinned ← replace_note_tags db₃ db₃.pinned_note_tags notes req.pinned_note_tags
  let db₄ = record db₃ { pinned_note_tags = pinned }
  db₅ ← for_each (upsert_attachment random_id) db₄ req.attachments
  db₆ ← for_each (upsert_backlink random_id) db₅ req.backlinks
  ok (apply_deletes req db₆)
