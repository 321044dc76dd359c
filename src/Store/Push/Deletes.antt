-- ===== src/Store/Push/Deletes.antt =====
-- `failQueueItemsForDeletedNotes` and `deleteByBearIDs` of internal/store/sqlite.go, with the
-- cascades that the schema declares.
use bear_sync.Prelude.{String, Bool, ◌&&◌, Option, List, ◌==◌, matches, update, delete, any, ◌||◌}
use bear_sync.Models.Note.{Note}
use bear_sync.Models.Tag.{Tag}
use bear_sync.Models.WriteQueue.{is_live}
use bear_sync.Store.Db.{Db}
use bear_sync.Store.Ack.{with_rows, set_failed}

-- bear_id IN (…)
abbrev pub in_list : Option String → List String → Bool
in_list b ids = any (matches b) ids

abbrev pub note_deleted : List String → Note → Bool
note_deleted ids n = in_list n.bear_id ids

-- note_id IN (SELECT id FROM notes WHERE bear_id IN (…))
abbrev pub refers_to : (Note → Bool) → List Note → String → Bool
refers_to gone notes k = any (λ n. gone n && n.id == k) notes

unfoldable pub fail_queue_items_for_deleted_notes : List String → Db → Db
fail_queue_items_for_deleted_notes ids db = with_rows db (
    update (λ i. is_live i.status && refers_to (note_deleted ids) db.notes i.note_id)
      (set_failed "note deleted from Bear") db.queue.rows)

-- DELETE FROM notes, ON DELETE CASCADE in the tables that refer to a note.
unfoldable pub remove_notes : (Note → Bool) → Db → Db
remove_notes gone db =
    let dead = refers_to gone db.notes in
    record db {
      notes = delete gone db.notes;
      note_tags = delete (λ p. dead p.note_id) db.note_tags;
      pinned_note_tags = delete (λ p. dead p.note_id) db.pinned_note_tags;
      attachments = delete (λ a. dead a.note_id) db.attachments;
      backlinks = delete (λ b. dead b.linked_by_id || dead b.linking_to_id) db.backlinks;
    }

unfoldable pub delete_notes : List String → Db → Db
unfolding remove_notes
delete_notes ids = remove_notes (note_deleted ids)

abbrev pub tag_deleted : List String → Tag → Bool
tag_deleted ids t = in_list t.bear_id ids

unfoldable pub delete_tags : List String → Db → Db
delete_tags ids db =
    let dead = λ (k : String). any (λ t. tag_deleted ids t && t.id == k) db.tags in
    record db {
      tags = delete (tag_deleted ids) db.tags;
      note_tags = delete (λ p. dead p.tag_id) db.note_tags;
      pinned_note_tags = delete (λ p. dead p.tag_id) db.pinned_note_tags;
    }

unfoldable pub delete_attachments : List String → Db → Db
delete_attachments ids db = record db {
  attachments = delete (λ a. in_list a.bear_id ids) db.attachments;
}

unfoldable pub delete_backlinks : List String → Db → Db
delete_backlinks ids db = record db { backlinks = delete (λ b. in_list b.bear_id ids) db.backlinks }
