-- ===== src/Bridge/Queue.antt =====
-- `processQueue`, `applyQueueItem`, `handleConflictItem` and `extractConflictContent` of
-- cmd/bridge/queue.go. The events, the log and the tracker are left out, as are the calls of the
-- hub around the loop.
use Prim.Native.String.{◌++◌ as ◌<>◌}
use bear_sync.Prelude.{
  String, Bool, true, false, not, ◌&&◌, none, some, List, [], ◌∷◌, ◌==◌, if◌then◌else◌,
}
use bear_sync.Models.WriteQueue.{
  WriteQueueItem, LeasedItem, Action, create, update, add_tag, trash, add_file, archive, rename_tag,
  delete_tag, other,
}
use bear_sync.Models.Sync.{SyncAckItem, AckStatus}
use bear_sync.Store.Ack.{is_conflict}
use bear_sync.Bridge.Bear.{Fallible, fails, gives, Done, Failure, call_failed, unknown_action, Bear}
use bear_sync.Bridge.Payload.{any_string}
use bear_sync.Bridge.Actions.{
  Applied, refuses, applies, Created, apply_create, apply_update, apply_trash, apply_archive,
  note_or_nil,
}
use bear_sync.Bridge.TagActions.{apply_add_tag, apply_add_file, apply_rename_tag, apply_delete_tag}

-- The ack that `applyQueueItem` begins with.
abbrev pub new_ack : WriteQueueItem → AckStatus → SyncAckItem
new_ack item status = record {
  queue_id = item.id;
  idempotency_key = item.idempotency_key;
  status = status;
  bear_id = "";
  bear_modified_at = "";
  error = "";
  conflict_resolved = false;
}

abbrev pub has_conflict : LeasedItem → Bool
has_conflict item =
    not (item.note_id == "") && elim item.note_sync_status [ none ↦ false | some s ↦ is_conflict s ]

pub record ConflictContent : Type 0 where
  pub title : String
  pub body : String
  pub tags : List String

module _ (B : Bear) where
  abbrev pub failed_ack : WriteQueueItem → Failure → SyncAckItem
  failed_ack item f = record (new_ack item AckStatus.failed) { error = B.describe f }

  -- The title of the note in Bear, where the payload has none.
  abbrev pub title_in_bear : B.State → String → String
  title_in_bear s bear_id =
      if bear_id == ""
      then ""
      else elim (note_or_nil B (B.note_by_uuid s bear_id)) [ none ↦ "" | some n ↦ n.title ]

  -- The tags of the note in Bear; an error leaves nil.
  abbrev pub tags_in_bear : B.State → String → List String
  tags_in_bear s bear_id =
      if bear_id == ""
      then []
      else elim (B.note_tag_titles s bear_id) [ fails e ↦ [] | gives tags ↦ tags ]

  unfoldable pub extract_conflict_content : B.State → WriteQueueItem → ConflictContent
  unfolding any_string
  extract_conflict_content s item =
      let title = any_string "title" item.payload in
      let bear_id = any_string "bear_id" item.payload in
      record {
        title = if title == "" then title_in_bear s bear_id else title;
        body = any_string "body" item.payload;
        tags = tags_in_bear s bear_id;
      }

  abbrev pub conflict_title : String → String
  conflict_title title = "[Conflict] " <> (if title == "" then "Untitled" else title)

  unfoldable pub ack_copied : WriteQueueItem → B.State × Fallible String → B.State × SyncAckItem
  ack_copied item (s, fails e) = (s, failed_ack item (call_failed "create conflict note" e))
  ack_copied item (s, gives bear_id) =
      (s, record (new_ack item AckStatus.applied) { conflict_resolved = true })

  unfoldable pub handle_conflict_item : B.State → WriteQueueItem → B.State × SyncAckItem
  unfolding extract_conflict_content ack_copied
  handle_conflict_item s item =
      let c = extract_conflict_content s item in
      ack_copied item (B.create s (conflict_title c.title) c.body c.tags)

  -- The ends of `applyQueueItem`: an error, or the fields that the action returned.
  unfoldable pub ack_created : WriteQueueItem → B.State × Applied Created → B.State × SyncAckItem
  ack_created item (s, refuses f) = (s, failed_ack item f)
  ack_created item (s, applies c) = (
    s,
    record (new_ack item AckStatus.applied) {
      bear_id = c.bear_id;
      bear_modified_at = c.bear_modified_at;
    },
  )

  unfoldable pub ack_updated : WriteQueueItem → B.State × Applied String → B.State × SyncAckItem
  ack_updated item (s, refuses f) = (s, failed_ack item f)
  ack_updated item (s, applies t) =
      (s, record (new_ack item AckStatus.applied) { bear_modified_at = t })

  unfoldable pub ack_done : WriteQueueItem → B.State × Applied Done → B.State × SyncAckItem
  ack_done item (s, refuses f) = (s, failed_ack item f)
  ack_done item (s, applies d) = (s, new_ack item AckStatus.applied)

  unfoldable pub apply_action : B.State → WriteQueueItem → Action → B.State × SyncAckItem
  unfolding ack_created ack_updated ack_done apply_create apply_update apply_add_tag apply_trash
      apply_add_file apply_archive apply_rename_tag apply_delete_tag
  apply_action s item create = ack_created item (apply_create B s item)
  apply_action s item update = ack_updated item (apply_update B s item)
  apply_action s item add_tag = ack_done item (apply_add_tag B s item)
  apply_action s item trash = ack_done item (apply_trash B s item)
  apply_action s item add_file = ack_done item (apply_add_file B s item)
  apply_action s item archive = ack_done item (apply_archive B s item)
  apply_action s item rename_tag = ack_done item (apply_rename_tag B s item)
  apply_action s item delete_tag = ack_done item (apply_delete_tag B s item)
  apply_action s item (other a) = (s, failed_ack item (unknown_action a))

  unfoldable pub apply_queue_item : B.State → LeasedItem → B.State × SyncAckItem
  unfolding handle_conflict_item apply_action
  apply_queue_item s item =
      if has_conflict item
      then handle_conflict_item s item.item
      else apply_action s item.item item.action

  -- The loop of `processQueue`: the acks, in the order of the items.
  unfoldable pub process_items : B.State → List LeasedItem → B.State × List SyncAckItem
  unfolding apply_queue_item
  process_items s [] = (s, [])
  process_items s (i ∷ items) =
      let (s', ack) = apply_queue_item s i in
      let (s'', acks) = process_items s' items in (s'', ack ∷ acks)
