-- ===== src/Api/SyncHandlers.antt =====
-- `syncPush`, `syncQueue`, `syncAck` and `syncStatus` of internal/api/sync_handler.go with the
-- functions of internal/store/sqlite.go that they read and keep `sync_meta` with. A handler returns
-- the ids whose directories it removes from the disk; a failure to remove one is logged only.
use bear_sync.Prelude.{
  ℕ, String, ◌&&◌, Option, none, some, List, [], ◌∷◌, ◌++◌, ◌==◌, nat_eq, ltb, map, lookup, put,
  select, select_all, count_where, err, ok, if◌then◌else◌,
}
use bear_sync.Models.Note.{Note}
use bear_sync.Models.Attachment.{Attachment}
use bear_sync.Models.WriteQueue.{WriteQueueItem, LeasedItem, is_add_file, is_ended_applied}
use bear_sync.Models.Sync.{SyncPushRequest, SyncAckItem}
use bear_sync.Store.Db.{Db}
use bear_sync.Store.Ack.{is_conflict, is_applied, ack_queue_items}
use bear_sync.Store.Queue.Lease.{lease_queue_items}
use bear_sync.Store.Push.{process_sync_push}
use bear_sync.Store.Push.Attachments.{attachment_by_bear_id}
use bear_sync.Store.Queue.Enqueue.{get_queue_item, pending_queue_count}
use bear_sync.Bridge.Payload.{string_field}

-- `GetSyncMeta` and `SetSyncMeta`
unfoldable pub get_sync_meta : Db → String → String
get_sync_meta db k = elim (lookup k db.sync_meta) [ none ↦ "" | some v ↦ v ]

unfoldable pub set_sync_meta : Db → String → String → Db
set_sync_meta db k v = record db { sync_meta = put k v db.sync_meta }

unfoldable pub get_attachment_by_bear_id : Db → String → Option Attachment
get_attachment_by_bear_id db b = select (attachment_by_bear_id b) db.attachments

unfoldable pub count_conflicts : Db → ℕ
count_conflicts db = count_where (λ n. is_conflict n.sync_status) db.notes

-- The answers of the sync handlers: an error, or 200 with a body.
pub data SyncReply {ℓ} (A : Type ℓ) : Type ℓ where
  refused : ℕ → String → SyncReply A
  replies : A → SyncReply A

pub data Accepted : Type 0 where
  accepted : Accepted

-- The attachments of `deleted_attachment_ids`.
unfoldable pub deleted_ids : Db → List String → List String
unfolding get_attachment_by_bear_id
deleted_ids db [] = []
deleted_ids db (b ∷ bs) =
    let rest = deleted_ids db bs in
    elim (get_attachment_by_bear_id db b) [ none ↦ rest | some a ↦ a.id ∷ rest ]

-- The attachments that are pushed with permanently_deleted = 1.
unfoldable pub purged_ids : Db → List Attachment → List String
unfolding get_attachment_by_bear_id
purged_ids db [] = []
purged_ids db (a ∷ pushed) =
    let rest = purged_ids db pushed in
    if nat_eq a.permanently_deleted 1
    then elim a.bear_id [
      | none ↦ rest
      | some b ↦
          if b == ""
          then rest
          else elim (get_attachment_by_bear_id db b) [ none ↦ rest | some x ↦ x.id ∷ rest ]
    ]
    else rest

unfoldable pub collect_attachment_cleanup_ids : Db → SyncPushRequest → List String
unfolding deleted_ids purged_ids
collect_attachment_cleanup_ids db req =
    deleted_ids db req.deleted_attachment_ids ++ purged_ids db req.attachments

-- The loop over `req.Meta`, whose keys differ, in some order.
unfoldable pub set_meta : Db → List (String × String) → Db
unfolding set_sync_meta
set_meta db [] = db
set_meta db ((k, v) ∷ meta) =
    if k == "last_push_at" then set_meta db meta else set_meta (set_sync_meta db k v) meta

-- `req` is `none` where the request's JSON cannot be read.
unfoldable pub sync_push :
    (ℕ → String) → Db → String → Option SyncPushRequest → Db × SyncReply Accepted × List String
unfolding process_sync_push set_meta collect_attachment_cleanup_ids
sync_push random_id db now none = (db, refused 400 "invalid request body", [])
sync_push random_id db now (some req) = elim (process_sync_push random_id db req) [
  | err e ↦ (db, refused 500 "failed to process sync push", [])
  | ok db' ↦ (
    set_meta (set_sync_meta db' "last_push_at" now) req.meta,
    replies accepted,
    collect_attachment_cleanup_ids db req,
  )
]

-- Five minutes.
abbrev pub lease_seconds : ℕ
lease_seconds = 300

unfoldable pub sync_queue : Db → ℕ → String → Db × List LeasedItem
unfolding lease_queue_items
sync_queue db now processing_by =
    let by = if processing_by == "" then "bridge" else processing_by in
    let (q, items) = lease_queue_items db.notes db.queue by now lease_seconds in
    (record db { queue = q }, items)

-- The blob of an item that is an applied `add_file`.
abbrev pub blob_of : WriteQueueItem → Option String
blob_of i =
    if is_add_file i.action && is_ended_applied i.status
    then elim (string_field "attachment_id" i.payload) [
      | none ↦ none
      | some k ↦ if k == "" then none else some k
    ]
    else none

unfoldable pub collect_add_file_cleanup_ids : Db → List SyncAckItem → List String
unfolding get_queue_item string_field
collect_add_file_cleanup_ids db [] = []
collect_add_file_cleanup_ids db (a ∷ acks) =
    let rest = collect_add_file_cleanup_ids db acks in
    if is_applied a.status
    then elim (get_queue_item db.queue a.queue_id) [
      | none ↦ rest
      | some i ↦ elim (blob_of i) [ none ↦ rest | some k ↦ k ∷ rest ]
    ]
    else rest

unfoldable pub sync_ack : Db → ℕ → Option (List SyncAckItem) → Db × SyncReply Accepted × List String
unfolding ack_queue_items collect_add_file_cleanup_ids
sync_ack db now none = (db, refused 400 "invalid request body", [])
sync_ack db now (some items) = elim (ack_queue_items now db items) [
  | err e ↦ (db, refused 500 "failed to ack queue items", [])
  | ok db' ↦ (db', replies accepted, collect_add_file_cleanup_ids db' items)
]

pub record SyncStatusResponse : Type 0 where
  pub last_sync_at : String
  pub last_push_at : String
  pub queue_size : ℕ
  pub initial_sync_complete : String
  pub conflict_count : ℕ
  pub conflict_note_ids : List String

-- `ListConflictNoteIDs`, where `by_modified_at` is SQLite's ORDER BY modified_at DESC.
unfoldable pub list_conflict_note_ids : (List Note → List Note) → Db → List String
list_conflict_note_ids by_modified_at db =
    map (λ n. n.id) (by_modified_at (select_all (λ n. is_conflict n.sync_status) db.notes))

unfoldable pub sync_status : (List Note → List Note) → Db → SyncStatusResponse
unfolding get_sync_meta pending_queue_count count_conflicts list_conflict_note_ids
sync_status by_modified_at db = record {
  last_sync_at = get_sync_meta db "last_sync_at";
  last_push_at = get_sync_meta db "last_push_at";
  queue_size = pending_queue_count db.queue;
  initial_sync_complete = get_sync_meta db "initial_sync_complete";
  conflict_count = count_conflicts db;
  conflict_note_ids =
      if ltb 0 (count_conflicts db) then list_conflict_note_ids by_modified_at db else [];
}
