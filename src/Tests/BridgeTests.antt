-- ===== src/Tests/BridgeTests.antt =====
-- The bridge's queue at concrete inputs.
use bear_sync.Prelude.{String, some, List, [], ◌∷◌, ◌≡◌, refl, All, length}
use bear_sync.Models.Note.{synced, conflict}
use bear_sync.Models.WriteQueue.{
  WriteQueueItem, LeasedItem, update, add_file, pending, processing, is_live, object, text,
}
use bear_sync.Models.Sync.{AckStatus, SyncPushRequest}
use bear_sync.Store.Db.{Db}
use bear_sync.Store.Ack.Ended.{IsNot}
use bear_sync.Api.SyncHandlers.{sync_queue, sync_ack, sync_push, get_sync_meta}
use bear_sync.Api.Meta.{meta_after, sync_push-meta_after}
use bear_sync.Api.Cleanup.{IsSpent, sync_ack-IsSpent}
use bear_sync.Bridge.Bear.{Fallible, gives, Done, NoteBasicInfo}
use bear_sync.Bridge.Queue.{new_ack, apply_action, process_items}
use bear_sync.Bridge.Answers.{AreAnswers, process_items-AreAnswers}
use bear_sync.Bridge.Again.{apply_action_again}
use bear_sync.Bridge.Limits.{otherwise, apply_action_within}
use bear_sync.Bridge.Copies.{process_items_keeps}
use bear_sync.Bridge.Cycle.{answered, process_queue}
use bear_sync.Bridge.Progress.{process_queue-IsNot}
use bear_sync.Bridge.Ends.{IsOver, process_queue-IsOver}
use bear_sync.Tests.Data.{note_of, item_of, held, three_items, db_of}
use bear_sync.Tests.PushTests.{push, two_notes, no_ids}
use bear_sync.Tests.MemoryBear.{Notes, memory_bear, memory-IsLawful, memory-CreateKeeps}

abbrev bear_note : String → String → NoteBasicInfo
bear_note u body = record {
  uuid = u;
  title = "Title";
  body = body;
  modified_at = record { seconds = 5; nanos = 0 };
  trashed = 0;
  archived = 0;
}

abbrev two_in_bear : Notes
two_in_bear = bear_note "n1" "old" ∷ bear_note "n2" "text" ∷ []

-- The lease of the item 2 has run out at 100: the items 1 and 2 are handed out.
abbrev hub : Db
hub =
    db_of
      (note_of "n1" (some "B1") "Title" "old" synced
        ∷ note_of "n2" (some "B2") "Title" "text" synced
        ∷ [])
      three_items

abbrev handed_out : List LeasedItem
unfolding sync_queue
handed_out = (sync_queue hub 100 "bridge").1

process_items-AreAnswers_example :
    AreAnswers handed_out (process_items memory_bear two_in_bear handed_out).1
process_items-AreAnswers_example = process_items-AreAnswers memory_bear two_in_bear handed_out

process_queue-IsNot_example :
    All
      (λ i.
        IsNot is_live i.id
          (process_queue memory_bear hub two_in_bear 100 answered 200 answered).1.0.queue.rows)
      (sync_queue hub 100 "bridge").1
    × (2 ≡ length (sync_queue hub 100 "bridge").1)
unfolding process_queue
process_queue-IsNot_example =
    process_queue-IsNot memory_bear hub two_in_bear 100 200 answered answered refl

process_queue-IsOver_example :
    IsOver
      (sync_queue hub 100 "bridge").1
      (process_queue memory_bear hub two_in_bear 100 answered 200 answered).1
unfolding process_queue
process_queue-IsOver_example =
    process_queue-IsOver memory_bear hub two_in_bear 100 200 (refl, (refl, tt))

-- The update of n1 has reached Bear.
abbrev updated : Notes
updated = bear_note "n1" "b" ∷ bear_note "n2" "text" ∷ []

apply_action_again_example :
    ((apply_action memory_bear updated (item_of 1 "k1" update "n1" processing) update).0 ≡ updated)
    × ((apply_action memory_bear updated (item_of 1 "k1" update "n1" processing) update).1.status
        ≡ AckStatus.applied)
unfolding apply_action
apply_action_again_example =
    apply_action_again memory_bear memory-IsLawful two_in_bear
      (item_of 1 "k1" update "n1" processing) update refl refl refl

abbrev conflicting : LeasedItem
conflicting = record {
  item = item_of 1 "k1" update "n1" processing;
  note_sync_status = some conflict;
}

process_items_keeps_example :
    memory_bear.note_by_uuid (process_items memory_bear two_in_bear (conflicting ∷ [])).0 "n1"
    ≡ gives (some (bear_note "n1" "old"))
process_items_keeps_example =
    process_items_keeps memory_bear memory-CreateKeeps "n1" (bear_note "n1" "old") two_in_bear
      (conflicting ∷ []) (refl, tt) refl

-- A push with metadata of its own, which tries to set the protected key.
abbrev tagged : SyncPushRequest
tagged = record push { meta = ("last_push_at", "never") ∷ ("last_sync_at", "t8") ∷ [] }

sync_push-meta_after_example :
    get_sync_meta (sync_push no_ids two_notes "t9" (some tagged)).0 "last_sync_at"
    ≡ meta_after two_notes "t9" tagged.meta "last_sync_at"
unfolding sync_push
sync_push-meta_after_example = sync_push-meta_after no_ids two_notes "t9" tagged "last_sync_at" refl

-- An upload that the bridge holds.
abbrev upload : WriteQueueItem
upload = record (held 50 (item_of 1 "k1" add_file "n1" pending)) {
  payload = object (("attachment_id", text "blob1") ∷ ("filename", text "a.png") ∷ []);
}

abbrev uploading : Db
uploading = db_of [] (record { rows = upload ∷ []; next_id = 2 })

sync_ack-IsSpent_example :
    All
      (IsSpent (sync_ack uploading 40 (some (new_ack upload AckStatus.applied ∷ []))).0)
      ("blob1" ∷ [])
unfolding sync_ack
sync_ack-IsSpent_example =
    sync_ack-IsSpent uploading 40 (new_ack upload AckStatus.applied ∷ []) refl

-- A Bear that breaks when it is sent a large body.
abbrev broken_create : Notes → String → String → List String → Notes × Fallible String
broken_create s title body tags = ([], gives "")

abbrev broken_update : Notes → String → String → Notes × Fallible Done
broken_update s u body = ([], gives Done.done)

apply_action_within_example :
    apply_action
      (otherwise memory_bear broken_create broken_update)
      two_in_bear
      (item_of 1 "k1" update "n1" processing)
      update
    ≡ apply_action memory_bear two_in_bear (item_of 1 "k1" update "n1" processing) update
apply_action_within_example =
    apply_action_within memory_bear broken_create broken_update two_in_bear
      (item_of 1 "k1" update "n1" processing) update
