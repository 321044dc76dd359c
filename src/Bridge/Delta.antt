-- ===== src/Bridge/Delta.antt =====
-- `deltaSync` of cmd/bridge/sync.go with `buildDeltaPush`, `junctionFullScan`,
-- `readNewAttachments`, `detectDeletions` and `updateKnownIDs`. The upload of attachment files,
-- whose errors are only logged, is left out, as are the log and the events.
use Prim.Native.Nat.{◌%◌}
use bear_sync.Prelude.{
  ℕ, suc, ◌+◌, String, Bool, true, false, not, ◌&&◌, some, List, [], ◌∷◌, ◌++◌, ltb, nat_eq,
  select_all, length, if◌then◌else◌,
}
use bear_sync.Models.Sync.{NoteTagPair, SyncPushRequest}
use bear_sync.Store.Db.{Db}
use bear_sync.Api.SyncHandlers.{SyncReply, Accepted, refused, replies, sync_push}
use bear_sync.Mapper.BearRows.{BearNoteRow, BearAttachmentRow}
use bear_sync.Bridge.Bear.{Fallible, fails, gives}
use bear_sync.Bridge.Junction.{
  BearPair, member, convert_note_tags, convert_to_id_pairs, merge_note_tags, diff_ids,
  extract_uuids, find_changed_junction_notes, snapshots, is_empty, is_empty_push,
}
use bear_sync.Bridge.Cycle.{Delivery, answered, unanswered, lost}
use bear_sync.Bridge.Reads.{
  BearReads, BridgeState, Rendering, map_notes, map_tags, map_attachments, map_backlinks, ◌>>=◌,
}

abbrev pub junction_full_scan_interval : ℕ
junction_full_scan_interval = 12

-- What the full scan returns beside the state that it updates.
pub record Scanned : Type 0 where
  pub state : BridgeState
  pub note_tags : List NoteTagPair
  pub pinned_tags : List NoteTagPair

unfoldable pub junction_full_scan : BearReads → BridgeState → Fallible Scanned
unfolding convert_to_id_pairs find_changed_junction_notes snapshots
junction_full_scan reads st = do
  note_tags ← reads.note_tags
  pinned ← reads.pinned_note_tags
  let changed = find_changed_junction_notes st.known_note_tag_pairs (convert_to_id_pairs note_tags)
  let changed_pinned =
      find_changed_junction_notes st.known_pinned_note_tag_pairs (convert_to_id_pairs pinned)
  gives (record {
    state = record st {
      known_note_tag_pairs = convert_to_id_pairs note_tags;
      known_pinned_note_tag_pairs = convert_to_id_pairs pinned;
    };
    note_tags = snapshots note_tags changed;
    pinned_tags = snapshots pinned changed_pinned;
  })

unfoldable pub detect_deletions : List String → Fallible (List String) → Fallible (List String)
unfolding diff_ids
detect_deletions known current = do ids ← current; gives (diff_ids known ids)

unfoldable pub read_new_attachments :
    BearReads
    → List String
    → List BearAttachmentRow
    → Fallible (List BearAttachmentRow × List String)
read_new_attachments reads known already_read = do
  current ← reads.all_attachment_uuids
  let read = extract_uuids (λ (a : BearAttachmentRow). a.zuniqueidentifier) already_read
  let fresh = select_all (λ k. not (member k known) && not (member k read)) current
  if is_empty fresh
      then gives ([], current)
      else do rows ← reads.attachments_by_uuids fresh; gives (rows, current)

-- The junction rows of the changed notes, read if there are any.
unfoldable pub pairs_of :
    (List String → Fallible (List BearPair)) → List BearNoteRow → Fallible (List NoteTagPair)
unfolding convert_note_tags
pairs_of query [] = gives []
pairs_of query (r ∷ rows) = do
  pairs ← query (extract_uuids (λ (n : BearNoteRow). n.zuniqueidentifier) (r ∷ rows))
  gives (convert_note_tags pairs)

abbrev pub is_scan_due : BridgeState → Bool
is_scan_due st =
    ltb 0 st.junction_full_scan_counter
    && nat_eq (st.junction_full_scan_counter % junction_full_scan_interval) 0

-- The full scan if it is due; nothing is found otherwise.
unfoldable pub scan_if_due : BearReads → BridgeState → Fallible Scanned
unfolding junction_full_scan
scan_if_due reads st =
    if is_scan_due st
    then junction_full_scan reads st
    else gives (record { state = st; note_tags = []; pinned_tags = [] })

-- The request, and the state that the full scan may have updated.
unfoldable pub build_delta_push :
    Rendering → BearReads → BridgeState → Fallible (BridgeState × SyncPushRequest)
unfolding read_new_attachments pairs_of map_notes map_tags map_attachments map_backlinks scan_if_due
    merge_note_tags detect_deletions diff_ids
build_delta_push r reads st = do
  note_rows ← reads.notes st.last_sync_at
  tag_rows ← reads.tags st.last_sync_at
  changed_rows ← reads.attachments st.last_sync_at
  (new_rows, current_attachments) ← read_new_attachments reads st.known_attachment_ids changed_rows
  let attachment_rows = changed_rows ++ new_rows
  backlink_rows ← reads.backlinks st.last_sync_at
  let drawn_tags = length note_rows
  let drawn_attachments = drawn_tags + length tag_rows
  let drawn_backlinks = drawn_attachments + length attachment_rows
  note_tags ← pairs_of reads.note_tags_for_notes note_rows
  pinned ← pairs_of reads.pinned_note_tags_for_notes note_rows
  scanned ← scan_if_due reads st
  deleted_notes ← detect_deletions st.known_note_ids reads.all_note_uuids
  deleted_tags ← detect_deletions st.known_tag_ids reads.all_tag_uuids
  deleted_backlinks ← detect_deletions st.known_backlink_ids reads.all_backlink_uuids
  gives (
    scanned.state,
    record {
      notes = map_notes r 0 note_rows;
      tags = map_tags r drawn_tags tag_rows;
      note_tags = merge_note_tags note_tags scanned.note_tags;
      pinned_note_tags = merge_note_tags pinned scanned.pinned_tags;
      attachments = map_attachments r drawn_attachments attachment_rows;
      backlinks = map_backlinks r drawn_backlinks backlink_rows;
      deleted_note_ids = deleted_notes;
      deleted_tag_ids = deleted_tags;
      deleted_attachment_ids = diff_ids st.known_attachment_ids current_attachments;
      deleted_backlink_ids = deleted_backlinks;
      meta = [];
    },
  )

unfoldable pub update_known_ids : BearReads → BridgeState → Fallible BridgeState
unfolding convert_to_id_pairs
update_known_ids reads st = do
  note_ids ← reads.all_note_uuids
  tag_ids ← reads.all_tag_uuids
  attachment_ids ← reads.all_attachment_uuids
  backlink_ids ← reads.all_backlink_uuids
  note_tags ← reads.note_tags
  pinned ← reads.pinned_note_tags
  gives (record st {
    known_note_ids = note_ids;
    known_tag_ids = tag_ids;
    known_attachment_ids = attachment_ids;
    known_backlink_ids = backlink_ids;
    known_note_tag_pairs = convert_to_id_pairs note_tags;
    known_pinned_note_tag_pairs = convert_to_id_pairs pinned;
  })

-- The circumstances of a run: the bridge's clock in seconds since 2001 and as a text, whether the
-- state file can be written, and for each push of the run, by its number, what becomes of it and
-- the hub's clock.
pub record Run : Type 0 where
  pub now : ℕ
  pub now_text : String
  pub saves : Bool
  pub delivery : ℕ → Delivery
  pub hub_now : ℕ → String

pub data SyncEnd : Type 0 where
  synced sync_failed : SyncEnd

-- `hub.SyncPush` as the n-th push of a run: the hub's database, and whether the bridge sees a
-- success.
abbrev pub accepted_push : Db × SyncReply Accepted × List String → Db × Bool
accepted_push (db, refused code msg, ids) = (db, false)
accepted_push (db, replies a, ids) = (db, true)

unfoldable pub send_push : (ℕ → String) → Run → ℕ → Db → SyncPushRequest → Db × Bool
unfolding sync_push
send_push random_id run n db req =
    let served = sync_push random_id db (run.hub_now n) (some req) in
    elim (run.delivery n) [
      | lost ↦ (db, false)
      | unanswered ↦ (served.0, false)
      | answered ↦ accepted_push served
    ]

-- `saveState`: the state file afterwards, and the end of the run.
abbrev pub save_state : Run → BridgeState → BridgeState → BridgeState × SyncEnd
save_state run disk st = if run.saves then (st, synced) else (disk, sync_failed)

abbrev pub counted : BridgeState → BridgeState
counted st = record st { junction_full_scan_counter = suc st.junction_full_scan_counter }

-- From the push on, on what it returned.
unfoldable pub after_push :
    Run → BearReads → BridgeState → BridgeState → Bool → BridgeState × SyncEnd
unfolding update_known_ids
after_push run reads disk st false = (disk, sync_failed)
after_push run reads disk st true =
    elim (update_known_ids reads (counted (record st { last_sync_at = run.now }))) [
      | fails e ↦ (disk, sync_failed)
      | gives known ↦ save_state run disk known
    ]

-- `disk` is the state file, `st` the state that was loaded from it. Bear is read for the request,
-- `reads`, and again once the hub has answered, `reads'`.
unfoldable pub delta_sync :
    (ℕ → String)
    → Rendering
    → Run
    → BearReads
    → BearReads
    → BridgeState
    → BridgeState
    → Db
    → Db × (BridgeState × SyncEnd)
unfolding build_delta_push send_push after_push is_empty_push
delta_sync random_id r run reads reads' disk st db = elim (build_delta_push r reads st) [
  | fails e ↦ (db, (disk, sync_failed))
  | gives (scanned, req) ↦
      if is_empty_push req
      then (db, save_state run disk (counted scanned))
      else (let (db', ok) =
            send_push random_id run 0 db
              (record req { meta = ("last_sync_at", run.now_text) ∷ [] }) in
          (db', after_push run reads' disk scanned ok))
]
