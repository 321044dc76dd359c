-- ===== src/Bridge/Initial.antt =====
-- `initialSync` of cmd/bridge/sync.go with `readAllBearData` and `pushNotesBatched`, and `Run`. The
-- upload of attachment files, the log, the events and the counters for them are left out.
use bear_sync.Prelude.{
  ℕ, zero, suc, ◌+◌, ◌-◌, String, Bool, true, false, not, Option, none, some, List, [], ◌∷◌, ltb,
  take, drop, length, if◌then◌else◌,
}
use bear_sync.Models.Sync.{SyncPushRequest}
use bear_sync.Store.Db.{Db}
use bear_sync.Mapper.BearRows.{BearNoteRow, BearTagRow, BearAttachmentRow, BearBacklinkRow}
use bear_sync.Bridge.Bear.{Fallible, fails, gives}
use bear_sync.Bridge.Junction.{BearPair, convert_note_tags, convert_to_id_pairs, extract_uuids}
use bear_sync.Bridge.Reads.{
  BearReads, BridgeState, Rendering, map_notes, map_tags, map_attachments, map_backlinks, ◌>>=◌,
}
use bear_sync.Bridge.Delta.{Run, SyncEnd, synced, sync_failed, send_push}

abbrev pub initial_sync_batch_size : ℕ
initial_sync_batch_size = 50

-- `rows[i:end]`
abbrev pub slice {ℓ} : {A : Type ℓ} → ℕ → ℕ → List A → List A
slice i end rows = take (end - i) (drop i rows)

abbrev pub batch_end : ℕ → ℕ → ℕ
batch_end i len = if ltb len (i + initial_sync_batch_size) then len else i + initial_sync_batch_size

-- The batches of the loop of `pushNotesBatched` from the index `i` on, on fuel.
unfoldable pub batches_from {ℓ} : {A : Type ℓ} → ℕ → ℕ → List A → List (List A)
batches_from zero i rows = []
batches_from (suc fuel) i rows =
    let rest = batches_from fuel (i + initial_sync_batch_size) rows in
    if ltb i (length rows) then slice i (batch_end i (length rows)) rows ∷ rest else []

-- A turn per row is enough.
unfoldable pub batches {ℓ} : {A : Type ℓ} → List A → List (List A)
unfolding batches_from
batches rows = batches_from (length rows) 0 rows

abbrev pub empty_push : SyncPushRequest
empty_push = record {
  notes = [];
  tags = [];
  note_tags = [];
  pinned_note_tags = [];
  attachments = [];
  backlinks = [];
  deleted_note_ids = [];
  deleted_tag_ids = [];
  deleted_attachment_ids = [];
  deleted_backlink_ids = [];
  meta = [];
}

pub record InitialSyncData : Type 0 where
  pub note_rows : List BearNoteRow
  pub tag_rows : List BearTagRow
  pub attachment_rows : List BearAttachmentRow
  pub backlink_rows : List BearBacklinkRow
  pub note_tags : List BearPair
  pub pinned_note_tags : List BearPair

unfoldable pub read_all_bear_data : BearReads → Fallible InitialSyncData
read_all_bear_data reads = do
  note_rows ← reads.notes 0
  tag_rows ← reads.tags 0
  attachment_rows ← reads.attachments 0
  backlink_rows ← reads.backlinks 0
  note_tags ← reads.note_tags
  pinned ← reads.pinned_note_tags
  gives (record {
    note_rows = note_rows;
    tag_rows = tag_rows;
    attachment_rows = attachment_rows;
    backlink_rows = backlink_rows;
    note_tags = note_tags;
    pinned_note_tags = pinned;
  })

-- The pushes of the batches, of which the first is the n-th of the run and draws the k-th id, until
-- one fails: the hub's database, and whether all succeeded.
unfoldable pub push_batches :
    (ℕ → String) → Rendering → Run → ℕ → ℕ → List (List BearNoteRow) → Db → Db × Bool
unfolding send_push map_notes
push_batches random_id r run n k [] db = (db, true)
push_batches random_id r run n k (batch ∷ more) db =
    let (db', ok) =
      send_push random_id run n db (record empty_push { notes = map_notes r k batch }) in
    let rest = push_batches random_id r run (suc n) (k + length batch) more db' in
    if ok then rest else (db', false)

unfoldable pub meta_request : Rendering → InitialSyncData → SyncPushRequest
unfolding map_tags map_attachments map_backlinks convert_note_tags
meta_request r d =
    let drawn_attachments = length d.tag_rows in
    record empty_push {
      tags = map_tags r 0 d.tag_rows;
      attachments = map_attachments r drawn_attachments d.attachment_rows;
      backlinks = map_backlinks r (drawn_attachments + length d.attachment_rows) d.backlink_rows;
      note_tags = convert_note_tags d.note_tags;
      pinned_note_tags = convert_note_tags d.pinned_note_tags;
      meta = ("initial_sync_complete", "true") ∷ [];
    }

-- `mod_time` is the modification time of Bear's files when the state is built.
unfoldable pub initial_state : Run → ℕ → InitialSyncData → BridgeState
unfolding convert_to_id_pairs
initial_state run mod_time d = record {
  last_sync_at = run.now;
  last_db_mod_time_nano = mod_time;
  known_note_ids = extract_uuids (λ n. n.zuniqueidentifier) d.note_rows;
  known_tag_ids = extract_uuids (λ t. t.zuniqueidentifier) d.tag_rows;
  known_attachment_ids = extract_uuids (λ a. a.zuniqueidentifier) d.attachment_rows;
  known_backlink_ids = extract_uuids (λ b. b.zuniqueidentifier) d.backlink_rows;
  known_note_tag_pairs = convert_to_id_pairs d.note_tags;
  known_pinned_note_tag_pairs = convert_to_id_pairs d.pinned_note_tags;
  junction_full_scan_counter = 0;
}

-- The state file afterwards, where `none` is no file.
abbrev pub save_first : Run → BridgeState → Option BridgeState × SyncEnd
save_first run st = if run.saves then (some st, synced) else (none, sync_failed)

-- The metadata is the push after those of the batches; the ids of its rows are drawn first.
unfoldable pub initial_sync :
    (ℕ → String) → Rendering → Run → BearReads → ℕ → Db → Db × (Option BridgeState × SyncEnd)
unfolding read_all_bear_data batches push_batches send_push meta_request initial_state
initial_sync random_id r run reads mod_time db = elim (read_all_bear_data reads) [
  | fails e ↦ (db, (none, sync_failed))
  | gives d ↦
      let parts = batches d.note_rows in
      let drawn = length d.tag_rows + length d.attachment_rows + length d.backlink_rows in
      let (db', ok) = push_batches random_id r run 0 drawn parts db in
      let (db'', told) = send_push random_id run (length parts) db' (meta_request r d) in
      if not ok
      then (db', (none, sync_failed))
      else if not told
      then (db'', (none, sync_failed))
      else (db'', save_first run (initial_state run mod_time d))
]
