-- ===== src/Bridge/Reads.antt =====
-- What cmd/bridge/sync.go works with: the reads of `BearDB` (internal/beardb/beardb.go) on Bear's
-- database as it is at one moment, the saved state (cmd/bridge/state.go), and the chaining of calls
-- that may fail. `LastSyncAt`, a `float64` that is only set from a whole number of seconds since
-- 2001, is a natural number.
use bear_sync.Prelude.{ℕ, suc, String, List, [], ◌∷◌}
use bear_sync.Models.Note.{Note}
use bear_sync.Models.Tag.{Tag}
use bear_sync.Models.Attachment.{Attachment}
use bear_sync.Models.Backlink.{Backlink}
use bear_sync.Mapper.BearRows.{BearNoteRow, BearTagRow, BearAttachmentRow, BearBacklinkRow}
use bear_sync.Mapper.Convert.{map_bear_note, map_bear_tag, map_bear_attachment, map_bear_backlink}
use bear_sync.Bridge.Bear.{Fallible, fails, gives}
use bear_sync.Bridge.Junction.{BearPair, IdPair}

pub record BearReads : Type 0 where
  pub notes : ℕ → Fallible (List BearNoteRow)
  pub tags : ℕ → Fallible (List BearTagRow)
  pub attachments : ℕ → Fallible (List BearAttachmentRow)
  pub attachments_by_uuids : List String → Fallible (List BearAttachmentRow)
  pub backlinks : ℕ → Fallible (List BearBacklinkRow)
  pub note_tags : Fallible (List BearPair)
  pub pinned_note_tags : Fallible (List BearPair)
  pub note_tags_for_notes : List String → Fallible (List BearPair)
  pub pinned_note_tags_for_notes : List String → Fallible (List BearPair)
  pub all_note_uuids : Fallible (List String)
  pub all_tag_uuids : Fallible (List String)
  pub all_attachment_uuids : Fallible (List String)
  pub all_backlink_uuids : Fallible (List String)

pub record BridgeState : Type 0 where
  pub last_sync_at : ℕ
  pub last_db_mod_time_nano : ℕ
  pub known_note_ids : List String
  pub known_tag_ids : List String
  pub known_attachment_ids : List String
  pub known_backlink_ids : List String
  pub known_note_tag_pairs : List IdPair
  pub known_pinned_note_tag_pairs : List IdPair
  pub junction_full_scan_counter : ℕ

-- Go's `time` and `json.Marshal`, and the ids that the mapper draws, the k-th at `k`.
pub record Rendering : Type 0 where
  pub rfc3339 : ℕ → String
  pub raw_note : BearNoteRow → String
  pub raw_tag : BearTagRow → String
  pub raw_attachment : BearAttachmentRow → String
  pub raw_backlink : BearBacklinkRow → String
  pub drawn_id : ℕ → String

infixl 5 ◌>>=◌
abbrev pub ◌>>=◌ {ℓ κ} : {A : Type ℓ} {B : Type κ} → Fallible A → (A → Fallible B) → Fallible B
fails e >>= next = fails e
gives a >>= next = next a

-- The loops of `mapNotes` and its kin, from the k-th id on.
abbrev pub map_rows {ℓ κ} :
    {A : Type ℓ} {B : Type κ} → (String → A → B) → (ℕ → String) → ℕ → List A → List B
map_rows f ids k [] = []
map_rows f ids k (r ∷ rows) = f (ids k) r ∷ map_rows f ids (suc k) rows

module _ (r : Rendering) where
  unfoldable pub map_notes : ℕ → List BearNoteRow → List Note
  unfolding map_bear_note
  map_notes = map_rows (map_bear_note r.rfc3339 r.raw_note) r.drawn_id

  unfoldable pub map_tags : ℕ → List BearTagRow → List Tag
  unfolding map_bear_tag
  map_tags = map_rows (map_bear_tag r.rfc3339 r.raw_tag) r.drawn_id

  unfoldable pub map_attachments : ℕ → List BearAttachmentRow → List Attachment
  unfolding map_bear_attachment
  map_attachments = map_rows (map_bear_attachment r.rfc3339 r.raw_attachment) r.drawn_id

  unfoldable pub map_backlinks : ℕ → List BearBacklinkRow → List Backlink
  unfolding map_bear_backlink
  map_backlinks = map_rows (map_bear_backlink r.rfc3339 r.raw_backlink) r.drawn_id
