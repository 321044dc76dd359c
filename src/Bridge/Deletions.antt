-- ===== src/Bridge/Deletions.antt =====
-- Proofs about the deletions that `buildDeltaPush` of cmd/bridge/sync.go reports.
use bear_sync.Prelude.{
  String, Bool, true, false, not, ◌&&◌, List, [], ◌≡◌, sym, ap, ◌∙◌, if◌then◌else◌,
}
use mathlib.Core.Path.{subst}
use bear_sync.Models.Sync.{SyncPushRequest}
use bear_sync.Mapper.BearRows.{BearAttachmentRow}
use bear_sync.Bridge.Bear.{Fallible, gives}
use bear_sync.Bridge.Junction.{member, diff_ids}
use bear_sync.Bridge.Changed.{member-select_all}
use bear_sync.Bridge.Reads.{BearReads, BridgeState, Rendering, ◌>>=◌}
use bear_sync.Bridge.Delta.{build_delta_push, detect_deletions, read_new_attachments}
use bear_sync.Bridge.Parts.{build_delta_push-Parts}
use bear_sync.Bridge.DeltaLaws.{>>=-eq-gives, gives_injective}

-- The `deleted` ids are the `known` ones that are not `current`.
abbrev pub AreGone : List String → List String → List String → Type 0
AreGone known current deleted =
    (k : String) → member k deleted ≡ (member k known && not (member k current))

diff_ids-AreGone : (known current : List String) → AreGone known current (diff_ids known current)
unfolding diff_ids
diff_ids-AreGone known current = λ k. member-select_all (λ j. not (member j current)) k known

pub detect-AreGone :
    (known ids : List String) (read : Fallible (List String)) {deleted : List String}
    → read ≡ gives ids
    → detect_deletions known read ≡ gives deleted
    → AreGone known ids deleted
unfolding detect_deletions
detect-AreGone known ids read e run =
    let (ids', got, out) = >>=-eq-gives read (λ x. gives (diff_ids known x)) run in
    let same : ids' ≡ ids = gives_injective (sym got ∙ e) in
    subst (AreGone known ids) (ap (diff_ids known) (sym same) ∙ gives_injective out)
      (diff_ids-AreGone known ids)

either_current :
    (b : Bool) (read : Fallible (List BearAttachmentRow)) (current' : List String)
    {rows : List BearAttachmentRow} {current : List String}
    → if◌then◌else◌ {A = Fallible (List BearAttachmentRow × List String)} b
        (gives ([], current'))
        (read >>= λ new. gives (new, current'))
      ≡ gives (rows, current)
    → current' ≡ current
either_current true read current' h =
    ap (λ (x : List BearAttachmentRow × List String). x.1) (gives_injective h)
either_current false read current' h =
    let (new, got, out) = >>=-eq-gives read (λ n. gives (n, current')) h in
    ap (λ (x : List BearAttachmentRow × List String). x.1) (gives_injective out)

read_new_current :
    (reads : BearReads) (known ids : List String) (already : List BearAttachmentRow)
    {rows : List BearAttachmentRow} {current : List String}
    → reads.all_attachment_uuids ≡ gives ids
    → read_new_attachments reads known already ≡ gives (rows, current)
    → current ≡ ids
unfolding read_new_attachments
read_new_current reads known ids already e run =
    let (current', got, out) = >>=-eq-gives reads.all_attachment_uuids _ run in
    sym (either_current _ (reads.attachments_by_uuids _) current' out)
    ∙ gives_injective (sym got ∙ e)

-- What Bear has of each kind when the request is built.
pub record Current (reads : BearReads) : Type 0 where
  pub notes : List String
  pub tags : List String
  pub attachments : List String
  pub backlinks : List String
  pub reads_notes : reads.all_note_uuids ≡ gives notes
  pub reads_tags : reads.all_tag_uuids ≡ gives tags
  pub reads_attachments : reads.all_attachment_uuids ≡ gives attachments
  pub reads_backlinks : reads.all_backlink_uuids ≡ gives backlinks

-- If the reads of all ids succeed, the deletions of a delta that is built are, for notes, tags,
-- attachments and backlinks, exactly the ids that the bridge knew and that Bear does not have.
pub build_delta_push-AreGone :
    (r : Rendering) (reads : BearReads) (st : BridgeState) (scanned : BridgeState)
    (req : SyncPushRequest) (now : Current reads)
    → build_delta_push r reads st ≡ gives (scanned, req)
    → AreGone st.known_note_ids now.notes req.deleted_note_ids
      × (AreGone st.known_tag_ids now.tags req.deleted_tag_ids
          × (AreGone st.known_attachment_ids now.attachments req.deleted_attachment_ids
              × AreGone st.known_backlink_ids now.backlinks req.deleted_backlink_ids))
build_delta_push-AreGone r reads st scanned req now run =
    let parts = build_delta_push-Parts r reads st scanned req run in
    let current =
      read_new_current reads st.known_attachment_ids now.attachments parts.changed
        now.reads_attachments parts.reads_new in
    (
      detect-AreGone st.known_note_ids now.notes reads.all_note_uuids now.reads_notes
          parts.gone_notes,
      (
        detect-AreGone st.known_tag_ids now.tags reads.all_tag_uuids now.reads_tags parts.gone_tags,
        (
          subst (AreGone st.known_attachment_ids now.attachments)
              (ap (diff_ids st.known_attachment_ids) (sym current) ∙ parts.gone_attachments)
              (diff_ids-AreGone st.known_attachment_ids now.attachments),
          detect-AreGone st.known_backlink_ids now.backlinks reads.all_backlink_uuids
              now.reads_backlinks parts.gone_backlinks,
        ),
      ),
    )
