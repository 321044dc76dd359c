-- ===== src/Bridge/Parts.antt =====
-- The parts that `buildDeltaPush` of cmd/bridge/sync.go puts its request together from.
use bear_sync.Prelude.{ℕ, String, List, ◌++◌, ◌≡◌, ap, ◌∙◌}
use bear_sync.Models.Sync.{NoteTagPair, SyncPushRequest}
use bear_sync.Mapper.BearRows.{BearNoteRow, BearTagRow, BearAttachmentRow, BearBacklinkRow}
use bear_sync.Bridge.Bear.{gives}
use bear_sync.Bridge.Junction.{diff_ids, merge_note_tags}
use bear_sync.Bridge.Reads.{
  BearReads, BridgeState, Rendering, map_notes, map_tags, map_attachments, map_backlinks,
}
use bear_sync.Bridge.Delta.{
  Scanned, build_delta_push, detect_deletions, read_new_attachments, scan_if_due, pairs_of,
}
use bear_sync.Bridge.DeltaLaws.{>>=-then, gives_injective}

pub record Parts (r : Rendering) (reads : BearReads) (st scanned : BridgeState)
    (req : SyncPushRequest) : Type 0 where
  pub note_rows : List BearNoteRow
  pub tag_rows : List BearTagRow
  pub backlink_rows : List BearBacklinkRow
  pub changed : List BearAttachmentRow
  pub fresh : List BearAttachmentRow
  pub attachment_ids : List String
  pub pairs : List NoteTagPair
  pub pinned : List NoteTagPair
  pub scan : Scanned
  pub reads_notes : reads.notes st.last_sync_at ≡ gives note_rows
  pub reads_tags : reads.tags st.last_sync_at ≡ gives tag_rows
  pub reads_changed : reads.attachments st.last_sync_at ≡ gives changed
  pub reads_backlinks : reads.backlinks st.last_sync_at ≡ gives backlink_rows
  pub reads_new :
      read_new_attachments reads st.known_attachment_ids changed ≡ gives (fresh, attachment_ids)
  pub reads_pairs : pairs_of reads.note_tags_for_notes note_rows ≡ gives pairs
  pub reads_pinned : pairs_of reads.pinned_note_tags_for_notes note_rows ≡ gives pinned
  pub scans : scan_if_due reads st ≡ gives scan
  pub gone_notes :
      detect_deletions st.known_note_ids reads.all_note_uuids ≡ gives req.deleted_note_ids
  pub gone_tags : detect_deletions st.known_tag_ids reads.all_tag_uuids ≡ gives req.deleted_tag_ids
  pub gone_backlinks :
      detect_deletions st.known_backlink_ids reads.all_backlink_uuids
      ≡ gives req.deleted_backlink_ids
  pub gone_attachments :
      diff_ids st.known_attachment_ids attachment_ids ≡ req.deleted_attachment_ids
  pub merges : merge_note_tags pairs scan.note_tags ≡ req.note_tags
  pub merges_pinned : merge_note_tags pinned scan.pinned_tags ≡ req.pinned_note_tags
  pub notes_from : (k : ℕ) × (map_notes r k note_rows ≡ req.notes)
  pub tags_from : (k : ℕ) × (map_tags r k tag_rows ≡ req.tags)
  pub attachments_from : (k : ℕ) × (map_attachments r k (changed ++ fresh) ≡ req.attachments)
  pub backlinks_from : (k : ℕ) × (map_backlinks r k backlink_rows ≡ req.backlinks)
  pub keeps : scan.state ≡ scanned

pub build_delta_push-Parts :
    (r : Rendering) (reads : BearReads) (st scanned : BridgeState) (req : SyncPushRequest)
    → build_delta_push r reads st ≡ gives (scanned, req)
    → Parts r reads st scanned req
unfolding build_delta_push
build_delta_push-Parts r reads st scanned req run =
    >>=-then (reads.notes st.last_sync_at) run λ note_rows p1 r1.
      >>=-then (reads.tags st.last_sync_at) r1 λ tag_rows p2 r2.
        >>=-then (reads.attachments st.last_sync_at) r2 λ changed p3 r3.
          >>=-then (read_new_attachments reads st.known_attachment_ids changed) r3 λ new p4 r4.
            >>=-then (reads.backlinks st.last_sync_at) r4 λ backlink_rows p5 r5.
              >>=-then (pairs_of reads.note_tags_for_notes note_rows) r5 λ pairs p6 r6.
                >>=-then (pairs_of reads.pinned_note_tags_for_notes note_rows) r6 λ pinned p7 r7.
                  >>=-then (scan_if_due reads st) r7 λ scan p8 r8.
                    >>=-then (detect_deletions st.known_note_ids reads.all_note_uuids) r8
                      λ notes p9 r9.
                        >>=-then (detect_deletions st.known_tag_ids reads.all_tag_uuids) r9
                          λ tags p10 r10.
                            >>=-then
                              (detect_deletions st.known_backlink_ids reads.all_backlink_uuids) r10
                              λ links p11 r11.
                                let built =
                                  ap (λ (x : BridgeState × SyncPushRequest). x.1)
                                    (gives_injective r11) in
                                record {
                                  tag_rows = tag_rows;
                                  backlink_rows = backlink_rows;
                                  reads_tags = p2;
                                  reads_changed = p3;
                                  reads_backlinks = p5;
                                  notes_from = (_, ap (λ (x : SyncPushRequest). x.notes) built);
                                  tags_from = (_, ap (λ (x : SyncPushRequest). x.tags) built);
                                  attachments_from =
                                      (_, ap (λ (x : SyncPushRequest). x.attachments) built);
                                  backlinks_from =
                                      (_, ap (λ (x : SyncPushRequest). x.backlinks) built);
                                  keeps =
                                      ap (λ (x : BridgeState × SyncPushRequest). x.0)
                                        (gives_injective r11);
                                  note_rows = note_rows;
                                  changed = changed;
                                  fresh = new.0;
                                  attachment_ids = new.1;
                                  pairs = pairs;
                                  pinned = pinned;
                                  scan = scan;
                                  reads_notes = p1;
                                  reads_new = p4;
                                  reads_pairs = p6;
                                  reads_pinned = p7;
                                  scans = p8;
                                  gone_notes =
                                      p9
                                      ∙ ap (λ (x : SyncPushRequest). gives x.deleted_note_ids)
                                          built;
                                  gone_tags =
                                      p10
                                      ∙ ap (λ (x : SyncPushRequest). gives x.deleted_tag_ids) built;
                                  gone_backlinks =
                                      p11
                                      ∙ ap (λ (x : SyncPushRequest). gives x.deleted_backlink_ids)
                                          built;
                                  gone_attachments =
                                      ap (λ (x : SyncPushRequest). x.deleted_attachment_ids) built;
                                  merges = ap (λ (x : SyncPushRequest). x.note_tags) built;
                                  merges_pinned =
                                      ap (λ (x : SyncPushRequest). x.pinned_note_tags) built;
                                }
