-- ===== src/Bridge/News.antt =====
-- Proofs about what `updateKnownIDs` of cmd/bridge/sync.go makes the bridge know, and what it means
-- that `buildDeltaPush` has nothing to push.
use bear_sync.Prelude.{
  ◌++◌, arith, suc, map, ℕ, String, true, List, [], ◌∷◌, ◌≡◌, refl, sym, ap, ◌∙◌, inl, inr,
  Bool-cases,
}
use bear_sync.Models.Sync.{SyncPushRequest}
use bear_sync.Mapper.Convert.{map_bear_note, map_bear_tag, map_bear_attachment, map_bear_backlink}
use bear_sync.Bridge.Bear.{Fallible, gives}
use bear_sync.Bridge.Junction.{
  is_empty, IdPair, BearPair, member, convert_to_id_pairs, is_empty_push,
}
use bear_sync.Bridge.Reads.{
  BearReads, BridgeState, Rendering, map_rows, map_notes, map_tags, map_attachments, map_backlinks,
}
use bear_sync.Bridge.Delta.{
  Scanned, scan_if_due, junction_full_scan, is_scan_due, detect_deletions, update_known_ids,
  counted,
}
use bear_sync.Bridge.Deletions.{detect-AreGone}
use bear_sync.Bridge.Parts.{Parts}
use bear_sync.Bridge.DeltaLaws.{>>=-then, gives_injective}

-- The pair as the state file holds it.
abbrev pub id_pair : BearPair → IdPair
id_pair p = record { note_uuid = p.note_uuid; tag_uuid = p.tag_uuid }

-- A read gives these pairs, and the state file holds them.
abbrev pub HoldsPairs : Fallible (List BearPair) → List IdPair → Type 0
HoldsPairs read known = (pairs : List BearPair) × (read ≡ gives pairs) × (known ≡ map id_pair pairs)

-- The state file holds the ids and the pairs that Bear has, the time of the push, and the number of
-- the syncs so far, one more than before.
pub record Knows (reads : BearReads) (now syncs : ℕ) (st' : BridgeState) : Type 0 where
  pub note_ids : reads.all_note_uuids ≡ gives st'.known_note_ids
  pub tag_ids : reads.all_tag_uuids ≡ gives st'.known_tag_ids
  pub attachment_ids : reads.all_attachment_uuids ≡ gives st'.known_attachment_ids
  pub backlink_ids : reads.all_backlink_uuids ≡ gives st'.known_backlink_ids
  pub note_tags : HoldsPairs reads.note_tags st'.known_note_tag_pairs
  pub pinned_note_tags : HoldsPairs reads.pinned_note_tags st'.known_pinned_note_tag_pairs
  pub synced_at : st'.last_sync_at ≡ now
  pub counts : st'.junction_full_scan_counter ≡ suc syncs

pub update_known-Knows :
    (reads : BearReads) (now : ℕ) (st : BridgeState) {st' : BridgeState}
    → update_known_ids reads (counted (record st { last_sync_at = now })) ≡ gives st'
    → Knows reads now st.junction_full_scan_counter st'
unfolding update_known_ids convert_to_id_pairs
update_known-Knows reads now st run = >>=-then reads.all_note_uuids run λ a p1 r1.
    >>=-then reads.all_tag_uuids r1 λ b p2 r2. >>=-then reads.all_attachment_uuids r2 λ c p3 r3.
      >>=-then reads.all_backlink_uuids r3 λ d p4 r4. >>=-then reads.note_tags r4 λ f p5 r5.
        >>=-then reads.pinned_note_tags r5 λ g p6 r6.
          let same = gives_injective r6 in
          record {
            note_ids = p1 ∙ ap (λ (s : BridgeState). gives s.known_note_ids) same;
            tag_ids = p2 ∙ ap (λ (s : BridgeState). gives s.known_tag_ids) same;
            attachment_ids = p3 ∙ ap (λ (s : BridgeState). gives s.known_attachment_ids) same;
            backlink_ids = p4 ∙ ap (λ (s : BridgeState). gives s.known_backlink_ids) same;
            note_tags =
                (f, p5, sym (ap (λ (s : BridgeState). s.known_note_tag_pairs) same) ∙ holds f);
            pinned_note_tags = (
              g,
              p6,
              sym (ap (λ (s : BridgeState). s.known_pinned_note_tag_pairs) same) ∙ holds g,
            );
            synced_at = sym (ap (λ (s : BridgeState). s.last_sync_at) same);
            counts = sym (ap (λ (s : BridgeState). s.junction_full_scan_counter) same);
          }
  where
    holds : (pairs : List BearPair) → convert_to_id_pairs pairs ≡ map id_pair pairs
    holds pairs = refl

-- Bear still has all of the ids that a read gives.
abbrev pub StillHas : Fallible (List String) → List String → Type 0
StillHas read known =
    (ids : List String) × (read ≡ gives ids)
    × ((k : String) → member k known ≡ true → member k ids ≡ true)

-- Bear has no row that changed since the last sync, and has all that the bridge knows of; the state
-- file keeps the ids and the time, and counts the sync.
pub record IsQuiet (reads : BearReads) (st st' : BridgeState) : Type 0 where
  pub no_notes : reads.notes st.last_sync_at ≡ gives []
  pub no_tags : reads.tags st.last_sync_at ≡ gives []
  pub no_attachments : reads.attachments st.last_sync_at ≡ gives []
  pub no_backlinks : reads.backlinks st.last_sync_at ≡ gives []
  pub has_notes : StillHas reads.all_note_uuids st.known_note_ids
  pub has_tags : StillHas reads.all_tag_uuids st.known_tag_ids
  pub has_backlinks : StillHas reads.all_backlink_uuids st.known_backlink_ids
  pub same_notes : st'.known_note_ids ≡ st.known_note_ids
  pub same_tags : st'.known_tag_ids ≡ st.known_tag_ids
  pub same_attachments : st'.known_attachment_ids ≡ st.known_attachment_ids
  pub same_backlinks : st'.known_backlink_ids ≡ st.known_backlink_ids
  pub same_time : st'.last_sync_at ≡ st.last_sync_at
  pub counts : st'.junction_full_scan_counter ≡ suc st.junction_full_scan_counter

-- What the full scan does not write, it leaves.
scan_keeps {ℓ} :
    {A : Type ℓ} (reads : BearReads) (st : BridgeState) (get : BridgeState → A)
    → ((a b : List IdPair)
        → get (record st { known_note_tag_pairs = a; known_pinned_note_tag_pairs = b }) ≡ get st)
    → {scan : Scanned} → scan_if_due reads st ≡ gives scan
    → get scan.state ≡ get st
unfolding scan_if_due junction_full_scan
scan_keeps reads st get same run = elim (Bool-cases (is_scan_due st)) [
  | inl d ↦ >>=-then reads.note_tags (rw (d, scan_if_due) at run) λ f p1 r1.
      >>=-then reads.pinned_note_tags r1
        λ g p2 r2. ap (λ (x : Scanned). get x.state) (sym (gives_injective r2)) ∙ same _ _
  | inr d ↦ ap (λ (x : Scanned). get x.state) (sym (gives_injective (rw (d, scan_if_due) at run)))
]

no_rows {ℓ κ} :
    {A : Type ℓ} {B : Type κ} (f : String → A → B) (ids : ℕ → String) (k : ℕ) (rows : List A)
    → is_empty (map_rows f ids k rows) ≡ true
    → rows ≡ []
no_rows f ids k [] h = refl
no_rows f ids k (r ∷ rows) h = cc

empty-append {ℓ} : {A : Type ℓ} (xs ys : List A) → xs ++ ys ≡ [] → xs ≡ []
empty-append [] ys h = refl
empty-append (x ∷ xs) ys h = cc

still_has :
    (known : List String) (read : Fallible (List String)) (deleted : List String)
    → detect_deletions known read ≡ gives deleted
    → is_empty deleted ≡ true
    → StillHas read known
unfolding detect_deletions
still_has known read (k ∷ deleted) run none_left = cc
still_has known read [] run none_left =
    >>=-then read run
      λ ids p r. (ids, p, λ k h. ground (arith, h, detect-AreGone known ids read p run k))

pub push_keeps {ℓ} :
    {A : Type ℓ} {r : Rendering} (reads : BearReads) (st : BridgeState) {scanned : BridgeState}
    {req : SyncPushRequest} (get : BridgeState → A)
    → ((a b : List IdPair)
        → get (record st { known_note_tag_pairs = a; known_pinned_note_tag_pairs = b }) ≡ get st)
    → Parts r reads st scanned req
    → get scanned ≡ get st
push_keeps reads st get same parts =
    ap get (sym parts.keeps) ∙ scan_keeps reads st get same parts.scans

-- Nothing to push means that Bear is quiet.
pub empty_push-IsQuiet :
    (r : Rendering) (reads : BearReads) (st scanned : BridgeState) (req : SyncPushRequest)
    → Parts r reads st scanned req
    → is_empty_push req ≡ true
    → IsQuiet reads st (counted scanned)
unfolding is_empty_push map_notes map_tags map_attachments map_backlinks
empty_push-IsQuiet r reads st scanned req parts quiet =
    let notes : is_empty req.notes ≡ true = ground arith in
    let tags : is_empty req.tags ≡ true = ground arith in
    let attachments : is_empty req.attachments ≡ true = ground arith in
    let backlinks : is_empty req.backlinks ≡ true = ground arith in
    record {
      no_notes =
          parts.reads_notes
          ∙ ap gives (
              no_rows (map_bear_note r.rfc3339 r.raw_note) r.drawn_id parts.notes_from.0
                parts.note_rows (ap is_empty parts.notes_from.1 ∙ notes));
      no_tags =
          parts.reads_tags
          ∙ ap gives (
              no_rows (map_bear_tag r.rfc3339 r.raw_tag) r.drawn_id parts.tags_from.0 parts.tag_rows
                (ap is_empty parts.tags_from.1 ∙ tags));
      no_attachments =
          parts.reads_changed
          ∙ ap gives (
              empty-append parts.changed parts.fresh (
                no_rows (map_bear_attachment r.rfc3339 r.raw_attachment) r.drawn_id
                  parts.attachments_from.0 (parts.changed ++ parts.fresh)
                  (ap is_empty parts.attachments_from.1 ∙ attachments)));
      no_backlinks =
          parts.reads_backlinks
          ∙ ap gives (
              no_rows (map_bear_backlink r.rfc3339 r.raw_backlink) r.drawn_id parts.backlinks_from.0
                parts.backlink_rows (ap is_empty parts.backlinks_from.1 ∙ backlinks));
      has_notes =
          still_has st.known_note_ids reads.all_note_uuids req.deleted_note_ids parts.gone_notes
            (ground arith);
      has_tags =
          still_has st.known_tag_ids reads.all_tag_uuids req.deleted_tag_ids parts.gone_tags
            (ground arith);
      has_backlinks =
          still_has st.known_backlink_ids reads.all_backlink_uuids req.deleted_backlink_ids
            parts.gone_backlinks (ground arith);
      same_notes = push_keeps reads st (λ x. x.known_note_ids) (λ a b. refl) parts;
      same_tags = push_keeps reads st (λ x. x.known_tag_ids) (λ a b. refl) parts;
      same_attachments = push_keeps reads st (λ x. x.known_attachment_ids) (λ a b. refl) parts;
      same_backlinks = push_keeps reads st (λ x. x.known_backlink_ids) (λ a b. refl) parts;
      same_time = push_keeps reads st (λ x. x.last_sync_at) (λ a b. refl) parts;
      counts = ap suc (push_keeps reads st (λ x. x.junction_full_scan_counter) (λ a b. refl) parts);
    }
