-- ===== src/BearDb/Carried.antt =====
-- Proofs about the tags that a delta of cmd/bridge/sync.go carries for the notes that changed, with
-- the reads of internal/beardb/sqlite.go.
use bear_sync.Prelude.{
  ℕ, String, Bool, true, false, ◌&&◌, ◌||◌, List, [], ◌∷◌, ◌++◌, ◌==◌, ◌≡◌, refl, sym, ap, ◌∙◌, inl,
  inr, arith, eq_iff, map, select_all, any, str_eq_sym, Bool-cases,
}
use bear_sync.Models.Sync.{NoteTagPair, SyncPushRequest}
use bear_sync.Mapper.BearRows.{BearNoteRow}
use bear_sync.Bridge.Bear.{Fallible, gives}
use bear_sync.Bridge.Junction.{
  BearPair, IdPair, member, convert_note_tags, extract_uuids, merge_note_tags, unseen, pair_key,
  snapshot_of, note_snapshot, snapshots, find_changed_junction_notes, convert_to_id_pairs,
}
use bear_sync.Bridge.Reads.{BearReads, BridgeState, Rendering}
use bear_sync.Bridge.Delta.{
  Scanned, build_delta_push, junction_full_scan, scan_if_due, is_scan_due, pairs_of,
}
use bear_sync.Bridge.Parts.{build_delta_push-Parts}
use bear_sync.Bridge.DeltaLaws.{>>=-eq-gives, gives_injective}
use bear_sync.BearDb.Tables.{BearTables}
use bear_sync.BearDb.Queries.{notes, note_tags, pinned_note_tags, bear_db}
use bear_sync.BearDb.Restrict.{bear_db_restrict}

-- Whether pairs of the hub, or of Bear, give the note `u` the tag `t`.
abbrev pub carries : String → String → List NoteTagPair → Bool
carries u t = any (λ p. p.note_id == u && p.tag_id == t)

abbrev pub holds : String → String → List BearPair → Bool
holds u t = any (λ p. p.note_uuid == u && p.tag_uuid == t)

module _ (u t : String) where
  carries-convert : (ps : List BearPair) → carries u t (convert_note_tags ps) ≡ holds u t ps
  unfolding convert_note_tags
  carries-convert [] = refl
  carries-convert (p ∷ ps) = ground (arith, carries-convert ps)

  holds-restrict :
      (us : List String) (ps : List BearPair)
      → member u us ≡ true
      → holds u t (select_all (λ p. member p.note_uuid us) ps) ≡ holds u t ps
  holds-restrict us [] h = refl
  holds-restrict us (p ∷ ps) h = elim (Bool-cases (p.note_uuid == u)) [
    | inl e ↦
        let listed : member p.note_uuid us ≡ true =
          ap (λ v. member v us) ((eq_iff p.note_uuid u).0 e) ∙ h in
        ground (arith, listed, holds-restrict us ps h)
    | inr e ↦ ground (arith, e, holds-restrict us ps h)
  ]

  carries-append :
      (ps qs : List NoteTagPair) → carries u t (ps ++ qs) ≡ (carries u t ps || carries u t qs)
  carries-append [] qs = refl
  carries-append (p ∷ ps) qs = ground (arith, carries-append ps qs)

  carries-unseen :
      (seen : List String) (ps : List NoteTagPair)
      → carries u t (unseen seen ps) ≡ true
      → carries u t ps ≡ true
  carries-unseen seen [] h = h
  carries-unseen seen (p ∷ ps) h =
      ground (arith, carries-unseen seen ps, carries-unseen (pair_key p ∷ seen) ps)

  carries-merge :
      (ps qs : List NoteTagPair) (b : Bool)
      → carries u t ps ≡ b
      → (carries u t qs ≡ true → b ≡ true)
      → carries u t (merge_note_tags ps qs) ≡ b
  unfolding merge_note_tags
  carries-merge ps qs b h imp =
      ground (
        arith,
        carries-append ps (unseen (map pair_key ps) qs),
        carries-unseen (map pair_key ps) qs,
      )

  holds_of_select :
      (p : BearPair → Bool) (ps : List BearPair)
      → holds u t (select_all p ps) ≡ true
      → holds u t ps ≡ true
  holds_of_select p [] h = h
  holds_of_select p (q ∷ ps) h = ground (arith, holds_of_select p ps)

  module _ (named : (t == "") ≡ false) where
    carries-snapshot :
        (ps : List BearPair) (k : String)
        → carries u t (note_snapshot ps k) ≡ true
        → holds u t ps ≡ true
    unfolding convert_note_tags
    carries-snapshot ps k h =
        holds_of_select (λ p. p.note_uuid == k) ps (shown (select_all (λ p. p.note_uuid == k) ps) h)
      where
        shown : (qs : List BearPair) → carries u t (snapshot_of k qs) ≡ true → holds u t qs ≡ true
        shown [] g = ground (arith, str_eq_sym "" t, named)
        shown (q ∷ qs) g = sym (carries-convert (q ∷ qs)) ∙ g

    carries-snapshots :
        (ps : List BearPair) (ks : List String)
        → carries u t (snapshots ps ks) ≡ true
        → holds u t ps ≡ true
    unfolding snapshots
    carries-snapshots ps [] h = cc
    carries-snapshots ps (k ∷ ks) h = ground (
      arith,
      carries-append (note_snapshot ps k) (snapshots ps ks),
      carries-snapshot ps k,
      carries-snapshots ps ks,
    )

    -- What a full scan adds, if it is due, is Bear's.
    scan-holds :
        (reads : BearReads) (st : BridgeState) {full pinned : List BearPair} {scanned : Scanned}
        → reads.note_tags ≡ gives full
        → reads.pinned_note_tags ≡ gives pinned
        → scan_if_due reads st ≡ gives scanned
        → (carries u t scanned.note_tags ≡ true → holds u t full ≡ true)
          × (carries u t scanned.pinned_tags ≡ true → holds u t pinned ≡ true)
    unfolding scan_if_due junction_full_scan
    scan-holds reads st {full} {pinned} a b run = elim (Bool-cases (is_scan_due st)) [
      | inl due ↦
          let found = gives_injective (rw (due, a, b, scan_if_due, junction_full_scan) at run) in
          (
            λ h.
                carries-snapshots full (changed st.known_note_tag_pairs full)
                  (ap (λ (s : Scanned). carries u t s.note_tags) found ∙ h),
            λ h.
                carries-snapshots pinned (changed st.known_pinned_note_tag_pairs pinned)
                  (ap (λ (s : Scanned). carries u t s.pinned_tags) found ∙ h),
          )
      | inr skipped ↦
          let found = gives_injective (rw (skipped, scan_if_due) at run) in
          (
            λ h. cc (ap (λ (s : Scanned). carries u t s.note_tags) found, h),
            λ h. cc (ap (λ (s : Scanned). carries u t s.pinned_tags) found, h),
          )
    ]
      where
        changed : List IdPair → List BearPair → List String
        changed known ps = find_changed_junction_notes known (convert_to_id_pairs ps)

  pairs_of-carries :
      (query : List String → Fallible (List BearPair)) (full : List BearPair)
      → ((us : List String) → query us ≡ gives (select_all (λ p. member p.note_uuid us) full))
      → (rows : List BearNoteRow) {pairs : List NoteTagPair} → pairs_of query rows ≡ gives pairs
      → member u (extract_uuids (λ n. n.zuniqueidentifier) rows) ≡ true
      → carries u t pairs ≡ holds u t full
  unfolding pairs_of
  pairs_of-carries query full answers [] run h = cc
  pairs_of-carries query full answers (r ∷ rows) run h =
      let us = extract_uuids (λ (n : BearNoteRow). n.zuniqueidentifier) (r ∷ rows) in
      let (ps, got, out) = >>=-eq-gives (query us) (λ x. gives (convert_note_tags x)) run in
      ap (carries u t) (sym (gives_injective out))
      ∙ carries-convert ps
      ∙ ap (holds u t) (gives_injective (sym got ∙ answers us))
      ∙ holds-restrict us full h

bear_db_full :
    (db : BearTables)
    → let reads = bear_db (λ query. gives db) in
      (reads.note_tags ≡ gives (note_tags db))
      × (reads.pinned_note_tags ≡ gives (pinned_note_tags db))
      × ((t : ℕ) → reads.notes t ≡ gives (notes db t))
unfolding bear_db
bear_db_full db = (refl, refl, λ t. refl)

-- Where all reads see the same tables of Bear, a delta that is built gives each note that the
-- delta reads exactly the tags, with an id that is not empty, and the pinned tags that the tables
-- give it, whatever a full scan adds.
pub build_delta_push-carries :
    (r : Rendering) (db : BearTables) (st scanned : BridgeState) (req : SyncPushRequest)
    (u t : String)
    → build_delta_push r (bear_db (λ query. gives db)) st ≡ gives (scanned, req)
    → member u (extract_uuids (λ n. n.zuniqueidentifier) (notes db st.last_sync_at)) ≡ true
    → (t == "") ≡ false
    → (carries u t req.note_tags ≡ holds u t (note_tags db))
      × (carries u t req.pinned_note_tags ≡ holds u t (pinned_note_tags db))
build_delta_push-carries r db st scanned req u t run changed named =
    let reads : BearReads = bear_db (λ query. gives db) in
    let parts = build_delta_push-Parts r reads st scanned req run in
    let full = bear_db_full db in
    let found = scan-holds u t named reads st full.0 full.1 parts.scans in
    let listed =
      ap (λ rows. member u (extract_uuids (λ (n : BearNoteRow). n.zuniqueidentifier) rows))
        (gives_injective (sym parts.reads_notes ∙ full.2 st.last_sync_at))
      ∙ changed in
    (
      ap (carries u t) (sym parts.merges)
          ∙ carries-merge u t parts.pairs parts.scan.note_tags (holds u t (note_tags db))
              (pairs_of-carries u t reads.note_tags_for_notes (note_tags db)
                (λ us. (bear_db_restrict db 0 us).5) parts.note_rows parts.reads_pairs listed)
              found.0,
      ap (carries u t) (sym parts.merges_pinned)
          ∙ carries-merge u t parts.pinned parts.scan.pinned_tags (holds u t (pinned_note_tags db))
              (pairs_of-carries u t reads.pinned_note_tags_for_notes (pinned_note_tags db)
                (λ us. (bear_db_restrict db 0 us).6) parts.note_rows parts.reads_pinned listed)
              found.1,
    )
