-- ===== src/Bridge/Remembers.antt =====
-- Proofs about the full scan of the pairs after `deltaSync` of cmd/bridge/sync.go.
use bear_sync.Prelude.{ℕ, String, false, List, [], ◌∷◌, ◌≡◌, refl, sym, ap, ◌∙◌, str_eq_self}
use bear_sync.Models.Sync.{SyncPushRequest}
use bear_sync.Store.Db.{Db}
use bear_sync.Bridge.Bear.{gives}
use bear_sync.Bridge.Junction.{
  BearPair, IdPair, member, convert_to_id_pairs, find_changed_junction_notes, snapshots,
  is_empty_push,
}
use bear_sync.Bridge.Changed.{has, find_changed_iff}
use bear_sync.Bridge.Reads.{BearReads, BridgeState, Rendering}
use bear_sync.Bridge.Delta.{
  Run, SyncEnd, synced, Scanned, junction_full_scan, delta_sync, build_delta_push,
}
use bear_sync.Bridge.DeltaLaws.{gives_injective}
use bear_sync.Bridge.News.{Knows}
use bear_sync.Bridge.Advance.{Advance, fails_whole, no_news, told, delta_sync-Advance}

no_members : (xs : List String) → ((k : String) → member k xs ≡ false) → xs ≡ []
no_members [] h = refl
no_members (x ∷ xs) h = cc (h x, str_eq_self x)

-- A scan of the pairs that the state file holds has no snapshot to send.
unchanged :
    (pairs : List BearPair) (known : List IdPair)
    → known ≡ convert_to_id_pairs pairs
    → snapshots pairs (find_changed_junction_notes known (convert_to_id_pairs pairs)) ≡ []
unfolding snapshots
unchanged pairs known same = ap (snapshots pairs) (
    no_members (find_changed_junction_notes known (convert_to_id_pairs pairs))
      (λ k. (find_changed_iff known (convert_to_id_pairs pairs) k).1 (λ t. ap (has k t) same)))

-- A full scan runs on these reads and this state, and finds nothing to send.
pub record ScansNothing (reads : BearReads) (st : BridgeState) : Type 0 where
  pub scan : Scanned
  pub runs : junction_full_scan reads st ≡ gives scan
  pub no_tags : scan.note_tags ≡ []
  pub no_pinned : scan.pinned_tags ≡ []

Knows-ScansNothing :
    (reads : BearReads) (now syncs : ℕ) (st : BridgeState)
    → Knows reads now syncs st
    → ScansNothing reads st
unfolding junction_full_scan convert_to_id_pairs
Knows-ScansNothing reads now syncs st k =
    let (tags, got, same) = k.note_tags in
    let (pinned, got', same') = k.pinned_note_tags in
    record {
      scan = record {
        state = record st {
          known_note_tag_pairs = convert_to_id_pairs tags;
          known_pinned_note_tag_pairs = convert_to_id_pairs pinned;
        };
        note_tags =
            snapshots tags
              (find_changed_junction_notes st.known_note_tag_pairs (convert_to_id_pairs tags));
        pinned_tags = snapshots pinned (
            find_changed_junction_notes st.known_pinned_note_tag_pairs
              (convert_to_id_pairs pinned));
      };
      runs = rw (got, got', junction_full_scan) refl;
      no_tags = unchanged tags st.known_note_tag_pairs same;
      no_pinned = unchanged pinned st.known_pinned_note_tag_pairs same';
    }

module _ (random_id : ℕ → String) (r : Rendering) (run : Run) (reads reads' : BearReads)
    (disk st : BridgeState) where
  -- With news to push, a delta that ends well has told the hub.
  told-Knows :
      (db db' : Db) (st' : BridgeState) (end : SyncEnd) (scanned : BridgeState)
      (req : SyncPushRequest)
      → Advance random_id r run reads reads' disk st db db' st' end
      → end ≡ synced
      → build_delta_push r reads st ≡ gives (scanned, req)
      → is_empty_push req ≡ false
      → Knows reads' run.now st.junction_full_scan_counter st'
  told-Knows db db' st' end scanned req (fails_whole e) s b n = cc
  told-Knows db db' st' end scanned req (no_news scanned' req' b' e' same quiet) s b n =
      let one : gives (scanned', req') ≡ gives (scanned, req) = sym b' ∙ b in
      let same_test : is_empty_push req' ≡ is_empty_push req =
        ap (λ (x : BridgeState × SyncPushRequest). is_empty_push x.1) (gives_injective one) in
      cc (same_test, e', n)
  told-Knows db db' st' end scanned req (told scanned' req' ids p e served known) s b n = known

  -- After a delta sync that pushed something and succeeded, a full scan of the pairs of notes and
  -- tags, and of the pins, that Bear had after the push runs and finds nothing to send, whatever
  -- pairs the bridge knew before and whichever the push contained.
  pub delta_sync_remembers :
      (db : Db) (scanned : BridgeState) (req : SyncPushRequest)
      → build_delta_push r reads st ≡ gives (scanned, req)
      → is_empty_push req ≡ false
      → (delta_sync random_id r run reads reads' disk st db).1.1 ≡ synced
      → ScansNothing reads' (delta_sync random_id r run reads reads' disk st db).1.0
  delta_sync_remembers db scanned req b n s =
      let out = delta_sync random_id r run reads reads' disk st db in
      Knows-ScansNothing reads' run.now st.junction_full_scan_counter out.1.0 (
        told-Knows db out.0 out.1.0 out.1.1 scanned req
          (delta_sync-Advance random_id r run reads reads' disk st db) s b n)
