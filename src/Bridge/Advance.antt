-- ===== src/Bridge/Advance.antt =====
-- Proofs about how `deltaSync` of cmd/bridge/sync.go ends.
use bear_sync.Prelude.{
  ℕ, String, Bool, true, false, some, List, [], ◌∷◌, ◌≡◌, refl, ap, inl, inr, Bool-cases,
}
use bear_sync.Models.Sync.{SyncPushRequest}
use bear_sync.Store.Db.{Db}
use bear_sync.Api.SyncHandlers.{SyncReply, Accepted, replies, refused, accepted, sync_push}
use bear_sync.Bridge.Cycle.{Delivery, answered, unanswered, lost}
use mathlib.Core.Path.{subst}
use bear_sync.Bridge.Bear.{gives}
use bear_sync.Bridge.Junction.{is_empty_push}
use bear_sync.Bridge.Reads.{BearReads, BridgeState, Rendering}
use bear_sync.Bridge.Delta.{
  Run, accepted_push, SyncEnd, synced, sync_failed, delta_sync, build_delta_push, send_push,
  after_push, update_known_ids, counted,
}
use bear_sync.Bridge.Parts.{Parts, build_delta_push-Parts}
use bear_sync.Bridge.DeltaLaws.{Fallible-split}
use bear_sync.Bridge.News.{Knows, IsQuiet, update_known-Knows, push_keeps, empty_push-IsQuiet}

-- How a delta ends: it fails and leaves the state file alone; Bear is quiet and the hub is left
-- alone; or the hub has processed the push of what was read, and the state file holds what Bear has
-- then.
pub data Advance (random_id : ℕ → String) (r : Rendering) (run : Run) (reads reads' : BearReads)
    (disk st : BridgeState) (db db' : Db) (st' : BridgeState) : SyncEnd → Type 0 where
  fails_whole : st' ≡ disk → Advance random_id r run reads reads' disk st db db' st' sync_failed
  no_news :
      (scanned : BridgeState) (req : SyncPushRequest)
      → build_delta_push r reads st ≡ gives (scanned, req)
      → is_empty_push req ≡ true
      → db' ≡ db
      → IsQuiet reads st st'
      → Advance random_id r run reads reads' disk st db db' st' synced
  told :
      (scanned : BridgeState) (req : SyncPushRequest) (ids : List String)
      → Parts r reads st scanned req
      → is_empty_push req ≡ false
      → sync_push random_id db
          (run.hub_now 0)
          (some (record req { meta = ("last_sync_at", run.now_text) ∷ [] }))
        ≡ (db', replies accepted, ids)
      → Knows reads' run.now st.junction_full_scan_counter st'
      → Advance random_id r run reads reads' disk st db db' st' synced

accepted_told :
    (out : Db × SyncReply Accepted × List String) {db' : Db}
    → accepted_push out ≡ (db', true)
    → (ids : List String) × (out ≡ (db', replies accepted, ids))
accepted_told (db, refused code msg, ids) h = cc (ap (λ (x : Db × Bool). x.1) h)
accepted_told (db, replies accepted, ids) h =
    (ids, ap (λ (x : Db × Bool). (x.0, replies accepted, ids)) h)

send_told :
    (random_id : ℕ → String) (run : Run) (n : ℕ) (db : Db) (req : SyncPushRequest) {db' : Db}
    → send_push random_id run n db req ≡ (db', true)
    → (ids : List String) × (sync_push random_id db (run.hub_now n) (some req)
        ≡ (db', replies accepted, ids))
unfolding send_push
send_told random_id run n db req {db'} h = by_delivery (run.delivery n) refl
  where
    by_delivery :
        (d : Delivery)
        → run.delivery n ≡ d
        → (ids : List String) × (sync_push random_id db (run.hub_now n) (some req)
            ≡ (db', replies accepted, ids))
    by_delivery lost e = cc (ap (λ (x : Db × Bool). x.1) (rw (e, send_push) at h))
    by_delivery unanswered e = cc (ap (λ (x : Db × Bool). x.1) (rw (e, send_push) at h))
    by_delivery answered e =
        accepted_told (sync_push random_id db (run.hub_now n) (some req)) (rw (e, send_push) at h)

module _ (random_id : ℕ → String) (r : Rendering) (run : Run) (reads reads' : BearReads)
    (disk st : BridgeState) where
  -- The end of a push that the bridge sees as `ok`.
  pushed :
      (db db' : Db) (scanned : BridgeState) (req : SyncPushRequest) (ok : Bool)
      → build_delta_push r reads st ≡ gives (scanned, req)
      → is_empty_push req ≡ false
      → send_push random_id run 0 db (record req { meta = ("last_sync_at", run.now_text) ∷ [] })
        ≡ (db', ok)
      → let (st', end) = after_push run reads' disk scanned ok in
        Advance random_id r run reads reads' disk st db db' st' end
  unfolding after_push
  pushed db db' scanned req false b e sent = fails_whole refl
  pushed db db' scanned req true b e sent =
      elim (Fallible-split
        (update_known_ids reads' (counted (record scanned { last_sync_at = run.now })))) [
          | inl (p, k) ↦ rw (k, after_push) (fails_whole refl)
          | inr (known, k) ↦ elim (Bool-cases run.saves) [
            | inr s ↦ rw (k, s, after_push) (fails_whole refl)
            | inl s ↦
                let parts = build_delta_push-Parts r reads st scanned req b in
                let (ids, served) = send_told random_id run 0 db _ sent in
                rw (k, s, after_push)
                  (told scanned req ids parts e served (
                    subst (λ n. Knows reads' run.now n known)
                      (push_keeps reads st (λ x. x.junction_full_scan_counter) (λ a b. refl) parts)
                      (update_known-Knows reads' run.now scanned k)))
          ]
        ]

  pub delta_sync-Advance :
      (db : Db)
      → let (db', (st', end)) = delta_sync random_id r run reads reads' disk st db in
        Advance random_id r run reads reads' disk st db db' st' end
  unfolding delta_sync
  delta_sync-Advance db = elim (Fallible-split (build_delta_push r reads st)) [
    | inl (e, b) ↦ rw (b, delta_sync) (fails_whole refl)
    | inr ((scanned, req), b) ↦ elim (Bool-cases (is_empty_push req)) [
      | inl e ↦ elim (Bool-cases run.saves) [
        | inl s ↦
            rw (b, e, s, delta_sync)
              (no_news scanned req b e refl (
                empty_push-IsQuiet r reads st scanned req
                  (build_delta_push-Parts r reads st scanned req b) e))
        | inr s ↦ rw (b, e, s, delta_sync) (fails_whole refl)
      ]
      | inr e ↦
          rw (b, e, delta_sync)
            (pushed db
              (send_push random_id run 0 db
                (record req { meta = ("last_sync_at", run.now_text) ∷ [] })).0
              scanned req _ b e refl)
    ]
  ]
