-- ===== src/Api/Meta.antt =====
-- Proofs about `syncPush` of internal/api/sync_handler.go and the metadata of the hub.
use bear_sync.Prelude.{
  ℕ, String, Option, none, some, List, [], ◌∷◌, ◌==◌, ◌≡◌, refl, sym, ap, ◌∙◌, inl, inr, arith,
  eq_iff, lookup-put, ok, Bool-cases, Result-cases, if◌then◌else◌, str_eq_sym,
}
use bear_sync.Models.Sync.{SyncPushRequest}
use bear_sync.Store.Db.{Db}
use bear_sync.Store.Push.{process_sync_push, apply_deletes}
use bear_sync.Store.Push.Deletes.{
  fail_queue_items_for_deleted_notes, delete_notes, remove_notes, delete_tags, delete_attachments,
  delete_backlinks,
}
use bear_sync.Store.Push.Whole.{process_sync_push-Stages}
use bear_sync.Api.SyncHandlers.{
  get_sync_meta, set_sync_meta, set_meta, replies, accepted, sync_push,
}

-- The last value that a list of members gives a key.
abbrev pub last_value : String → List (String × String) → Option String
last_value k [] = none
last_value k ((j, v) ∷ meta) = elim (last_value k meta) [
  | none ↦ if j == k then some v else none
  | some w ↦ some w
]

-- The value of `k` in the metadata after a push of `meta` at the time `now`.
abbrev pub meta_after : Db → String → List (String × String) → String → String
unfolding get_sync_meta
meta_after db now meta k =
    if k == "last_push_at"
    then now
    else elim (last_value k meta) [ none ↦ get_sync_meta db k | some v ↦ v ]

get-set :
    (db : Db) (j v k : String)
    → get_sync_meta (set_sync_meta db j v) k ≡ (if j == k then v else get_sync_meta db k)
unfolding get_sync_meta set_sync_meta
get-set db j v k = ground (arith, lookup-put j k v db.sync_meta)

get-set_meta :
    (db : Db) (meta : List (String × String)) (k : String)
    → get_sync_meta (set_meta db meta) k ≡ (
        if k == "last_push_at"
        then get_sync_meta db k
        else elim (last_value k meta) [ none ↦ get_sync_meta db k | some v ↦ v ])
unfolding set_meta
get-set_meta db [] k = ground arith
get-set_meta db ((j, v) ∷ meta) k = elim (Bool-cases (j == "last_push_at")) [
  | inl e ↦ elim (Bool-cases (j == k)) [
    | inl t ↦
        let last =
          (eq_iff k "last_push_at").1 (sym ((eq_iff j k).0 t) ∙ (eq_iff j "last_push_at").0 e) in
        ground (arith, last, get-set_meta db meta k)
    | inr t ↦ ground (arith, get-set_meta db meta k)
  ]
  | inr e ↦ elim (Bool-cases (j == k)) [
    | inl t ↦
        let other = ap (λ x. x == "last_push_at") (sym ((eq_iff j k).0 t)) ∙ e in
        ground (arith, other, get-set_meta (set_sync_meta db j v) meta k, get-set db j v k)
    | inr t ↦ ground (arith, get-set_meta (set_sync_meta db j v) meta k, get-set db j v k)
  ]
]

meta-apply_deletes :
    (req : SyncPushRequest) (db : Db) → (apply_deletes req db).sync_meta ≡ db.sync_meta
unfolding apply_deletes delete_notes remove_notes fail_queue_items_for_deleted_notes delete_tags
    delete_attachments delete_backlinks
meta-apply_deletes req db = refl

get-process_sync_push :
    (random_id : ℕ → String) (db : Db) (req : SyncPushRequest) (k : String) {db' : Db}
    → process_sync_push random_id db req ≡ ok db'
    → get_sync_meta db' k ≡ get_sync_meta db k
unfolding get_sync_meta
get-process_sync_push random_id db req k {db'} run =
    let s = process_sync_push-Stages random_id db req run in
    let same =
      ap (λ (d : Db). d.sync_meta) (sym s.ends) ∙ meta-apply_deletes req s.before ∙ s.same_meta in
    rw same refl

-- After a push that is accepted, last_push_at is the time of the push, whatever the request says,
-- and every other key of the metadata has the last value that the request gives it, or, without
-- one, the value that it had.
pub sync_push-meta_after :
    (random_id : ℕ → String) (db : Db) (now : String) (req : SyncPushRequest) (k : String)
    {db' : Db} {ids : List String}
    → sync_push random_id db now (some req) ≡ (db', replies accepted, ids)
    → get_sync_meta db' k ≡ meta_after db now req.meta k
unfolding sync_push meta_after
sync_push-meta_after random_id db now req k {db'} {ids} run =
    elim (Result-cases (process_sync_push random_id db req)) [
      | inl (d, e) ↦
          let saved = set_sync_meta d "last_push_at" now in
          ap (λ x. get_sync_meta x k) {x = db'} {y = set_meta saved req.meta} (ground arith)
          ∙ get-set_meta saved req.meta k
          ∙ ground (
            arith,
            str_eq_sym "last_push_at" k,
            get-set d "last_push_at" now k,
            get-process_sync_push random_id db req k e,
          )
      | inr (e, h) ↦ ground arith
    ]
