-- ===== src/Store/Push/Replaced.antt =====
-- Proofs about the values of the map `noteHubIDs` of `replaceNoteTags` in internal/store/sqlite.go:
-- the notes whose rows are replaced.
use bear_sync.Prelude.{
  String, true, Option, none, some, List, [], ◌∷◌, ◌==◌, ◌≡◌, ◌↔◌, refl, sym, ap, ◌∙◌, inl, inr,
  arith, eq_iff, str_eq_self, str_eq_sym, some_injective, select, any, lookup, put, lookup-put,
  Bool-cases, Option-cases, if◌then◌else◌,
}
use bear_sync.Models.Note.{Note}
use bear_sync.Models.Sync.{NoteTagPair}
use bear_sync.Store.Db.{Db, note_by_bear_id, note_by_either}
use bear_sync.Store.Push.NoteTags.{HubIds, add_bear_id, note_hub_ids, add_pair_id, pair_hub_ids}
use bear_sync.Store.Push.HubIds.{hub_id, lookup-hub_ids}

-- No two entries of the map have the same key.
abbrev DistinctKeys : HubIds → Type 0
DistinctKeys [] = Unit
DistinctKeys (e ∷ ids) = (lookup e.0 ids ≡ none) × DistinctKeys ids

put-DistinctKeys : (k h : String) (ids : HubIds) → DistinctKeys ids → DistinctKeys (put k h ids)
put-DistinctKeys k h [] d = (refl, tt)
put-DistinctKeys k h ((j, v) ∷ ids) d = elim (Bool-cases (j == k)) [
  | inl t ↦ rw t (ap (λ i. lookup i ids) (sym ((eq_iff j k).0 t)) ∙ d.0, d.1)
  | inr t ↦ rw t (lookup-put k j h ids ∙ rw (str_eq_sym k j ∙ t) d.0, put-DistinctKeys k h ids d.1)
]

add_bear_id-DistinctKeys :
    (db : Db) (b : Option String) (ids : HubIds)
    → DistinctKeys ids
    → DistinctKeys (add_bear_id db b ids)
unfolding add_bear_id
add_bear_id-DistinctKeys db none ids d = d
add_bear_id-DistinctKeys db (some b) ids d = elim (Bool-cases (b == "")) [
  | inl e ↦ rw e d
  | inr e ↦ elim (Option-cases (select (note_by_bear_id b) db.notes)) [
    | inl m ↦ rw (e, m) d
    | inr (n, m) ↦ rw (e, m) (put-DistinctKeys b n.id ids d)
  ]
]

note_hub_ids-DistinctKeys :
    (db : Db) (notes : List Note) (ids : HubIds)
    → DistinctKeys ids
    → DistinctKeys (note_hub_ids db notes ids)
unfolding note_hub_ids
note_hub_ids-DistinctKeys db [] ids d = d
note_hub_ids-DistinctKeys db (n ∷ notes) ids d =
    let ids' = add_bear_id db n.bear_id ids in
    let d' = add_bear_id-DistinctKeys db n.bear_id ids d in
    note_hub_ids-DistinctKeys db notes (if n.id == "" then ids' else put n.id n.id ids')
      (elim (Bool-cases (n.id == "")) [
        | inl e ↦ rw e d'
        | inr e ↦ rw e (put-DistinctKeys n.id n.id ids' d')
      ])

add_pair_id-DistinctKeys :
    (db : Db) (k : String) (ids : HubIds) → DistinctKeys ids → DistinctKeys (add_pair_id db k ids)
unfolding add_pair_id
add_pair_id-DistinctKeys db k ids d = elim (Option-cases (lookup k ids)) [
  | inr (h, e) ↦ rw (e, add_pair_id) d
  | inl e ↦ elim (Option-cases (select (note_by_either k) db.notes)) [
    | inl m ↦ rw (e, m, add_pair_id) d
    | inr (n, m) ↦ rw (e, m, add_pair_id) (put-DistinctKeys k n.id ids d)
  ]
]

pair_hub_ids-DistinctKeys :
    (db : Db) (pairs : List NoteTagPair) (ids : HubIds)
    → DistinctKeys ids
    → DistinctKeys (pair_hub_ids db pairs ids)
unfolding pair_hub_ids
pair_hub_ids-DistinctKeys db [] ids d = d
pair_hub_ids-DistinctKeys db (p ∷ pairs) ids d =
    pair_hub_ids-DistinctKeys db pairs (add_pair_id db p.note_id ids)
      (add_pair_id-DistinctKeys db p.note_id ids d)

-- A value of the map is what one of its keys has.
value-lookup :
    (h : String) (ids : HubIds)
    → DistinctKeys ids
    → any (λ e. h == e.1) ids ≡ true
    → (k : String) × (lookup k ids ≡ some h)
value-lookup h [] d t = cc
value-lookup h ((j, v) ∷ ids) d t = elim (Bool-cases (h == v)) [
  | inl e ↦ (j, rw (str_eq_self j) (ap some (sym ((eq_iff h v).0 e))))
  | inr e ↦
      let (k, got) = value-lookup h ids d.1 (rw e at t) in
      elim (Bool-cases (j == k)) [
        | inl same ↦ cc (got, ap (λ i. lookup i ids) (sym ((eq_iff j k).0 same)) ∙ d.0)
        | inr other ↦ (k, rw other got)
      ]
]

lookup-value :
    (k h : String) (ids : HubIds) → lookup k ids ≡ some h → any (λ e. h == e.1) ids ≡ true
lookup-value k h [] e = cc
lookup-value k h ((j, v) ∷ ids) e = elim (Bool-cases (j == k)) [
  | inl t ↦ let same : v ≡ h = some_injective (rw t at e) in rw ((eq_iff h v).1 (sym same)) refl
  | inr t ↦ ground (arith, lookup-value k h ids (rw t at e))
]

-- The values of the map are the notes that some id stands for.
pub values_iff :
    (db : Db) (notes : List Note) (pairs : List NoteTagPair) (h : String)
    → (any (λ e. h == e.1) (pair_hub_ids db pairs (note_hub_ids db notes [])) ≡ true)
      ↔ ((k : String) × (hub_id db notes pairs k ≡ some h))
values_iff db notes pairs h =
    let ids = pair_hub_ids db pairs (note_hub_ids db notes []) in
    let distinct =
      pair_hub_ids-DistinctKeys db pairs (note_hub_ids db notes [])
        (note_hub_ids-DistinctKeys db notes [] tt) in
    (
      λ t.
          let (k, got) = value-lookup h ids distinct t in
          (k, sym (lookup-hub_ids db notes pairs k) ∙ got),
      λ r. lookup-value r.0 h ids (lookup-hub_ids db notes pairs r.0 ∙ r.1),
    )
