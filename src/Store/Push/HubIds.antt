-- ===== src/Store/Push/HubIds.antt =====
-- Proofs about the map `noteHubIDs` of `replaceNoteTags` in internal/store/sqlite.go: which note of
-- the hub each id stands for.
use bear_sync.Prelude.{
  String, Bool, true, false, not, ◌&&◌, ◌||◌, Option, none, some, List, [], ◌∷◌, ◌==◌, ◌≡◌, refl,
  sym, ap, ◌∙◌, inl, inr, arith, eq_iff, select, any, lookup, put, matches, lookup-put, Bool-cases,
  Option-cases, if◌then◌else◌,
}
use bear_sync.Models.Note.{Note}
use bear_sync.Models.Sync.{NoteTagPair}
use bear_sync.Store.Db.{Db, note_by_bear_id, note_by_either}
use bear_sync.Store.Push.NoteTags.{HubIds, add_bear_id, note_hub_ids, add_pair_id, pair_hub_ids}

abbrev pub or_else : Option String → Option String → Option String
or_else none o = o
or_else (some h) o = some h

abbrev pub id_of : Option Note → Option String
id_of none = none
id_of (some n) = some n.id

-- What one note of the request says of an id: its own id stands for itself, and its Bear id for the
-- hub's note with that Bear id.
abbrev pub by_bear : Db → Option String → String → Option String
by_bear db none k = none
by_bear db (some b) k =
    if not (b == "") && b == k then id_of (select (λ n. matches n.bear_id b) db.notes) else none

abbrev pub by_note : Db → Note → String → Option String
by_note db n k =
    or_else (if not (n.id == "") && n.id == k then some k else none) (by_bear db n.bear_id k)

-- The last note of the request that says something of the id.
abbrev pub by_notes : Db → List Note → String → Option String
by_notes db [] k = none
by_notes db (n ∷ notes) k = or_else (by_notes db notes k) (by_note db n k)

-- The hub's note for an id: as the request's notes say, or else, for an id that a pair has, the
-- hub's note which has that id or Bear id.
abbrev pub hub_id : Db → List Note → List NoteTagPair → String → Option String
hub_id db notes pairs k = or_else (by_notes db notes k) (
    if any (λ p. p.note_id == k) pairs
    then id_of (select (λ n. matches n.bear_id k || n.id == k) db.notes)
    else none)

or_else_assoc : (a b o : Option String) → or_else a (or_else b o) ≡ or_else (or_else a b) o
or_else_assoc none b o = refl
or_else_assoc (some h) b o = refl

lookup-add_bear_id :
    (db : Db) (b : Option String) (k : String) (ids : HubIds)
    → lookup k (add_bear_id db b ids) ≡ or_else (by_bear db b k) (lookup k ids)
unfolding add_bear_id
lookup-add_bear_id db none k ids = refl
lookup-add_bear_id db (some b) k ids = elim (Bool-cases (b == "")) [
  | inl e ↦ rw e refl
  | inr e ↦ elim (Option-cases (select (note_by_bear_id b) db.notes)) [
    | inl m ↦ ground (arith, e, m)
    | inr (n, m) ↦ ground (arith, e, m, lookup-put b k n.id ids)
  ]
]

lookup-by_note :
    (db : Db) (n : Note) (k : String) (ids : HubIds)
    → let ids' = add_bear_id db n.bear_id ids in
      lookup k (if n.id == "" then ids' else put n.id n.id ids')
      ≡ or_else (by_note db n k) (lookup k ids)
lookup-by_note db n k ids =
    let ids' = add_bear_id db n.bear_id ids in
    elim (Bool-cases (n.id == "")) [
      | inl e ↦ rw e (lookup-add_bear_id db n.bear_id k ids)
      | inr e ↦ elim (Bool-cases (n.id == k)) [
        | inl t ↦ rw e (lookup-put n.id k n.id ids' ∙ rw t (ap some ((eq_iff n.id k).0 t)))
        | inr t ↦ rw e (lookup-put n.id k n.id ids' ∙ rw t (lookup-add_bear_id db n.bear_id k ids))
      ]
    ]

pub lookup-note_hub_ids :
    (db : Db) (notes : List Note) (k : String) (ids : HubIds)
    → lookup k (note_hub_ids db notes ids) ≡ or_else (by_notes db notes k) (lookup k ids)
unfolding note_hub_ids
lookup-note_hub_ids db [] k ids = refl
lookup-note_hub_ids db (n ∷ notes) k ids =
    let ids' = add_bear_id db n.bear_id ids in
    lookup-note_hub_ids db notes k (if n.id == "" then ids' else put n.id n.id ids')
    ∙ ap (or_else (by_notes db notes k)) (lookup-by_note db n k ids)
    ∙ or_else_assoc (by_notes db notes k) (by_note db n k) (lookup k ids)

-- What the hub's notes say of an id that a pair has.
abbrev pub by_pairs : Db → List NoteTagPair → String → Option String
by_pairs db pairs k =
    if any (λ p. p.note_id == k) pairs then id_of (select (note_by_either k) db.notes) else none

lookup-add_pair_id :
    (db : Db) (j k : String) (ids : HubIds)
    → lookup k (add_pair_id db j ids)
      ≡ or_else (lookup k ids) (if j == k then id_of (select (note_by_either k) db.notes) else none)
unfolding add_pair_id
lookup-add_pair_id db j k ids = elim (Option-cases (lookup j ids)) [
  | inr (h, e) ↦ elim (Bool-cases (j == k)) [
    | inl t ↦
        let here : lookup k ids ≡ some h = ap (λ i. lookup i ids) (sym ((eq_iff j k).0 t)) ∙ e in
        ground (arith, e, here)
    | inr t ↦ rw (e, t, add_pair_id) (sym (or_else_none (lookup k ids)))
  ]
  | inl e ↦ elim (Option-cases (select (note_by_either j) db.notes)) [
    | inl m ↦ elim (Bool-cases (j == k)) [
      | inl t ↦
          let same = (eq_iff j k).0 t in
          let here : lookup k ids ≡ none = ap (λ i. lookup i ids) (sym same) ∙ e in
          let gone : select (note_by_either k) db.notes ≡ none =
            ap (λ i. select (note_by_either i) db.notes) (sym same) ∙ m in
          ground (arith, e, m, t, here, gone)
      | inr t ↦ rw (e, m, t, add_pair_id) (sym (or_else_none (lookup k ids)))
    ]
    | inr (n, m) ↦ elim (Bool-cases (j == k)) [
      | inl t ↦
          let same = (eq_iff j k).0 t in
          let here : lookup k ids ≡ none = ap (λ i. lookup i ids) (sym same) ∙ e in
          let got : select (note_by_either k) db.notes ≡ some n =
            ap (λ i. select (note_by_either i) db.notes) (sym same) ∙ m in
          rw (e, m, t, here, got, add_pair_id) (lookup-put j k n.id ids ∙ rw t refl)
      | inr t ↦
          rw (e, m, t, add_pair_id)
            (lookup-put j k n.id ids ∙ rw t (sym (or_else_none (lookup k ids))))
    ]
  ]
]
  where
    or_else_none : (o : Option String) → or_else o none ≡ o
    or_else_none none = refl
    or_else_none (some h) = refl

lookup-pair_hub_ids :
    (db : Db) (pairs : List NoteTagPair) (k : String) (ids : HubIds)
    → lookup k (pair_hub_ids db pairs ids) ≡ or_else (lookup k ids) (by_pairs db pairs k)
unfolding pair_hub_ids
lookup-pair_hub_ids db [] k ids = by_case (lookup k ids)
  where
    by_case : (o : Option String) → o ≡ or_else o none
    by_case none = refl
    by_case (some h) = refl
lookup-pair_hub_ids db (p ∷ pairs) k ids =
    lookup-pair_hub_ids db pairs k (add_pair_id db p.note_id ids)
    ∙ ap (λ o. or_else o (by_pairs db pairs k)) (lookup-add_pair_id db p.note_id k ids)
    ∙ by_case (lookup k ids) (p.note_id == k) (any (λ x. x.note_id == k) pairs)
        (id_of (select (note_by_either k) db.notes))
  where
    by_case :
        (o : Option String) (b c : Bool) (h : Option String)
        → or_else (or_else o (if b then h else none)) (if c then h else none)
          ≡ or_else o (if b || c then h else none)
    by_case (some x) b c h = refl
    by_case none true true none = refl
    by_case none true true (some x) = refl
    by_case none true false none = refl
    by_case none true false (some x) = refl
    by_case none false c h = refl

-- The map gives each id what `hub_id` says.
pub lookup-hub_ids :
    (db : Db) (notes : List Note) (pairs : List NoteTagPair) (k : String)
    → lookup k (pair_hub_ids db pairs (note_hub_ids db notes [])) ≡ hub_id db notes pairs k
lookup-hub_ids db notes pairs k =
    lookup-pair_hub_ids db pairs k (note_hub_ids db notes [])
    ∙ ap (λ o. or_else o (by_pairs db pairs k)) (lookup-note_hub_ids db notes k [] ∙ nothing_else)
  where
    by_case : (o : Option String) → or_else o none ≡ o
    by_case none = refl
    by_case (some h) = refl

    nothing_else : or_else (by_notes db notes k) none ≡ by_notes db notes k
    nothing_else = by_case (by_notes db notes k)
