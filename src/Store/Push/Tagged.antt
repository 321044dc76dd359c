-- ===== src/Store/Push/Tagged.antt =====
-- Proofs about what `replaceNoteTags` of internal/store/sqlite.go leaves in a junction table.
use bear_sync.Prelude.{
  ◌↔◌, ◌⊎◌, matches, String, Bool, true, false, not, ◌&&◌, ◌||◌, Option, none, some, List, [], ◌∷◌,
  ◌++◌, ◌==◌, ◌≡◌, refl, sym, ap, ◌∙◌, inl, inr, arith, eq_iff, select, delete, any, lookup, ok,
  ok_injective, >>=-eq-ok, Bool-cases, Option-cases, if◌then◌else◌,
}
use bear_sync.Models.Note.{Note}
use bear_sync.Models.Tag.{Tag}
use bear_sync.Models.Sync.{NoteTagPair}
use bear_sync.Store.Db.{Db, note_by_id}
use bear_sync.Store.Push.HubIds.{hub_id, lookup-hub_ids}
use bear_sync.Store.Push.Replaced.{values_iff}
use bear_sync.Store.Push.NoteTags.{
  HubIds, note_hub_ids, pair_hub_ids, tag_by_either, same_pair, insert_or_ignore, insert_pair,
  insert_note_tag_pairs, is_replaced, replace_note_tags,
}

-- Whether a junction table has a row.
abbrev pub has_row : NoteTagPair → List NoteTagPair → Bool
has_row r = any (λ q. q.note_id == r.note_id && q.tag_id == r.tag_id)

-- The row that a pair stands for, where `hub` gives the hub's note for an id: none for the pair that
-- only clears, and none where the hub does not have the note or the tag.
abbrev pub row_of_tag : String → Option Tag → Option NoteTagPair
row_of_tag note none = none
row_of_tag note (some t) = some (record { note_id = note; tag_id = t.id })

abbrev pub row_of_note : Db → String → Option String → Option NoteTagPair
row_of_note db tag none = none
row_of_note db tag (some note) =
    row_of_tag note (select (λ t. matches t.bear_id tag || t.id == tag) db.tags)

abbrev pub row_of : Db → (String → Option String) → NoteTagPair → Option NoteTagPair
row_of db hub p = if p.tag_id == "" then none else row_of_note db p.tag_id (hub p.note_id)

abbrev pub is_row : NoteTagPair → Option NoteTagPair → Bool
is_row r none = false
is_row r (some q) = q.note_id == r.note_id && q.tag_id == r.tag_id

abbrev pub stands_for : Db → (String → Option String) → NoteTagPair → NoteTagPair → Bool
stands_for db hub r p = is_row r (row_of db hub p)

same_pair_trans : (r q x : NoteTagPair) → same_pair r q ≡ true → same_pair q x ≡ same_pair r x
same_pair_trans r q x h =
    let note = (eq_iff q.note_id r.note_id).0 (ground (arith, h)) in
    let tag = (eq_iff q.tag_id r.tag_id).0 (ground (arith, h)) in
    ap (λ n. x.note_id == n && x.tag_id == q.tag_id) note
    ∙ ap (λ t. x.note_id == r.note_id && x.tag_id == t) tag

any-same_pair :
    (r q : NoteTagPair) (rows : List NoteTagPair)
    → same_pair r q ≡ true
    → any (same_pair q) rows ≡ any (same_pair r) rows
any-same_pair r q [] h = refl
any-same_pair r q (x ∷ rows) h = ground (arith, same_pair_trans r q x h, any-same_pair r q rows h)

any-append_one :
    (r q : NoteTagPair) (rows : List NoteTagPair)
    → any (same_pair r) (rows ++ q ∷ []) ≡ (any (same_pair r) rows || same_pair r q)
any-append_one r q [] = ground arith
any-append_one r q (x ∷ rows) = ground (arith, any-append_one r q rows)

any-insert_or_ignore :
    (db : Db) (q r : NoteTagPair) (rows : List NoteTagPair) {rows' : List NoteTagPair}
    → insert_or_ignore db q rows ≡ ok rows'
    → any (same_pair r) rows' ≡ (any (same_pair r) rows || same_pair r q)
unfolding insert_or_ignore
any-insert_or_ignore db q r rows {rows'} run = elim (Bool-cases (any (same_pair q) rows)) [
  | inl e ↦
      let same : rows ≡ rows' = ground (arith, run, e) in
      ap (any (same_pair r)) (sym same) ∙ ground (arith, any-same_pair r q rows, e)
  | inr e ↦ elim (Bool-cases (any (note_by_id q.note_id) db.notes)) [
    | inl g ↦
        let same : rows ++ q ∷ [] ≡ rows' = ground (arith, run, e, g) in
        ap (any (same_pair r)) (sym same) ∙ any-append_one r q rows
    | inr g ↦ ground (arith, run, e, g)
  ]
]

any-delete :
    (ids : HubIds) (r : NoteTagPair) (rows : List NoteTagPair)
    → any (same_pair r) (delete (is_replaced ids) rows)
      ≡ (any (same_pair r) rows && not (is_replaced ids r))
any-delete ids r [] = refl
any-delete ids r (x ∷ rows) = elim (Bool-cases (same_pair r x)) [
  | inl e ↦
      let same : is_replaced ids x ≡ is_replaced ids r =
        ap (λ n. any (λ i. n == i.1) ids) ((eq_iff x.note_id r.note_id).0 (ground (arith, e))) in
      elim (Bool-cases (is_replaced ids x)) [
        | inl g ↦ rw (e, g) (any-delete ids r rows ∙ both (any (same_pair r) rows) (sym same ∙ g))
        | inr g ↦ ground (arith, e, g, sym same ∙ g)
      ]
  | inr e ↦ elim (Bool-cases (is_replaced ids x)) [
    | inl g ↦ rw (e, g) (any-delete ids r rows)
    | inr g ↦ ground (arith, e, g, any-delete ids r rows)
  ]
]
  where
    both : (b : Bool) {g : Bool} → g ≡ true → (b && not g) ≡ not g
    both b h = ground (arith, h)

module _ (db : Db) (ids : HubIds) (r : NoteTagPair) where
  any-insert_pair :
      (p : NoteTagPair) (rows : List NoteTagPair) {rows' : List NoteTagPair}
      → insert_pair db ids rows p ≡ ok rows'
      → any (same_pair r) rows' ≡ (any (same_pair r) rows || stands_for db (λ k. lookup k ids) r p)
  unfolding insert_pair
  any-insert_pair p rows {rows'} run = elim (Bool-cases (p.tag_id == "")) [
    | inl e ↦ stays (ok_injective (rw (e, insert_pair) at run)) (rw (e, stands_for, row_of) refl)
    | inr e ↦ elim (Option-cases (lookup p.note_id ids)) [
      | inl n ↦
          stays (ok_injective (rw (e, n, insert_pair) at run)) (rw (e, n, stands_for, row_of) refl)
      | inr (note, n) ↦ elim (Option-cases (select (tag_by_either p.tag_id) db.tags)) [
        | inl t ↦
            stays (ok_injective (rw (e, n, t, insert_pair) at run))
              (rw (e, n, t, stands_for, row_of) refl)
        | inr (tag, t) ↦
            let q : NoteTagPair = record { note_id = note; tag_id = tag.id } in
            any-insert_or_ignore db q r rows (rw (e, n, t, insert_pair) at run)
            ∙ ap (λ b. any (same_pair r) rows || b) {x = same_pair r q}
                {y = stands_for db (λ k. lookup k ids) r p} (rw (e, n, t, stands_for, row_of) refl)
      ]
    ]
  ]
    where
      stays :
          rows ≡ rows'
          → stands_for db (λ k. lookup k ids) r p ≡ false
          → any (same_pair r) rows'
            ≡ (any (same_pair r) rows || stands_for db (λ k. lookup k ids) r p)
      stays same never = rw (never, sym same) (ground arith)

  any-insert_pairs :
      (pairs rows : List NoteTagPair) {rows' : List NoteTagPair}
      → insert_note_tag_pairs db ids rows pairs ≡ ok rows'
      → any (same_pair r) rows'
        ≡ (any (same_pair r) rows || any (stands_for db (λ k. lookup k ids) r) pairs)
  unfolding insert_note_tag_pairs
  any-insert_pairs [] rows run = ground (arith, ok_injective run)
  any-insert_pairs (p ∷ pairs) rows run =
      let (next, one, rest) =
        >>=-eq-ok (insert_pair db ids rows p) (λ x. insert_note_tag_pairs db ids x pairs) run in
      ground (arith, any-insert_pair p rows one, any-insert_pairs pairs next rest)

any-stands_for :
    (db : Db) (r : NoteTagPair) (hub hub' : String → Option String)
    → ((k : String) → hub k ≡ hub' k)
    → (pairs : List NoteTagPair)
    → any (stands_for db hub r) pairs ≡ any (stands_for db hub' r) pairs
any-stands_for db r hub hub' same [] = refl
any-stands_for db r hub hub' same (p ∷ pairs) =
    ap (λ b. b || any (stands_for db hub r) pairs)
      (ap (λ o. is_row r (if p.tag_id == "" then none else row_of_note db p.tag_id o))
        (same p.note_id))
    ∙ ap (λ b. stands_for db hub' r p || b) (any-stands_for db r hub hub' same pairs)

kept_or_new :
    (out had gone new : Bool) {Gone : Type 0}
    → out ≡ ((had && not gone) || new)
    → ((gone ≡ true) ↔ Gone)
    → (out ≡ true) ↔ (((had ≡ true) × ¬ Gone) ⊎ (new ≡ true))
kept_or_new out had gone new e g =
    (λ t. split had gone new (sym e ∙ t) g, λ s. e ∙ join had gone new s g)
  where
    split :
        (had gone new : Bool) {Gone : Type 0}
        → ((had && not gone) || new) ≡ true
        → ((gone ≡ true) ↔ Gone)
        → ((had ≡ true) × ¬ Gone) ⊎ (new ≡ true)
    split true false new t g = inl (refl, λ x. cc (g.1 x))
    split true true true t g = inr refl
    split true true false t g = cc
    split false gone true t g = inr refl
    split false gone false t g = cc

    join :
        (had gone new : Bool) {Gone : Type 0}
        → (((had ≡ true) × ¬ Gone) ⊎ (new ≡ true))
        → ((gone ≡ true) ↔ Gone)
        → ((had && not gone) || new) ≡ true
    join true false new s g = refl
    join true true true s g = refl
    join true true false (inl s) g = absurd (s.1 (g.0 refl))
    join true true false (inr s) g = s
    join false gone new (inl s) g = cc
    join false gone new (inr s) g = s

-- When replaceNoteTags succeeds, the junction table has a row exactly if it had it and no id
-- stands for its note, or if one of the pairs stands for it: a pair with a tag, whose ids the hub
-- can both resolve. An id stands for a note as the last note of the request says that names it,
-- by its own id or by its Bear id, or else, if a pair has it, for the hub's note which has this
-- id or Bear id.
pub replace_note_tags_iff :
    (db : Db) (rows : List NoteTagPair) (notes : List Note) (pairs : List NoteTagPair)
    {rows' : List NoteTagPair} (r : NoteTagPair)
    → replace_note_tags db rows notes pairs ≡ ok rows'
    → (has_row r rows' ≡ true) ↔ (
        ((has_row r rows ≡ true) × ¬ ((k : String) × (hub_id db notes pairs k ≡ some r.note_id)))
        ⊎ (any (stands_for db (hub_id db notes pairs) r) pairs ≡ true))
unfolding replace_note_tags
replace_note_tags_iff db rows notes pairs r run =
    let ids = pair_hub_ids db pairs (note_hub_ids db notes []) in
    kept_or_new _ (has_row r rows) (is_replaced ids r) _
      (any-insert_pairs db ids r pairs (delete (is_replaced ids) rows) run
        ∙ ap (λ b. b || any (stands_for db (λ k. lookup k ids) r) pairs) (any-delete ids r rows)
        ∙ ap (λ b. (has_row r rows && not (is_replaced ids r)) || b)
            (any-stands_for db r (λ k. lookup k ids) (hub_id db notes pairs)
              (lookup-hub_ids db notes pairs) pairs))
      (values_iff db notes pairs r.note_id)
