-- ===== src/Api/WriteBack.antt =====
-- Proofs that a second UPDATE by `UpdateNote` of internal/store/sqlite.go, with the old note, undoes
-- the first, as the handlers of internal/api/notes_handler.go do where `EnqueueWrite` fails.
use bear_sync.Prelude.{
  String, Bool, true, false, not, ◌&&◌, Option, none, some, List, [], ◌∷◌, ◌==◌, ◌≡◌, refl, sym, ap,
  ◌∙◌, inl, inr, arith, eq_iff, str_eq_self, str_eq_sym, select, select-eq, update, any, ok, err,
  unique_violation, ok_injective, if◌then◌else◌, Bool-cases,
}
use mathlib.Core.Path.{subst}
use bear_sync.Models.Note.{Note}
use bear_sync.Store.Db.{Db, note_by_id, note_by_bear_id}
use bear_sync.Store.NoteRows.{UniqueIds, select-update_note}
use bear_sync.Store.NoteTable.{get_note, update_note, bear_id_taken}

update_absent :
    (k : String) (f : Note → Note) (notes : List Note)
    → select (note_by_id k) notes ≡ none
    → update (note_by_id k) f notes ≡ notes
update_absent k f [] h = refl
update_absent k f (x ∷ notes) h = ground (arith, update_absent k f notes)

-- An UPDATE of the row with an id leaves the rows with other ids.
select-update_other :
    (k j : String) (x : Note) (notes : List Note)
    → x.id ≡ k
    → (j == k) ≡ false
    → select (note_by_id j) (update (note_by_id k) (λ _. x) notes) ≡ select (note_by_id j) notes
select-update_other k j x [] e d = refl
select-update_other k j x (n ∷ notes) e d = elim (Bool-cases (note_by_id k n)) [
  | inl t ↦
      let other : (k == j) ≡ false = str_eq_sym k j ∙ d in
      let old : note_by_id j n ≡ false = ap (λ i. i == j) ((eq_iff n.id k).0 t) ∙ other in
      let new : note_by_id j x ≡ false = ap (λ i. i == j) e ∙ other in
      rw (t, old, new) (select-update_other k j x notes e d)
  | inr t ↦ ground (arith, t, select-update_other k j x notes e d)
]

-- A second UPDATE that writes the old row back undoes the first.
undo_update :
    (n x : Note) (notes : List Note)
    → x.id ≡ n.id
    → UniqueIds notes
    → select (note_by_id n.id) notes ≡ some n
    → update (note_by_id n.id) (λ _. n) (update (note_by_id n.id) (λ _. x) notes) ≡ notes
undo_update n x [] e u h = cc
undo_update n x (m ∷ notes) e u h = elim (Bool-cases (note_by_id n.id m)) [
  | inl t ↦
      let here : m ≡ n = select-eq (note_by_id n.id) m notes t h in
      let absent : select (note_by_id n.id) notes ≡ none =
        subst (λ k. select (note_by_id k) notes ≡ none) (ap (λ (y : Note). y.id) here) u.0 in
      let again : note_by_id n.id x ≡ true = ap (λ k. k == n.id) e ∙ str_eq_self n.id in
      rw (t, again)
        (ap (λ rows. n ∷ update (note_by_id n.id) (λ _. n) rows)
            (update_absent n.id (λ _. x) notes absent)
          ∙ ap (λ rows. n ∷ rows) (update_absent n.id (λ _. n) notes absent)
          ∙ ap (λ y. y ∷ notes) (sym here))
  | inr t ↦ rw (t, t) (ap (λ rows. m ∷ rows) (undo_update n x notes e u.1 (rw t at h)))
]

taken_update :
    (n x : Note) (notes : List Note)
    → x.id ≡ n.id
    → any (bear_id_taken n) (update (note_by_id n.id) (λ _. x) notes) ≡ any (bear_id_taken n) notes
taken_update n x [] e = refl
taken_update n x (m ∷ notes) e = elim (Bool-cases (note_by_id n.id m)) [
  | inl t ↦
      let again : note_by_id n.id x ≡ true = ap (λ k. k == n.id) e ∙ str_eq_self n.id in
      ground (arith, t, again, taken_update n x notes e)
  | inr t ↦ ground (arith, t, taken_update n x notes e)
]

any_found :
    (k : String) (notes : List Note) {n : Note}
    → select (note_by_id k) notes ≡ some n
    → any (note_by_id k) notes ≡ true
any_found k [] h = cc
any_found k (x ∷ notes) {n} h = ground (arith, any_found k notes {n = n})

abbrev taken_by : Option String → String → Note → Bool
taken_by b k m = elim b [ none ↦ false | some c ↦ note_by_bear_id c m ] && not (note_by_id k m)

-- The write of a changed note, with the same ids, is undone by the write of the old note.
module _ (db : Db) (n x : Note) (same_id : x.id ≡ n.id) (same_bear : x.bear_id ≡ n.bear_id)
    (found : select (note_by_id n.id) db.notes ≡ some n) {saved : Db}
    (run : update_note db x ≡ ok saved) where
  abbrev changed_rows : List Note
  changed_rows = update (note_by_id n.id) (λ _. x) db.notes

  written : (any (bear_id_taken n) db.notes ≡ false) × (saved ≡ record db { notes = changed_rows })
  unfolding update_note
  written =
      let taken : any (bear_id_taken x) db.notes ≡ any (bear_id_taken n) db.notes =
        ap (λ b. any (taken_by b x.id) db.notes) same_bear
        ∙ ap (λ k. any (taken_by n.bear_id k) db.notes) same_id in
      let here : any (note_by_id x.id) db.notes ≡ true =
        ap (λ k. any (note_by_id k) db.notes) same_id ∙ any_found n.id db.notes found in
      elim (Bool-cases (any (bear_id_taken x) db.notes)) [
        | inl t ↦ cc (rw (here, t, update_note) at run)
        | inr t ↦ (
          sym taken ∙ t,
          sym (ok_injective (rw (here, t, update_note) at run))
              ∙ ap (λ k. record db { notes = update (note_by_id k) (λ _. x) db.notes }) same_id,
        )
      ]

  pub write_back : UniqueIds db.notes → update_note saved n ≡ ok db
  unfolding update_note
  write_back u =
      let (free, same) = written in
      let still : any (bear_id_taken n) changed_rows ≡ false =
        taken_update n x db.notes same_id ∙ free in
      ap (λ d. update_note d n) same
      ∙ rw (still, update_note)
          (by_found (any (note_by_id n.id) changed_rows) (
            ap (λ rows. ok (record db { notes = rows }))
              (undo_update n x db.notes same_id u found)))
    where
      by_found :
          (b : Bool)
          → ok (record db { notes = update (note_by_id n.id) (λ _. n) changed_rows }) ≡ ok db
          → (if b && false
              then err unique_violation
              else ok (record db { notes = update (note_by_id n.id) (λ _. n) changed_rows }))
            ≡ ok db
      by_found true e = e
      by_found false e = e

  pub get_written : get_note saved n.id ≡ some x
  unfolding get_note
  get_written =
      ap (λ (d : Db). select (note_by_id n.id) d.notes) written.1
      ∙ select-update_note (note_by_id n.id) (λ _. x)
          (λ m t. same_id ∙ sym ((eq_iff m.id n.id).0 t)) n.id db.notes found
      ∙ rw (str_eq_self n.id) refl

  pub get_other : (j : String) → (j == n.id) ≡ false → get_note saved j ≡ get_note db j
  unfolding get_note
  get_other j d =
      ap (λ (y : Db). select (note_by_id j) y.notes) written.1
      ∙ select-update_other n.id j x db.notes same_id d
