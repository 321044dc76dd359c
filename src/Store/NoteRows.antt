-- ===== src/Store/NoteRows.antt =====
-- The rows of the table `notes` by their ids, which the schema declares UNIQUE.
use bear_sync.Prelude.{
  String, Bool, true, false, none, some, List, [], ◌∷◌, ◌++◌, ◌==◌, ◌≡◌, refl, sym, inl, inr, arith,
  eq_iff, str_eq_self, select, select-eq, update, delete, if◌then◌else◌, Bool-cases,
}
use mathlib.Core.Path.{subst}
use bear_sync.Models.Note.{Note}
use bear_sync.Store.Db.{note_by_id}

abbrev pub UniqueIds : List Note → Type 0
UniqueIds [] = Unit
UniqueIds (n ∷ notes) = (select (note_by_id n.id) notes ≡ none) × UniqueIds notes

absent_as :
    (n row : Note) (notes : List Note)
    → select (note_by_id n.id) notes ≡ none
    → (n.id == row.id) ≡ true
    → select (note_by_id row.id) notes ≡ none
absent_as n row notes h same =
    subst (λ k. select (note_by_id k) notes ≡ none) ((eq_iff n.id row.id).0 same) h

-- The row that any SELECT found is the row with its id.
pub select-note_by_id :
    (p : Note → Bool) (notes : List Note) {row : Note}
    → UniqueIds notes
    → select p notes ≡ some row
    → select (note_by_id row.id) notes ≡ some row
select-note_by_id p [] u h = ground arith
select-note_by_id p (n ∷ notes) {row} u h = elim (Bool-cases (p n)) [
  | inl e ↦
      subst (λ r. select (note_by_id r.id) (n ∷ notes) ≡ some r) (select-eq p n notes e h)
        (rw (str_eq_self n.id))
  | inr e ↦
      let found = select-note_by_id p notes {row = row} u.1 (rw e at h) in
      elim (Bool-cases (note_by_id row.id n)) [
        | inl same ↦ cc (found, absent_as n row notes u.0 same)
        | inr differs ↦ rw differs found
      ]
]

-- An UPDATE of rows that keep their ids.
module _ (p : Note → Bool) (f : Note → Note)
    (keeps : (n : Note) → p n ≡ true → (f n).id ≡ n.id) where
  kept_id : (n : Note) → (if p n then f n else n).id ≡ n.id
  kept_id n = ground (arith, keeps n)

  pub select-update_note :
      (k : String) (notes : List Note) {m : Note}
      → select (note_by_id k) notes ≡ some m
      → select (note_by_id k) (update p f notes) ≡ some (if p m then f m else m)
  select-update_note k [] h = ground arith
  select-update_note k (n ∷ notes) {m} h =
      ground (arith, keeps n, select-update_note k notes {m = m})

  pub select-update_note_none :
      (k : String) (notes : List Note)
      → select (note_by_id k) notes ≡ none
      → select (note_by_id k) (update p f notes) ≡ none
  select-update_note_none k [] h = refl
  select-update_note_none k (n ∷ notes) h = ground (arith, keeps n, select-update_note_none k notes)

  pub UniqueIds-update : (notes : List Note) → UniqueIds notes → UniqueIds (update p f notes)
  UniqueIds-update [] u = u
  UniqueIds-update (n ∷ notes) u = (
    subst (λ k. select (note_by_id k) (update p f notes) ≡ none) (sym (kept_id n))
        (select-update_note_none n.id notes u.0),
    UniqueIds-update notes u.1,
  )

append_none :
    (k : String) (notes : List Note) (x : Note)
    → select (note_by_id k) notes ≡ none
    → (x.id == k) ≡ false
    → select (note_by_id k) (notes ++ x ∷ []) ≡ none
append_none k [] x h d = rw d
append_none k (n ∷ notes) x h d = ground (arith, append_none k notes x)

pub UniqueIds-append :
    (notes : List Note) (x : Note)
    → select (note_by_id x.id) notes ≡ none
    → UniqueIds notes
    → UniqueIds (notes ++ x ∷ [])
UniqueIds-append [] x h u = (refl, tt)
UniqueIds-append (n ∷ notes) x h u = (
  append_none n.id notes x u.0 (ground (arith, eq_iff n.id x.id, eq_iff x.id n.id)),
  UniqueIds-append notes x (ground arith) u.1,
)

pub select-append_note :
    (k : String) (notes : List Note) (x : Note) {m : Note}
    → select (note_by_id k) notes ≡ some m
    → select (note_by_id k) (notes ++ x ∷ []) ≡ some m
select-append_note k [] x h = ground arith
select-append_note k (n ∷ notes) x {m} h = ground (arith, select-append_note k notes x {m = m})

module _ (gone : Note → Bool) where
  pub select-delete-none :
      (k : String) (notes : List Note)
      → select (note_by_id k) notes ≡ none
      → select (note_by_id k) (delete gone notes) ≡ none
  select-delete-none k [] h = refl
  select-delete-none k (n ∷ notes) h = ground (arith, select-delete-none k notes)

  pub UniqueIds-delete : (notes : List Note) → UniqueIds notes → UniqueIds (delete gone notes)
  UniqueIds-delete [] u = u
  UniqueIds-delete (n ∷ notes) u = elim (Bool-cases (gone n)) [
    | inl e ↦ rw e (UniqueIds-delete notes u.1)
    | inr e ↦ rw e (select-delete-none n.id notes u.0, UniqueIds-delete notes u.1)
  ]

  -- After a DELETE a row is gone, or is as it was.
  pub select-delete :
      (k : String) (notes : List Note) {m : Note}
      → UniqueIds notes
      → select (note_by_id k) notes ≡ some m
      → select (note_by_id k) (delete gone notes) ≡ (if gone m then none else some m)
  select-delete k [] u h = ground arith
  select-delete k (n ∷ notes) {m} u h = elim (Bool-cases (note_by_id k n)) [
    | inl e ↦
        let absent = subst (λ j. select (note_by_id j) notes ≡ none) ((eq_iff n.id k).0 e) u.0 in
        subst
          (λ x. select (note_by_id k) (delete gone (n ∷ notes)) ≡ (if gone x then none else some x))
          (select-eq (note_by_id k) n notes e h) (ground (arith, select-delete-none k notes absent))
    | inr e ↦ ground (arith, select-delete k notes {m = m} u.1)
  ]
