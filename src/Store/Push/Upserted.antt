-- ===== src/Store/Push/Upserted.antt =====
-- Proofs about `upsertNote` of internal/store/sqlite.go: what one call leaves of the table.
use bear_sync.Prelude.{
  ℕ, String, true, false, Option, none, some, List, [], ◌∷◌, ◌++◌, ◌==◌, ◌≡◌, refl, sym, ◌∙◌, inl,
  inr, ◌⊎◌, arith, eq_iff, select, select_of_any, update, any, if◌then◌else◌, Bool-cases,
  Option-cases, Result, ok,
}
use mathlib.Core.Path.{subst}
use bear_sync.Models.Note.{Note}
use bear_sync.Store.Db.{Db, note_by_id, note_by_bear_id}
use bear_sync.Store.NoteRows.{
  UniqueIds, select-note_by_id, UniqueIds-update, UniqueIds-append, select-append_note,
}
use bear_sync.Store.Push.Notes.{
  is_pending_to_bear, update_pending, overwrite, update_existing_note, clashes, insert_new_note,
  find_by_bear_id, upsert_note,
}
use bear_sync.Store.Push.Kept.{
  Kept, Kept-refl, Kept-update_pending, Kept-overwrite, Follows, Follows-update, same_row,
}

-- What one upsert leaves of the table.
pub record Upserted (notes notes' : List Note) : Type 0 where
  pub unique : UniqueIds notes'
  pub follows : (k : String) (m : Note) → select (note_by_id k) notes ≡ some m → Follows k m notes'

module _ (notes : List Note) (u : UniqueIds notes) where
  Upserted-replace :
      (row x : Note)
      → select (note_by_id row.id) notes ≡ some row
      → x.id ≡ row.id
      → Kept row x
      → Upserted notes (update (note_by_id row.id) (λ _. x) notes)
  Upserted-replace row x hr same kept =
      let keeps =
        λ (n : Note) (e : note_by_id row.id n ≡ true). same ∙ sym ((eq_iff n.id row.id).0 e) in
      record {
        unique = UniqueIds-update (note_by_id row.id) (λ _. x) keeps notes u;
        follows = λ k m hm.
            Follows-update k (note_by_id row.id) (λ _. x) notes keeps
              (λ e. subst (λ r. Kept r x) (same_row k notes hr hm e) kept) hm;
      }

  Upserted-append : (x : Note) → any (clashes x) notes ≡ false → Upserted notes (notes ++ x ∷ [])
  Upserted-append x free = record {
    unique =
        UniqueIds-append notes x
          (select_of_any (note_by_id x.id) (clashes x) notes (λ n e. rw e) free) u;
    follows =
        λ k m hm. record { later = m; found = select-append_note k notes x hm; kept = Kept-refl m };
  }

  update_existing-Upserted :
      (note row : Note)
      → select (note_by_id row.id) notes ≡ some row
      → Upserted notes (update_existing_note notes note row).0
  unfolding update_existing_note
  update_existing-Upserted note row hr = elim (Bool-cases (is_pending_to_bear row.sync_status)) [
    | inl p ↦ rw p (
        Upserted-replace row (update_pending note row) hr (unfold update_pending in refl)
          (Kept-update_pending note row (ground arith)))
    | inr p ↦ rw p (
        Upserted-replace row (overwrite note row) hr (unfold overwrite in refl)
          (Kept-overwrite note row p))
  ]

found_by_id :
    (b : Option String) (notes : List Note) {row : Note}
    → UniqueIds notes
    → find_by_bear_id b notes ≡ some row
    → select (note_by_id row.id) notes ≡ some row
found_by_id none notes u h = cc
found_by_id (some b) notes {row} u h =
    select-note_by_id (note_by_bear_id b) notes {row = row} u (ground arith)

module _ (random_id : ℕ → String) (db : Db) (note : Note) where
  upsert_inserts :
      (find_by_bear_id note.bear_id db.notes ≡ none)
        ⊎ ((row : Note) × (find_by_bear_id note.bear_id db.notes ≡ some row)
            × ((row.id == "") ≡ true))
      → upsert_note random_id db note ≡ insert_new_note random_id db note
  unfolding upsert_note
  upsert_inserts (inl h) = rw (h, upsert_note)
  upsert_inserts (inr (row, h, e)) = rw (h, upsert_note) (rw e)

  -- An upsert that finds its row updates it.
  pub upsert_updates :
      {row : Note}
      → find_by_bear_id note.bear_id db.notes ≡ some row
      → (row.id == "") ≡ false
      → upsert_note random_id db note
        ≡ ok (
          record db { notes = (update_existing_note db.notes note row).0 },
          (update_existing_note db.notes note row).1,
        )
  unfolding upsert_note
  upsert_updates h e = rw (h, upsert_note) (rw e)

updated_notes :
    {a b : Db} {x y : Note}
    → ◌≡◌ {A = Result (Db × Note)} (ok (a, x)) (ok (b, y))
    → a.notes ≡ b.notes
updated_notes h = ground arith

module _ (random_id : ℕ → String) (db : Db) (note : Note) {db' : Db} {note' : Note}
    (u : UniqueIds db.notes) where
  insert-Upserted :
      insert_new_note random_id db note ≡ ok (db', note') → Upserted db.notes db'.notes
  unfolding insert_new_note
  insert-Upserted h =
      let x = record note { id = if note.id == "" then random_id db.drawn else note.id } in
      elim (Bool-cases (any (clashes x) db.notes)) [
        | inl e ↦ cc (rw e at h)
        | inr e ↦ subst (Upserted db.notes) (ground arith) (Upserted-append db.notes u x e)
      ]

  -- One upsert keeps the ids unique, and follows each row.
  pub upsert_note-Upserted :
      upsert_note random_id db note ≡ ok (db', note') → Upserted db.notes db'.notes
  upsert_note-Upserted h = elim (Option-cases (find_by_bear_id note.bear_id db.notes)) [
    | inl missing ↦ insert-Upserted (sym (upsert_inserts random_id db note (inl missing)) ∙ h)
    | inr (row, found) ↦ elim (Bool-cases (row.id == "")) [
      | inl e ↦ insert-Upserted (sym (upsert_inserts random_id db note (inr (row, found, e))) ∙ h)
      | inr e ↦
          subst (Upserted db.notes)
            (updated_notes (sym (upsert_updates random_id db note found e) ∙ h))
            (update_existing-Upserted db.notes u note row
              (found_by_id note.bear_id db.notes u found))
    ]
  ]
