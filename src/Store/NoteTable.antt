-- ===== src/Store/NoteTable.antt =====
-- `GetNote`, `CreateNote`, `UpdateNote`, `DeleteNote` and `GetTag` of internal/store/sqlite.go, on
-- the columns of the row.
use bear_sync.Prelude.{
  String, Bool, false, not, ◌&&◌, Option, none, some, [], ◌∷◌, ◌++◌, ◌==◌, select, update, any,
  Result, ok, err, unique_violation, if◌then◌else◌,
}
use bear_sync.Models.Note.{Note}
use bear_sync.Models.Tag.{Tag}
use bear_sync.Store.Db.{Db, note_by_id, note_by_bear_id}
use bear_sync.Store.Push.Notes.{clashes}
use bear_sync.Store.Push.Deletes.{remove_notes}

unfoldable pub get_note : Db → String → Option Note
get_note db k = select (note_by_id k) db.notes

unfoldable pub create_note : Db → Note → Result Db
create_note db n =
    if any (clashes n) db.notes
    then err unique_violation
    else ok (record db { notes = db.notes ++ n ∷ [] })

-- Another row has the `bear_id` that is written.
abbrev pub bear_id_taken : Note → Note → Bool
bear_id_taken n m =
    elim n.bear_id [ none ↦ false | some b ↦ note_by_bear_id b m ] && not (note_by_id n.id m)

unfoldable pub update_note : Db → Note → Result Db
update_note db n =
    if any (note_by_id n.id) db.notes && any (bear_id_taken n) db.notes
    then err unique_violation
    else ok (record db { notes = update (note_by_id n.id) (λ _. n) db.notes })

unfoldable pub delete_note : Db → String → Db
unfolding remove_notes
delete_note db k = remove_notes (note_by_id k) db

unfoldable pub get_tag : Db → String → Option Tag
get_tag db k = select (λ t. t.id == k) db.tags
