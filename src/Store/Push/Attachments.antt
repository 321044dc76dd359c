-- ===== src/Store/Push/Attachments.antt =====
-- `upsertAttachment` of internal/store/sqlite.go. `note_id` REFERENCES notes(id), and the foreign
-- keys are on: a row whose note is not there is refused.
use bear_sync.Prelude.{
  ℕ, suc, String, Bool, false, ◌||◌, not, Option, none, some, List, [], ◌∷◌, ◌++◌, ◌==◌, matches,
  select, update, any, Result, ok, err, unique_violation, foreign_key_violation, if◌then◌else◌,
}
use bear_sync.Models.Note.{Note}
use bear_sync.Models.Attachment.{Attachment}
use bear_sync.Store.Db.{Db, note_by_id, note_by_either}

abbrev pub attachment_by_bear_id : String → Attachment → Bool
attachment_by_bear_id b a = matches a.bear_id b

-- `resolveNoteID`, which `upsertAttachment` writes out
unfoldable pub resolve_note_id : List Note → String → String
resolve_note_id notes k =
    if k == "" then k else elim (select (note_by_either k) notes) [ none ↦ k | some n ↦ n.id ]

-- `noteExistsInTx`
abbrev pub note_exists : List Note → String → Bool
note_exists notes k = any (note_by_id k) notes

abbrev find_by_bear_id : Option String → List Attachment → Option Attachment
find_by_bear_id none rows = none
find_by_bear_id (some b) rows = if b == "" then none else select (attachment_by_bear_id b) rows

update_attachment : Db → Attachment → Attachment → Result Db
update_attachment db a row =
    if not (note_exists db.notes a.note_id)
    then err foreign_key_violation
    else ok (record db {
      attachments = update (λ x. x.id == row.id) (λ _. record a { id = row.id }) db.attachments;
    })

abbrev clashes : Attachment → Attachment → Bool
clashes a x = x.id == a.id || elim a.bear_id [ none ↦ false | some b ↦ attachment_by_bear_id b x ]

insert_attachment : (ℕ → String) → Db → Attachment → Result Db
insert_attachment random_id db a =
    let draws = a.id == "" in
    let a' = record a { id = if draws then random_id db.drawn else a.id } in
    if any (clashes a') db.attachments
    then err unique_violation
    else if not (note_exists db.notes a.note_id)
    then err foreign_key_violation
    else ok (record db {
      attachments = db.attachments ++ a' ∷ [];
      drawn = if draws then suc db.drawn else db.drawn;
    })

unfoldable pub upsert_attachment : (ℕ → String) → Db → Attachment → Result Db
unfolding resolve_note_id update_attachment insert_attachment
upsert_attachment random_id db a =
    let a' = record a { note_id = resolve_note_id db.notes a.note_id } in
    elim (find_by_bear_id a.bear_id db.attachments) [
      | none ↦ insert_attachment random_id db a'
      | some row ↦
          if row.id == "" then insert_attachment random_id db a' else update_attachment db a' row
    ]
