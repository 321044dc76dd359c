-- ===== src/Store/Push/Backlinks.antt =====
-- `upsertBacklink` of internal/store/sqlite.go. A backlink with an end that is not on the hub is
-- skipped, so that the foreign keys hold.
use bear_sync.Prelude.{
  ℕ, suc, String, Bool, false, ◌&&◌, ◌||◌, not, Option, none, some, List, [], ◌∷◌, ◌++◌, ◌==◌,
  matches, select, update, any, Result, ok, err, unique_violation, if◌then◌else◌,
}
use bear_sync.Models.Backlink.{Backlink}
use bear_sync.Store.Db.{Db}
use bear_sync.Store.Push.Attachments.{resolve_note_id, note_exists}

abbrev pub backlink_by_bear_id : String → Backlink → Bool
backlink_by_bear_id k b = matches b.bear_id k

abbrev find_by_bear_id : Option String → List Backlink → Option Backlink
find_by_bear_id none rows = none
find_by_bear_id (some k) rows = if k == "" then none else select (backlink_by_bear_id k) rows

update_backlink : Db → Backlink → Backlink → Result Db
update_backlink db b row = ok (record db {
  backlinks = update (λ x. x.id == row.id) (λ _. record b { id = row.id }) db.backlinks;
})

abbrev clashes : Backlink → Backlink → Bool
clashes b x = x.id == b.id || elim b.bear_id [ none ↦ false | some k ↦ backlink_by_bear_id k x ]

insert_backlink : (ℕ → String) → Db → Backlink → Result Db
insert_backlink random_id db b =
    let draws = b.id == "" in
    let b' = record b { id = if draws then random_id db.drawn else b.id } in
    if any (clashes b') db.backlinks
    then err unique_violation
    else ok (record db {
      backlinks = db.backlinks ++ b' ∷ [];
      drawn = if draws then suc db.drawn else db.drawn;
    })

-- An end of the link is on the hub.
abbrev pub is_linked : Db → String → Bool
is_linked db k = not (k == "") && note_exists db.notes k

unfoldable pub upsert_backlink : (ℕ → String) → Db → Backlink → Result Db
unfolding resolve_note_id update_backlink insert_backlink
upsert_backlink random_id db b =
    let b' = record b {
      linked_by_id = resolve_note_id db.notes b.linked_by_id;
      linking_to_id = resolve_note_id db.notes b.linking_to_id;
    } in
    if not (is_linked db b'.linked_by_id && is_linked db b'.linking_to_id)
    then ok db
    else elim (find_by_bear_id b.bear_id db.backlinks) [
      | none ↦ insert_backlink random_id db b'
      | some row ↦
          if row.id == "" then insert_backlink random_id db b' else update_backlink db b' row
    ]
