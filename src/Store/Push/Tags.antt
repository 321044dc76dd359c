-- ===== src/Store/Push/Tags.antt =====
-- `upsertTag` of internal/store/sqlite.go.
use bear_sync.Prelude.{
  ℕ, suc, String, Bool, false, not, ◌&&◌, ◌||◌, Option, none, some, List, [], ◌∷◌, ◌++◌, ◌==◌,
  matches, select, update, any, Result, ok, err, unique_violation, if◌then◌else◌,
}
use bear_sync.Models.Tag.{Tag}
use bear_sync.Store.Db.{Db}

abbrev pub tag_by_bear_id : String → Tag → Bool
tag_by_bear_id b t = matches t.bear_id b

abbrev find_by_bear_id : Option String → List Tag → Option Tag
find_by_bear_id none tags = none
find_by_bear_id (some b) tags = if b == "" then none else select (tag_by_bear_id b) tags

-- UNIQUE on `title`, against the other rows.
abbrev title_taken : Tag → Tag → Bool
title_taken tag t = t.title == tag.title && not (t.id == tag.id)

update_tag : Db → Tag → Tag → Result Db
update_tag db tag row =
    let tag' = record tag { id = row.id } in
    if any (title_taken tag') db.tags
    then err unique_violation
    else ok (record db { tags = update (λ t. t.id == row.id) (λ _. tag') db.tags })

-- PRIMARY KEY on `id`, UNIQUE on `bear_id` and `title`.
abbrev clashes : Tag → Tag → Bool
clashes tag t =
    t.id == tag.id
    || t.title == tag.title
    || elim tag.bear_id [ none ↦ false | some b ↦ tag_by_bear_id b t ]

insert_tag : (ℕ → String) → Db → Tag → Result Db
insert_tag random_id db tag =
    let draws = tag.id == "" in
    let tag' = record tag { id = if draws then random_id db.drawn else tag.id } in
    if any (clashes tag') db.tags
    then err unique_violation
    else ok (record db {
      tags = db.tags ++ tag' ∷ [];
      drawn = if draws then suc db.drawn else db.drawn;
    })

unfoldable pub upsert_tag : (ℕ → String) → Db → Tag → Result Db
unfolding update_tag insert_tag
upsert_tag random_id db tag = elim (find_by_bear_id tag.bear_id db.tags) [
  | none ↦ insert_tag random_id db tag
  | some row ↦ if row.id == "" then insert_tag random_id db tag else update_tag db tag row
]
