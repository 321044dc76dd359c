-- ===== src/Store/Push/NoteTags.antt =====
-- `replaceNoteTags` and `insertNoteTagPairs` of internal/store/sqlite.go, as functions on one
-- junction table; the notes and the tags of the database are only read. The map `noteHubIDs` is an
-- association list, and the set of its values that list's values.
use bear_sync.Prelude.{
  String, Bool, ◌&&◌, ◌||◌, Option, none, some, List, [], ◌∷◌, ◌++◌, ◌==◌, matches, select, delete,
  any, lookup, put, Result, ok, err, foreign_key_violation, ◌>>=◌, if◌then◌else◌,
}
use bear_sync.Models.Note.{Note}
use bear_sync.Models.Tag.{Tag}
use bear_sync.Models.Sync.{NoteTagPair}
use bear_sync.Store.Db.{Db, note_by_id, note_by_bear_id, note_by_either}

abbrev pub HubIds : Type 0
HubIds = List (String × String)

-- The first loop: the notes of the request.
unfoldable pub add_bear_id : Db → Option String → HubIds → HubIds
add_bear_id db none ids = ids
add_bear_id db (some b) ids =
    if b == ""
    then ids
    else elim (select (note_by_bear_id b) db.notes) [ none ↦ ids | some n ↦ put b n.id ids ]

unfoldable pub note_hub_ids : Db → List Note → HubIds → HubIds
unfolding add_bear_id
note_hub_ids db [] ids = ids
note_hub_ids db (n ∷ ns) ids =
    let ids' = add_bear_id db n.bear_id ids in
    note_hub_ids db ns (if n.id == "" then ids' else put n.id n.id ids')

-- The second loop: the notes that the pairs name.
unfoldable pub add_pair_id : Db → String → HubIds → HubIds
add_pair_id db k ids = elim (lookup k ids) [
  | some h ↦ ids
  | none ↦ (elim (select (note_by_either k) db.notes) [ none ↦ ids | some n ↦ put k n.id ids ])
]

unfoldable pub pair_hub_ids : Db → List NoteTagPair → HubIds → HubIds
unfolding add_pair_id
pair_hub_ids db [] ids = ids
pair_hub_ids db (p ∷ ps) ids = pair_hub_ids db ps (add_pair_id db p.note_id ids)

abbrev pub tag_by_either : String → Tag → Bool
tag_by_either k t = matches t.bear_id k || t.id == k

abbrev pub same_pair : NoteTagPair → NoteTagPair → Bool
same_pair p r = r.note_id == p.note_id && r.tag_id == p.tag_id

-- INSERT OR IGNORE, under PRIMARY KEY (note_id, tag_id). IGNORE does not cover the foreign key of
-- the note; the tag was just read.
unfoldable pub insert_or_ignore : Db → NoteTagPair → List NoteTagPair → Result (List NoteTagPair)
insert_or_ignore db p rows =
    if any (same_pair p) rows
    then ok rows
    else if any (note_by_id p.note_id) db.notes
    then ok (rows ++ p ∷ [])
    else err foreign_key_violation

unfoldable pub insert_pair :
    Db → HubIds → List NoteTagPair → NoteTagPair → Result (List NoteTagPair)
unfolding insert_or_ignore
insert_pair db ids rows p = if p.tag_id == "" then ok rows else elim (lookup p.note_id ids) [
  | none ↦ ok rows
  | some note ↦ elim (select (tag_by_either p.tag_id) db.tags) [
    | none ↦ ok rows
    | some tag ↦ insert_or_ignore db (record { note_id = note; tag_id = tag.id }) rows
  ]
]

unfoldable pub insert_note_tag_pairs :
    Db → HubIds → List NoteTagPair → List NoteTagPair → Result (List NoteTagPair)
unfolding insert_pair
insert_note_tag_pairs db ids rows [] = ok rows
insert_note_tag_pairs db ids rows (p ∷ ps) = do
  rows' ← insert_pair db ids rows p
  insert_note_tag_pairs db ids rows' ps

-- note_id IN (…)
abbrev pub is_replaced : HubIds → NoteTagPair → Bool
is_replaced ids r = any (λ e. r.note_id == e.1) ids

-- With no note resolved the DELETE and the INSERTs do nothing, as the early returns do.
unfoldable pub replace_note_tags :
    Db → List NoteTagPair → List Note → List NoteTagPair → Result (List NoteTagPair)
unfolding note_hub_ids pair_hub_ids insert_note_tag_pairs
replace_note_tags db rows notes pairs =
    let ids = pair_hub_ids db pairs (note_hub_ids db notes []) in
    insert_note_tag_pairs db ids (delete (is_replaced ids) rows) pairs
