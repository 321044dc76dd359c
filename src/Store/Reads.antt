-- ===== src/Store/Reads.antt =====
-- The reads of internal/store/sqlite.go that the consumer API answers from, with `CreateTag` and
-- `UpdateAttachment`. What SQLite orders by, and which notes its full-text index finds for a phrase,
-- is a parameter.
use Prim.Native.Char.{code}
use Prim.Native.String.{[] as empty, ◌∷◌ as ◌::◌, ◌++◌ as ◌<>◌}
use bear_sync.Prelude.{
  ℕ, String, Bool, true, false, ◌&&◌, not, Option, none, some, List, [], ◌==◌, nat_eq, map, select,
  select_all, update, any, take, drop, Result, ok, err, unique_violation, foreign_key_violation,
  if◌then◌else◌,
}
use bear_sync.Models.Note.{Note}
use bear_sync.Models.Tag.{Tag}
use bear_sync.Models.Attachment.{Attachment}
use bear_sync.Models.Backlink.{Backlink}
use bear_sync.Models.Views.{FullNote, attachments_to_info}
use bear_sync.Store.Db.{Db}
use bear_sync.Store.NoteTable.{get_note}
use bear_sync.Store.Push.Attachments.{note_exists, attachment_by_bear_id}

pub data SortColumn : Type 0 where
  by_modified_at by_created_at by_title : SortColumn

pub data Order : Type 0 where
  ascending descending : Order

-- ORDER BY on notes and on the titles of tags, and the notes that match a phrase, by rank.
pub record Sqlite : Type 0 where
  pub ordered : SortColumn → Order → List Note → List Note
  pub tags_by_title : List Tag → List Tag
  pub found : String → List Note → List Note

pub record NoteFilter : Type 0 where
  pub tag : String
  pub trashed : Option Bool
  pub encrypted : Option Bool
  pub limit : ℕ
  pub offset : ℕ
  pub sort : String
  pub order : String

-- n.id IN (SELECT nt.note_id FROM note_tags nt JOIN tags t ON nt.tag_id = t.id WHERE t.title = ?)
abbrev pub has_tag : Db → String → Note → Bool
has_tag db title n =
    any (λ p. p.note_id == n.id && any (λ t. t.id == p.tag_id && t.title == title) db.tags)
      db.note_tags

abbrev pub tag_passes : Db → String → Note → Bool
tag_passes db title n = if title == "" then true else has_tag db title n

-- A flag of the filter: `column = 1`, `column = 0`, or no condition.
abbrev pub flag_passes : Option Bool → ℕ → Bool
flag_passes none flag = true
flag_passes (some true) flag = nat_eq flag 1
flag_passes (some false) flag = nat_eq flag 0

unfoldable pub is_listed_note : Db → NoteFilter → Note → Bool
is_listed_note db f n =
    nat_eq n.permanently_deleted 0
    && nat_eq n.archived 0
    && tag_passes db f.tag n
    && flag_passes f.trashed n.trashed
    && flag_passes f.encrypted n.encrypted

-- `allowed[filter.Sort]`
abbrev pub sort_column : String → SortColumn
sort_column s =
    if s == "created_at" then by_created_at else if s == "title" then by_title else by_modified_at

abbrev pub sort_order : String → Order
sort_order s = if s == "asc" then ascending else descending

-- LIMIT, where 0 stands for the default.
abbrev pub or_default : ℕ → ℕ → ℕ
or_default default limit = if nat_eq limit 0 then default else limit

unfoldable pub list_attachments_by_note : Db → String → List Attachment
list_attachments_by_note db note = select_all (λ a. a.note_id == note) db.attachments

unfoldable pub list_backlinks_by_note : Db → String → List Backlink
list_backlinks_by_note db note = select_all (λ b. b.linking_to_id == note) db.backlinks

unfoldable pub get_attachment : Db → String → Option Attachment
get_attachment db k = select (λ a. a.id == k) db.attachments

-- `strings.ReplaceAll(query, "\"", "\"\"")`
unfoldable pub double_quotes : String → String
double_quotes empty = ""
double_quotes (c :: s) =
    let rest = double_quotes s in if nat_eq (code c) 34 then c :: (c :: rest) else c :: rest

module _ (sql : Sqlite) where
  -- A pair of `note_tags` stands there once: (note_id, tag_id) is its key.
  unfoldable pub load_note_tags : Db → String → List Tag
  load_note_tags db note =
      sql.tags_by_title
        (select_all (λ t. any (λ p. p.note_id == note && p.tag_id == t.id) db.note_tags) db.tags)

  -- The loop that joins tags and attachments to the notes.
  unfoldable pub with_lists : Db → Note → FullNote
  unfolding load_note_tags list_attachments_by_note attachments_to_info
  with_lists db n = record {
    note = n;
    tags = load_note_tags db n.id;
    attachments = attachments_to_info (list_attachments_by_note db n.id);
    backlinks = [];
  }

  -- The rows of the query before LIMIT and OFFSET.
  unfoldable pub listing : Db → NoteFilter → List Note
  unfolding is_listed_note
  listing db f =
      sql.ordered (sort_column f.sort) (sort_order f.order)
        (select_all (is_listed_note db f) db.notes)

  unfoldable pub list_notes : Db → NoteFilter → List FullNote
  unfolding listing with_lists
  list_notes db f =
      map (with_lists db) (take (or_default 50 f.limit) (drop f.offset (listing db f)))

  unfoldable pub search_notes : Db → String → String → ℕ → List FullNote
  unfolding double_quotes with_lists
  search_notes db query tag limit =
      let phrase = "\"" <> (double_quotes query <> "\"") in
      map (with_lists db)
        (take (or_default 20 limit) (select_all (tag_passes db tag) (sql.found phrase db.notes)))

  unfoldable pub get_full_note : Db → String → Option FullNote
  unfolding get_note with_lists list_backlinks_by_note
  get_full_note db k = elim (get_note db k) [
    | none ↦ none
    | some n ↦ some (record (with_lists db n) { backlinks = list_backlinks_by_note db n.id })
  ]

  unfoldable pub list_tags : Db → List Tag
  list_tags db = sql.tags_by_title db.tags

-- Another row has the `bear_id` that is written.
abbrev pub attachment_taken : Attachment → Attachment → Bool
attachment_taken a x =
    elim a.bear_id [ none ↦ false | some b ↦ attachment_by_bear_id b x ] && not (x.id == a.id)

unfoldable pub update_attachment_by_id : Db → Attachment → Result Db
update_attachment_by_id db a =
    if not (any (λ x. x.id == a.id) db.attachments)
    then ok db
    else if any (attachment_taken a) db.attachments
    then err unique_violation
    else if not (note_exists db.notes a.note_id)
    then err foreign_key_violation
    else ok (record db { attachments = update (λ x. x.id == a.id) (λ _. a) db.attachments })
