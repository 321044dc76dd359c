-- ===== src/Api/ReadHandlers.antt =====
-- The reading handlers of internal/api: `listNotes`, `searchNotes` and `getNote` of
-- notes_handler.go, `listTags` of tags_handler.go, `listNoteAttachments` of attachments_handler.go
-- and `listBacklinks` of backlinks_handler.go. The parameters of a query are the texts that
-- `r.URL.Query().Get` returns, empty where one is missing; `strconv.Atoi` is a parameter.
use bear_sync.Prelude.{
  ℕ, String, Bool, Option, none, some, List, ◌==◌, nat_eq, ltb, map, if◌then◌else◌,
}
use bear_sync.Models.Tag.{Tag}
use bear_sync.Models.Backlink.{Backlink}
use bear_sync.Models.Backlink
use bear_sync.Models.Views.{FullNote, AttachmentMeta, attachments_to_meta, strip_tag, strip_full}
use bear_sync.Store.Db.{Db}
use bear_sync.Store.Reads.{
  Sqlite, NoteFilter, list_notes, search_notes, get_full_note, list_tags, list_attachments_by_note,
  list_backlinks_by_note,
}

pub data ReadReply {ℓ} (A : Type ℓ) : Type ℓ where
  refuses : ℕ → String → ReadReply A
  shows : A → ReadReply A

-- What `Atoi` makes of a text: its number, or the error of a text that is no number, or of one out
-- of range, of which it returns the nearest.
pub data Atoi : Type 0 where
  no_number : Atoi
  too_large too_small : Atoi
  negative : Atoi
  number : ℕ → Atoi

-- A parameter that is a number from 0 on, if it is there.
abbrev pub natural : (String → Atoi) → String → Option (Option ℕ)
natural atoi v =
    if v == "" then some none else elim (atoi v) [ number n ↦ some (some n) | _ ↦ none ]

abbrev pub at_most_200 : ℕ → ℕ
at_most_200 n = if ltb 200 n then 200 else n

abbrev pub limit_of : Option ℕ → ℕ
limit_of none = 0
limit_of (some n) = at_most_200 n

abbrev pub offset_of : Option ℕ → ℕ
offset_of none = 0
offset_of (some n) = n

abbrev pub flag_of : String → Option Bool
flag_of v = if v == "" then none else some (v == "true")

-- The texts of the query's parameters.
pub record ListQuery : Type 0 where
  pub tag : String
  pub sort : String
  pub order : String
  pub trashed : String
  pub encrypted : String
  pub limit : String
  pub offset : String

abbrev pub filter_of : ListQuery → Option ℕ → Option ℕ → NoteFilter
filter_of q limit offset = record {
  tag = q.tag;
  trashed = flag_of q.trashed;
  encrypted = flag_of q.encrypted;
  limit = limit_of limit;
  offset = offset_of offset;
  sort = q.sort;
  order = q.order;
}

-- A note of the list without its body.
abbrev pub without_body : FullNote → FullNote
without_body n = record n { note = record (n.note) { body = "" } }

module _ (sql : Sqlite) (atoi : String → Atoi) where
  unfoldable pub list_notes_request : Db → ListQuery → ReadReply (List FullNote)
  unfolding list_notes strip_full
  list_notes_request db q = elim (natural atoi q.limit) [
    | none ↦ refuses 400 "invalid limit parameter"
    | some limit ↦ elim (natural atoi q.offset) [
      | none ↦ refuses 400 "invalid offset parameter"
      | some offset ↦
          shows
            (map (λ n. strip_full (without_body n)) (list_notes sql db (filter_of q limit offset)))
    ]
  ]

  -- The limit of a search; an error of `Atoi` is passed over.
  abbrev pub search_limit : String → ℕ
  search_limit v = if v == "" then 20 else elim (atoi v) [
    | number n ↦ if nat_eq n 0 then 20 else at_most_200 n
    | too_large ↦ 200
    | _ ↦ 20
  ]

  unfoldable pub search_notes_request : Db → String → String → String → ReadReply (List FullNote)
  unfolding search_notes strip_full
  search_notes_request db q tag limit =
      if q == ""
      then refuses 400 "q parameter is required"
      else shows (map strip_full (search_notes sql db q tag (search_limit limit)))

  unfoldable pub get_note_request : Db → String → ReadReply FullNote
  unfolding get_full_note strip_full
  get_note_request db k = elim (get_full_note sql db k) [
    | none ↦ refuses 404 "note not found"
    | some n ↦ shows (strip_full n)
  ]

  unfoldable pub list_tags_request : Db → ReadReply (List Tag)
  unfolding list_tags strip_tag
  list_tags_request db = shows (map strip_tag (list_tags sql db))

  unfoldable pub list_note_attachments : Db → String → ReadReply (List AttachmentMeta)
  unfolding get_full_note list_attachments_by_note attachments_to_meta
  list_note_attachments db note = elim (get_full_note sql db note) [
    | none ↦ refuses 404 "note not found"
    | some n ↦ shows (attachments_to_meta (list_attachments_by_note db note))
  ]

  unfoldable pub list_backlinks : Db → String → ReadReply (List Backlink)
  unfolding get_full_note list_backlinks_by_note Backlink.strip_internal
  list_backlinks db note = elim (get_full_note sql db note) [
    | none ↦ refuses 404 "note not found"
    | some n ↦ shows (map Backlink.strip_internal (list_backlinks_by_note db note))
  ]
