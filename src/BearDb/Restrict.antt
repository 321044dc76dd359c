-- ===== src/BearDb/Restrict.antt =====
-- Proofs that the partial reads of internal/beardb/sqlite.go are restrictions of the full ones.
use bear_sync.Prelude.{
  ℕ, String, Bool, true, false, not, nat_eq, ◌||◌, none, some, ◌&&◌, Option, List, [], ◌∷◌, ◌≡◌,
  refl, sym, ap, ◌∙◌, inl, inr, arith, ltb, map, select_all, Option-cases, if◌then◌else◌,
}
use bear_sync.Store.Scan.Values.{
  Row, real_of, Value, string_of, nullable_of, null, integer, real, text, blob,
}
use bear_sync.Mapper.Date.{CoreDate}
use bear_sync.Mapper.BearRows.{BearNoteRow, BearTagRow, BearAttachmentRow}
use bear_sync.Bridge.Bear.{gives}
use bear_sync.Bridge.Junction.{member, extract_uuids}
use bear_sync.BearDb.Tables.{BearTables, is_from, is_listed, is_text, modified_since, Joined}
use bear_sync.BearDb.NoteColumns.{scan_bear_note}
use bear_sync.BearDb.TagColumns.{scan_bear_tag}
use bear_sync.BearDb.AttachmentColumns.{scan_bear_attachment}
use bear_sync.BearDb.BacklinkColumns.{scan_bear_backlink}
use bear_sync.BearDb.Queries.{
  notes, tags, attachments, backlinks, attachments_listed, attachments_by_uuids, unless_empty,
  query_junction, both_named, of_notes, pairs_listed, note_tags, pinned_note_tags,
  note_tags_for_notes, pinned_note_tags_for_notes, files_with_notes, backlinks_with_notes, tagged,
  pinned_in, bear_db, query_uuids,
}

map-select_all {ℓ κ} :
    {A : Type ℓ} {B : Type κ} (f : A → B) (p r : A → Bool) (q : B → Bool)
    → ((x : A) → r x ≡ (p x && q (f x)))
    → (xs : List A) → map f (select_all r xs) ≡ select_all q (map f (select_all p xs))
map-select_all f p r q same [] = refl
map-select_all f p r q same (x ∷ xs) = ground (arith, same x, map-select_all f p r q same xs)

-- What a delta from `t` on asks of a date: nothing if there was no sync, and else that there is one
-- which is not before `t`.
abbrev pub is_recent : ℕ → Option CoreDate → Bool
is_recent t none = nat_eq t 0
is_recent t (some d) = nat_eq t 0 || not (ltb d.seconds t)

since_recent :
    (t : ℕ) (v : Value)
    → (if ltb 0 t then is_from t (real_of v) else true) ≡ is_recent t (real_of v)
since_recent t v = by_date (real_of v)
  where
    by_date :
        (date : Option CoreDate) → (if ltb 0 t then is_from t date else true) ≡ is_recent t date
    by_date none = ground arith
    by_date (some d) = ground arith

-- Whether an id is one of those that are asked for.
abbrev pub is_asked : List String → Option String → Bool
is_asked uuids none = false
is_asked uuids (some u) = member u uuids

listed_asked : (uuids : List String) (id : Option String) → is_listed id uuids ≡ is_asked uuids id
listed_asked uuids none = refl
listed_asked uuids (some u) = refl

-- The ids of the rows that have one.
query_uuids-rows {ℓ} :
    {A : Type ℓ} (scan : Row → A) (id : A → Option String)
    → ((row : Row) → id (scan row) ≡ nullable_of (row "ZUNIQUEIDENTIFIER"))
    → (table : List Row) → query_uuids table ≡ extract_uuids id (map scan table)
unfolding query_uuids
query_uuids-rows scan id same [] = refl
query_uuids-rows scan id same (row ∷ table) =
    by_value (row "ZUNIQUEIDENTIFIER") (query_uuids-rows scan id same table) refl
  where
    by_value :
        (v : Value)
        → query_uuids table ≡ extract_uuids id (map scan table)
        → row "ZUNIQUEIDENTIFIER" ≡ v
        → query_uuids (row ∷ table) ≡ extract_uuids id (map scan (row ∷ table))
    by_value (text u) rest e =
        rw (same row, e, query_uuids)
          (ap (λ us. string_of (row "ZUNIQUEIDENTIFIER") ∷ us) rest
            ∙ ap (λ v. string_of v ∷ extract_uuids id (map scan table)) e)
    by_value null rest e = rw (same row, e, query_uuids) rest
    by_value (integer i) rest e = rw (same row, e, query_uuids) rest
    by_value (real d) rest e = rw (same row, e, query_uuids) rest
    by_value (blob b) rest e = rw (same row, e, query_uuids) rest

select_every : (table : List Row) → select_all (λ row. true) table ≡ table
select_every [] = refl
select_every (row ∷ table) = ap (λ rows. row ∷ rows) (select_every table)

pairs_listed_restrict :
    (rows : List Joined) (uuids : List String)
    → pairs_listed rows uuids
      ≡ select_all (λ p. member p.note_uuid uuids) (query_junction both_named rows)
unfolding pairs_listed query_junction
pairs_listed_restrict rows uuids =
    map-select_all _ both_named (of_notes uuids) (λ p. member p.note_uuid uuids)
      (λ row. named (row "n" "ZUNIQUEIDENTIFIER") (is_text (row "t" "ZUNIQUEIDENTIFIER"))) rows
  where
    named :
        (v : Value) (b : Bool)
        → (is_listed (nullable_of v) uuids && b) ≡ ((is_text v && b) && member (string_of v) uuids)
    named (text s) true = ground arith
    named (text s) false = ground arith
    named null b = ground arith
    named (integer i) b = ground arith
    named (real d) b = ground arith
    named (blob x) b = ground arith

attachments_listed_restrict :
    (db : BearTables) (uuids : List String)
    → attachments_listed db uuids
      ≡ select_all (λ a. is_asked uuids a.zuniqueidentifier) (attachments db 0)
unfolding attachments_listed attachments modified_since scan_bear_attachment
attachments_listed_restrict db uuids =
    map-select_all _ (λ row. true) _ (λ a. is_asked uuids a.zuniqueidentifier)
      (λ row. listed_asked uuids (nullable_of (row "f" "ZUNIQUEIDENTIFIER"))) (files_with_notes db)

-- No ids, no rows: the query that is not run would have found none.
unlisted {ℓ} :
    {A : Type ℓ} (p : List String → A → Bool)
    → ((x : A) → p [] x ≡ false)
    → (xs : List A) (uuids : List String)
    → unless_empty uuids (gives (select_all (p uuids) xs)) ≡ gives (select_all (p uuids) xs)
unlisted p never xs (u ∷ uuids) = refl
unlisted p never xs [] = ap gives (sym (nothing xs))
  where
    nothing : (ys : List _) → select_all (p []) ys ≡ []
    nothing [] = refl
    nothing (y ∷ ys) = ground (arith, never y, nothing ys)

-- On the same tables of Bear, the reads since a moment, and those for some ids, give of what the
-- full reads give, in its order, the rows that are dated from that moment on, or all if there is
-- no moment, and those of the ids; and the ids that are read of the notes and of the tags are
-- those of the rows that have one.
pub bear_db_restrict :
    (db : BearTables) (t : ℕ) (uuids : List String)
    → let reads = bear_db (λ query. gives db) in
      (reads.notes t ≡ gives (select_all (λ n. is_recent t n.zmodificationdate) (notes db 0)))
      × (reads.tags t ≡ gives (select_all (λ g. is_recent t g.zmodificationdate) (tags db 0)))
      × (reads.attachments t
          ≡ gives (select_all (λ a. is_recent t a.zmodificationdate) (attachments db 0)))
      × (reads.backlinks t
          ≡ gives (select_all (λ b. is_recent t b.zmodificationdate) (backlinks db 0)))
      × (reads.attachments_by_uuids uuids
          ≡ gives (select_all (λ a. is_asked uuids a.zuniqueidentifier) (attachments db 0)))
      × (reads.note_tags_for_notes uuids
          ≡ gives (select_all (λ p. member p.note_uuid uuids) (note_tags db)))
      × (reads.pinned_note_tags_for_notes uuids
          ≡ gives (select_all (λ p. member p.note_uuid uuids) (pinned_note_tags db)))
      × (reads.all_note_uuids ≡ gives (extract_uuids (λ n. n.zuniqueidentifier) (notes db 0)))
      × (reads.all_tag_uuids ≡ gives (extract_uuids (λ g. g.zuniqueidentifier) (tags db 0)))
unfolding bear_db notes tags attachments backlinks modified_since scan_bear_note scan_bear_tag
    scan_bear_attachment scan_bear_backlink attachments_by_uuids note_tags_for_notes
    pinned_note_tags_for_notes note_tags pinned_note_tags
bear_db_restrict db t uuids = (
  ap gives (
      map-select_all _ (λ row. true) _ _ (λ row. since_recent t (row "ZMODIFICATIONDATE"))
        db.zsfnote),
  ap gives (
      map-select_all _ (λ row. true) _ _ (λ row. since_recent t (row "ZMODIFICATIONDATE"))
        db.zsfnotetag),
  ap gives (
      map-select_all _ (λ row. true) _ _ (λ row. since_recent t (row "f" "ZMODIFICATIONDATE"))
        (files_with_notes db)),
  ap gives (
      map-select_all _ (λ row. true) _ _ (λ row. since_recent t (row "b" "ZMODIFICATIONDATE"))
        (backlinks_with_notes db)),
  ap (λ rows. unless_empty uuids (gives rows)) (attachments_listed_restrict db uuids)
      ∙ unlisted (λ us a. is_asked us a.zuniqueidentifier) unasked (attachments db 0) uuids,
  ap (λ rows. unless_empty uuids (gives rows)) (pairs_listed_restrict (tagged db) uuids)
      ∙ unlisted (λ us p. member p.note_uuid us) (λ p. refl) (note_tags db) uuids,
  ap (λ rows. unless_empty uuids (gives rows)) (pairs_listed_restrict (pinned_in db) uuids)
      ∙ unlisted (λ us p. member p.note_uuid us) (λ p. refl) (pinned_note_tags db) uuids,
  ap gives (
      query_uuids-rows scan_bear_note (λ (n : BearNoteRow). n.zuniqueidentifier) (λ row. refl)
        db.zsfnote
      ∙ ap
          (λ rows.
            extract_uuids (λ (n : BearNoteRow). n.zuniqueidentifier) (map scan_bear_note rows))
          (sym (select_every db.zsfnote))),
  ap gives (
      query_uuids-rows scan_bear_tag (λ (g : BearTagRow). g.zuniqueidentifier) (λ row. refl)
        db.zsfnotetag
      ∙ ap
          (λ rows. extract_uuids (λ (g : BearTagRow). g.zuniqueidentifier) (map scan_bear_tag rows))
          (sym (select_every db.zsfnotetag))),
)
  where
    unasked : (a : BearAttachmentRow) → is_asked [] a.zuniqueidentifier ≡ false
    unasked a = elim (Option-cases a.zuniqueidentifier) [
      | inl e ↦ rw e refl
      | inr (u, e) ↦ rw e refl
    ]
