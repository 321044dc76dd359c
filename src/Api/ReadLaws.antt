-- ===== src/Api/ReadLaws.antt =====
-- Proofs about what `listNotes` of internal/api/notes_handler.go shows.
use bear_sync.Prelude.{
  ℕ, zero, suc, ◌≤◌, String, Bool, true, not, ◌&&◌, Option, none, some, List, [], ◌∷◌, ◌≡◌, refl,
  sym, ◌∙◌, inl, inr, arith, map, select_all, count_where, take, drop, length, length-map,
  length-take-le, All, All-map, All-imp, All-take, Bool-cases, Option-cases,
}
use mathlib.Core.Path.{subst}
use bear_sync.Models.Note.{Note}
use bear_sync.Models.Tag.{Tag}
use bear_sync.Models.Views.{FullNote, strip_tag, strip_full}
use bear_sync.Store.Db.{Db}
use bear_sync.Store.Reads.{
  Sqlite, NoteFilter, or_default, is_listed_note, with_lists, listing, list_notes,
}
use bear_sync.Store.Pages.{KeepsRows, count-select_all}
use bear_sync.Api.ReadHandlers.{
  shows, Atoi, ListQuery, natural, limit_of, filter_of, without_body, list_notes_request,
}

-- A note as a list of notes may show it: none that is archived or deleted for good, and without
-- its body and what only the hub and the bridge use.
pub record IsShown (n : FullNote) : Type 0 where
  pub unarchived : n.note.archived ≡ 0
  pub kept : n.note.permanently_deleted ≡ 0
  pub no_body : n.note.body ≡ ""
  pub no_raw : n.note.bear_raw ≡ ""
  pub no_data : n.note.encrypted_data ≡ []
  pub no_time : n.note.hub_modified_at ≡ ""
  pub plain_tags : All (λ t. t.bear_raw ≡ "") n.tags

abbrev IsLive : Note → Type 0
IsLive n = (n.archived ≡ 0) × (n.permanently_deleted ≡ 0)

All-of-count {ℓ} :
    {A : Type ℓ} (q : A → Bool) (xs : List A)
    → count_where (λ x. not (q x)) xs ≡ 0
    → All (λ x. q x ≡ true) xs
All-of-count q [] h = tt
All-of-count q (x ∷ xs) h = elim (Bool-cases (q x)) [
  | inl e ↦ (e, All-of-count q xs (ground (arith, e)))
  | inr e ↦ ground (arith, e)
]

none_both {ℓ} :
    {A : Type ℓ} (q : A → Bool) (xs : List A) → count_where (λ x. q x && not (q x)) xs ≡ 0
none_both q [] = refl
none_both q (x ∷ xs) = elim (Bool-cases (q x)) [
  | inl e ↦ rw e (none_both q xs)
  | inr e ↦ rw e (none_both q xs)
]

All-drop {ℓ κ} : {A : Type ℓ} (Q : A → Type κ) (n : ℕ) (xs : List A) → All Q xs → All Q (drop n xs)
All-drop Q zero xs h = h
All-drop Q (suc n) [] h = tt
All-drop Q (suc n) (x ∷ xs) h = All-drop Q n xs h.1

listed-IsLive : (db : Db) (f : NoteFilter) (n : Note) → is_listed_note db f n ≡ true → IsLive n
unfolding is_listed_note
listed-IsLive db f n h = (ground arith, ground arith)

plain : (tags : List Tag) → All (λ t. t.bear_raw ≡ "") (map strip_tag tags)
unfolding strip_tag
plain [] = tt
plain (t ∷ tags) = (refl, plain tags)

module _ (sql : Sqlite) (keeps : KeepsRows sql) (db : Db) where
  listing-IsLive : (f : NoteFilter) → All IsLive (listing sql db f)
  unfolding listing
  listing-IsLive f =
      All-imp (λ n. is_listed_note db f n ≡ true) IsLive _ (listed-IsLive db f)
        (All-of-count (is_listed_note db f) _ (
          keeps _ _ (λ n. not (is_listed_note db f n)) (select_all (is_listed_note db f) db.notes)
          ∙ count-select_all (λ n. not (is_listed_note db f n)) (is_listed_note db f) db.notes
          ∙ none_both (is_listed_note db f) db.notes))

  shown : (n : Note) → IsLive n → IsShown (strip_full (without_body (with_lists sql db n)))
  unfolding strip_full with_lists
  shown n h = record {
    unarchived = h.0;
    kept = h.1;
    no_body = refl;
    no_raw = refl;
    no_data = refl;
    no_time = refl;
    plain_tags = plain _;
  }

  list_notes-IsShown :
      (f : NoteFilter) → All IsShown (map (λ n. strip_full (without_body n)) (list_notes sql db f))
  unfolding list_notes
  list_notes-IsShown f =
      let page = take (or_default 50 f.limit) (drop f.offset (listing sql db f)) in
      All-map IsShown (λ n. strip_full (without_body n)) (map (with_lists sql db) page)
        (All-map _ (with_lists sql db) page (
          All-imp IsLive _ page shown
            (All-take IsLive _ _ (All-drop IsLive f.offset (listing sql db f) (listing-IsLive f)))))

limit_within : (limit : Option ℕ) → or_default 50 (limit_of limit) ≤ 200
limit_within none = ground arith
limit_within (some n) = ground arith

few :
    (sql : Sqlite) (db : Db) (limit : Option ℕ) (f : NoteFilter)
    → f.limit ≡ limit_of limit
    → length (map (λ n. strip_full (without_body n)) (list_notes sql db f)) ≤ 200
unfolding list_notes
few sql db limit f same =
    let page = take (or_default 50 f.limit) (drop f.offset (listing sql db f)) in
    omega (
      arith,
      length-map (λ n. strip_full (without_body n)) (map (with_lists sql db) page),
      length-map (with_lists sql db) page,
      length-take-le (or_default 50 f.limit) (drop f.offset (listing sql db f)),
      subst (λ l. or_default 50 l ≤ 200) (sym same) (limit_within limit),
    )

-- If ORDER BY gives its rows back, a list of notes that a request gets has at most 200, none of
-- them archived or deleted for good, and none with a body, with encrypted data, with the time of
-- its change in the hub or with raw data of Bear, of its tags neither.
pub list_notes_request-IsShown :
    (sql : Sqlite) (atoi : String → Atoi) (db : Db) (q : ListQuery) {notes : List FullNote}
    → KeepsRows sql
    → list_notes_request sql atoi db q ≡ shows notes
    → All IsShown notes × (length notes ≤ 200)
unfolding list_notes_request
list_notes_request-IsShown sql atoi db q {notes} keeps run =
    elim (Option-cases (natural atoi q.limit)) [
      | inl e ↦ cc (rw (e, list_notes_request) at run)
      | inr (limit, e) ↦ elim (Option-cases (natural atoi q.offset)) [
        | inl g ↦ cc (rw (e, g, list_notes_request) at run)
        | inr (offset, g) ↦
            let same = shows_injective (rw (e, g, list_notes_request) at run) in
            subst (λ (xs : List FullNote). All IsShown xs × (length xs ≤ 200)) same
              (
                list_notes-IsShown sql keeps db (filter_of q limit offset),
                few sql db limit (filter_of q limit offset) refl,
              )
      ]
    ]
  where
    shows_injective : {xs ys : List FullNote} → shows xs ≡ shows ys → xs ≡ ys
    shows_injective h = cc
