-- ===== src/Api/Written.antt =====
-- What `updateNote` and `trashNote` of internal/api/notes_handler.go make of a note, and that their
-- fields for the way back make it what it was.
use bear_sync.Prelude.{String, Option, none, some, ◌≡◌, refl, ◌∙◌, inl, inr, Option-cases}
use bear_sync.Models.Note.{Note, pending_to_bear}
use bear_sync.Api.Title.{extract_title_from_body}
use bear_sync.Api.Reply.{Caller}
use bear_sync.Api.Notes.{
  snapshot_pending_bear, trashed_note, restore_trashed, updated_note, restore_updated,
}

-- The new note holds Bear's title and body: those that the old note held for Bear, or, if it held
-- none, its own.
pub record HoldsBears (n m : Note) : Type 0 where
  pub first : n.pending_bear_title ≡ none → m.pending_bear_title ≡ some n.title
  pub first_body : n.pending_bear_title ≡ none → m.pending_bear_body ≡ some n.body
  pub later : (t : String) → n.pending_bear_title ≡ some t → m.pending_bear_title ≡ some t
  pub later_body :
      (t : String) → n.pending_bear_title ≡ some t → m.pending_bear_body ≡ n.pending_bear_body

snapshot-HoldsBears : (n : Note) → HoldsBears n (snapshot_pending_bear n)
snapshot-HoldsBears n = record {
  first = λ e. rw e refl;
  first_body = λ e. rw e refl;
  later = λ t e. rw e refl;
  later_body = λ t e. rw e refl;
}

pub kept-HoldsBears :
    (n m : Note)
    → m.pending_bear_title ≡ (snapshot_pending_bear n).pending_bear_title
    → m.pending_bear_body ≡ (snapshot_pending_bear n).pending_bear_body
    → HoldsBears n m
kept-HoldsBears n m title body =
    let k = snapshot-HoldsBears n in
    record {
      first = λ e. title ∙ k.first e;
      first_body = λ e. body ∙ k.first_body e;
      later = λ t e. title ∙ k.later t e;
      later_body = λ t e. body ∙ k.later_body t e;
    }

-- The note `m` is `n` in the trash, and waits for Bear.
pub record IsTrashed (c : Caller) (n m : Note) : Type 0 where
  pub trashed : m.trashed ≡ 1
  pub trashed_at : m.trashed_at ≡ c.now
  pub title : m.title ≡ n.title
  pub body : m.body ≡ n.body
  pub waits : m.sync_status ≡ pending_to_bear
  pub holds : HoldsBears n m

-- The note `m` is `n` with a new body and its title, and waits for Bear.
pub record IsUpdated (c : Caller) (b : String) (n m : Note) : Type 0 where
  pub body : m.body ≡ b
  pub title : m.title ≡ extract_title_from_body b
  pub trashed : m.trashed ≡ n.trashed
  pub modified_at : m.hub_modified_at ≡ c.now
  pub waits : m.sync_status ≡ pending_to_bear
  pub holds : HoldsBears n m

-- A snapshot leaves the rest of the note.
pub snapshot_keeps {ℓ} :
    {A : Type ℓ} (get : Note → A) (n : Note)
    → ((t b : Option String)
        → get (record n { pending_bear_title = t; pending_bear_body = b }) ≡ get n)
    → get (snapshot_pending_bear n) ≡ get n
snapshot_keeps get n same = by_title n.pending_bear_title
  where
    by_title :
        (o : Option String)
        → get (elim o [
          | some t ↦ n
          | none ↦ record n { pending_bear_title = some n.title; pending_bear_body = some n.body }
        ])
          ≡ get n
    by_title none = same (some n.title) (some n.body)
    by_title (some t) = refl

pub restored_trashed : (c : Caller) (n : Note) → restore_trashed n (trashed_note c n) ≡ n
restored_trashed c n = elim (Option-cases n.pending_bear_title) [
  | inl e ↦ rw e refl
  | inr (t, e) ↦ rw e refl
]

pub restored_updated :
    (c : Caller) (b : String) (n : Note) → restore_updated n (updated_note c b n) ≡ n
restored_updated c b n = elim (Option-cases n.pending_bear_title) [
  | inl e ↦ rw e refl
  | inr (t, e) ↦ rw e refl
]
