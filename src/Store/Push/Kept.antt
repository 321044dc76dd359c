-- ===== src/Store/Push/Kept.antt =====
-- Proofs about the UPDATEs of `upsertNote` of internal/store/sqlite.go: the status and the content
-- of a note that the hub has.
use bear_sync.Prelude.{
  String, Bool, true, false, Option, some, List, ◌==◌, ◌≡◌, refl, sym, ◌∙◌, inl, inr, ◌⊎◌, arith,
  eq_iff, some_injective, select, select_sound, update, if◌then◌else◌,
}
use mathlib.Core.Path.{subst}
use bear_sync.Models.Note.{Note, pending_to_bear, conflict}
use bear_sync.Store.Db.{note_by_id}
use bear_sync.Store.NoteRows.{select-update_note}
use bear_sync.Store.Push.Notes.{
  is_pending_to_bear, pending_status, update_pending, overwrite, detect_content_conflict,
}

-- A conflict stays one; a pending write stays pending, with the consumer's content and Bear's
-- snapshot, or becomes a conflict.
pub record Kept (m m' : Note) : Type 0 where
  pub conflict_kept : m.sync_status ≡ conflict → m'.sync_status ≡ conflict
  pub pending_kept :
      m.sync_status ≡ pending_to_bear
      → (m'.sync_status ≡ pending_to_bear) ⊎ (m'.sync_status ≡ conflict)
  pub content_kept :
      m.sync_status ≡ pending_to_bear
      → m'.sync_status ≡ pending_to_bear
      → (m'.title ≡ m.title)
        × (m'.body ≡ m.body)
        × (m'.pending_bear_title ≡ m.pending_bear_title)
        × (m'.pending_bear_body ≡ m.pending_bear_body)

pub Kept-refl : (m : Note) → Kept m m
Kept-refl m = record {
  conflict_kept = λ e. e;
  pending_kept = λ e. inl e;
  content_kept = λ _ _. (refl, refl, refl, refl);
}

pub Kept-trans : (a b c : Note) → Kept a b → Kept b c → Kept a c
Kept-trans a b c k l = record {
  conflict_kept = λ e. l.conflict_kept (k.conflict_kept e);
  pending_kept =
      λ e. elim (k.pending_kept e) [ inl p ↦ l.pending_kept p | inr q ↦ inr (l.conflict_kept q) ];
  content_kept = λ e f. elim (k.pending_kept e) [
    | inl p ↦
        let x = k.content_kept e p in
        let y = l.content_kept p f in (y.0 ∙ x.0, y.1 ∙ x.1, y.2 ∙ x.2, y.3 ∙ x.3)
    | inr q ↦ cc (l.conflict_kept q)
  ];
}

detect_cases :
    (delta : Note) (hub_title hub_body : String) (title body : Option String)
    → let s = detect_content_conflict delta hub_title hub_body title body in
      (s ≡ pending_to_bear) ⊎ (s ≡ conflict)
unfolding detect_content_conflict
detect_cases delta hub_title hub_body title body = ground arith

Kept-if : (m x : Note) (b : Bool) → (b ≡ true → Kept m x) → Kept m (if b then x else m)
Kept-if m x true h = h refl
Kept-if m x false h = Kept-refl m

pending_or_conflict :
    (delta row : Note)
    → (pending_status delta row ≡ pending_to_bear) ⊎ (pending_status delta row ≡ conflict)
unfolding pending_status
pending_or_conflict delta row =
    ground
      (arith, detect_cases delta row.title row.body row.pending_bear_title row.pending_bear_body)

pub Kept-update_pending :
    (delta row : Note) → row.sync_status ≡ pending_to_bear → Kept row (update_pending delta row)
unfolding update_pending
Kept-update_pending delta row p = record {
  conflict_kept = λ e. cc;
  pending_kept = λ _. pending_or_conflict delta row;
  content_kept = λ _ _. (refl, refl, refl, refl);
}

pub Kept-overwrite :
    (delta row : Note) → is_pending_to_bear row.sync_status ≡ false → Kept row (overwrite delta row)
unfolding overwrite
Kept-overwrite delta row p = record {
  conflict_kept = λ e. rw e;
  pending_kept = λ e. ground arith;
  content_kept = λ e _. ground arith;
}

-- The row `k` of the table `notes` has a successor in `notes'`.
pub record Follows (k : String) (m : Note) (notes' : List Note) : Type 0 where
  pub later : Note
  pub found : select (note_by_id k) notes' ≡ some later
  pub kept : Kept m later

module _ (k : String) {m : Note} where
  pub Follows-update :
      (p : Note → Bool) (f : Note → Note) (notes : List Note)
      → ((n : Note) → p n ≡ true → (f n).id ≡ n.id)
      → (p m ≡ true → Kept m (f m))
      → select (note_by_id k) notes ≡ some m
      → Follows k m (update p f notes)
  Follows-update p f notes keeps kept h = record {
    later = if p m then f m else m;
    found = select-update_note p f keeps k notes h;
    kept = Kept-if m (f m) (p m) kept;
  }

-- The row that an upsert found is the row `k`, if it has that id.
pub same_row :
    (k : String) (notes : List Note) {row m : Note}
    → select (note_by_id row.id) notes ≡ some row
    → select (note_by_id k) notes ≡ some m
    → (m.id == row.id) ≡ true
    → row ≡ m
same_row k notes {row} {m} hr hm e =
    let at_k = (eq_iff m.id k).0 (select_sound (note_by_id k) notes hm) in
    let at_row = (eq_iff m.id row.id).0 e in
    some_injective
      (sym hr ∙ subst (λ j. select (note_by_id j) notes ≡ some m) (sym at_k ∙ at_row) hm)
