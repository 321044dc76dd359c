-- ===== src/Store/Push/Conflict.antt =====
-- Proofs about the conflict detection of `updateExistingNote` and `detectContentConflict` in
-- internal/store/sqlite.go.
use bear_sync.Prelude.{
  none, ℕ, ap, Option, ◌==◌, matches, str_eq_self, Bool-cases, select, ok, String, Bool, true,
  false, ◌&&◌, ◌||◌, some, ◌≡◌, ◌≢◌, refl, sym, ◌∙◌, ◌↔◌, ◌⊎◌, inl, inr, arith, eq_iff,
  if◌then◌else◌,
}
use bear_sync.Models.Note.{Note, pending_to_bear, conflict}
use bear_sync.Store.Db.{Db, note_by_id, note_by_bear_id}
use bear_sync.Store.NoteRows.{UniqueIds, select-note_by_id, select-update_note}
use bear_sync.Store.Push.Upserted.{upsert_updates}
use bear_sync.Store.Push.Notes.{
  update_pending, update_existing_note, upsert_note, differ, detect_content_conflict, is_echo,
  pending_status,
}

-- Bear and the consumer both changed the field.
abbrev pub BothChanged : String → String → String → Type 0
BothChanged base bear hub = (bear ≢ base) × (hub ≢ base)

differ→ne : (a b : String) → differ a b ≡ true → a ≢ b
differ→ne a b h e = ground (arith, eq_iff a b)

ne→differ : (a b : String) → a ≢ b → differ a b ≡ true
ne→differ a b h = ground (arith, eq_iff a b)

both_tests :
    (base bear hub : String)
    → ((differ bear base && differ hub base) ≡ true) ↔ BothChanged base bear hub
both_tests base bear hub = (
  λ h. (differ→ne bear base (ground arith), differ→ne hub base (ground arith)),
  λ h. rw (ne→differ bear base h.0, ne→differ hub base h.1),
)

or_cases : (a b : Bool) → ((a || b) ≡ true) ↔ ((a ≡ true) ⊎ (b ≡ true))
or_cases true b = (λ h. inl refl, λ h. refl)
or_cases false b = (λ h. inr h, λ h. ground arith)

if_conflict : (b : Bool) → ((if b then conflict else pending_to_bear) ≡ conflict) ↔ (b ≡ true)
if_conflict true = (λ h. refl, λ h. refl)
if_conflict false = (λ h. cc, λ h. cc)

-- With a snapshot, a conflict is exactly a field that both sides changed.
pub conflict_iff :
    (delta : Note) (hub_title hub_body title body : String)
    → (detect_content_conflict delta hub_title hub_body (some title) (some body) ≡ conflict)
      ↔ (BothChanged title delta.title hub_title ⊎ BothChanged body delta.body hub_body)
unfolding detect_content_conflict
conflict_iff delta hub_title hub_body title body =
    let t = both_tests title delta.title hub_title in
    let b = both_tests body delta.body hub_body in
    let split =
      or_cases (differ delta.title title && differ hub_title title)
        (differ delta.body body && differ hub_body body) in
    (
      λ h. elim (split.0 ((if_conflict _).0 h)) [ inl x ↦ inl (t.0 x) | inr x ↦ inr (b.0 x) ],
      λ h. (if_conflict _).1 (split.1 (elim h [ inl x ↦ inl (t.1 x) | inr x ↦ inr (b.1 x) ])),
    )

-- The delta reports an edit, by the two timestamps, which is not the one that the hub expects from
-- its own write.
pub record IsGenuine (delta row : Note) : Type 0 where
  pub no_echo : row.expected_bear_modified_at ≢ some delta.modified_at
  pub dated : delta.modified_at ≢ ""
  pub row_dated : row.modified_at ≢ ""
  pub newer : delta.modified_at ≢ row.modified_at

echo→expected :
    (expected : Option String) (t : String) → matches expected t ≡ true → expected ≡ some t
echo→expected none t h = cc
echo→expected (some e) t h = ap some ((eq_iff e t).0 h)

expected→echo :
    (expected : Option String) (t : String) → expected ≡ some t → matches expected t ≡ true
expected→echo expected t h = rw (h, str_eq_self t) refl

genuine_no_echo : (delta row : Note) → IsGenuine delta row → is_echo delta row ≡ false
genuine_no_echo delta row g = elim (Bool-cases (is_echo delta row)) [
  | inl e ↦ absurd (g.no_echo (echo→expected row.expected_bear_modified_at delta.modified_at e))
  | inr e ↦ e
]

pub pending_status_genuine :
    (delta row : Note)
    → IsGenuine delta row
    → pending_status delta row
      ≡ detect_content_conflict delta row.title row.body row.pending_bear_title
          row.pending_bear_body
unfolding pending_status
pending_status_genuine delta row g = rw (
  genuine_no_echo delta row g,
  ne→differ delta.modified_at "" g.dated,
  ne→differ row.modified_at "" g.row_dated,
  ne→differ delta.modified_at row.modified_at g.newer,
)

IsGenuine-of_conflict :
    (delta row : Note) → pending_status delta row ≡ conflict → IsGenuine delta row
unfolding pending_status
IsGenuine-of_conflict delta row h = record {
  no_echo = λ e.
      cc
        (rw (expected→echo row.expected_bear_modified_at delta.modified_at e, pending_status) at h);
  dated = differ→ne _ _ (ground arith);
  row_dated = differ→ne _ _ (ground arith);
  newer = differ→ne _ _ (ground arith);
}

-- A pending note with a snapshot of Bear's content becomes a conflict exactly if the delta is a
-- genuine edit and Bear and the consumer both changed the title, or both changed the body.
pub pending_status_iff :
    (delta row : Note) (title body : String)
    → row.pending_bear_title ≡ some title
    → row.pending_bear_body ≡ some body
    → (pending_status delta row ≡ conflict) ↔ (
        IsGenuine delta row
        × (BothChanged title delta.title row.title ⊎ BothChanged body delta.body row.body))
pending_status_iff delta row title body st sb =
    let spec = conflict_iff delta row.title row.body title body in
    let shape = λ (g : IsGenuine delta row). pending_status_genuine delta row g ∙ rw (st, sb) in
    (
      λ h. let g = IsGenuine-of_conflict delta row h in (g, spec.0 (sym (shape g) ∙ h)),
      λ h. shape h.0 ∙ spec.1 h.1,
    )

-- If a delta comes for a note that waits for Bear with a snapshot of Bear's content, then after
-- its upsert the note has the consumer's title and body still, and it is in conflict exactly if
-- the delta is a genuine edit and Bear and the consumer both changed the title, or both changed
-- the body.
pub upsert_conflict_iff :
    (random_id : ℕ → String) (db : Db) (delta row : Note) (b title body : String)
    → UniqueIds db.notes
    → delta.bear_id ≡ some b
    → (b == "") ≡ false
    → select (note_by_bear_id b) db.notes ≡ some row
    → (row.id == "") ≡ false
    → row.sync_status ≡ pending_to_bear
    → row.pending_bear_title ≡ some title
    → row.pending_bear_body ≡ some body
    → (db' : Db) × (delta' : Note) × (m : Note) × (upsert_note random_id db delta
        ≡ ok (db', delta'))
      × (select (note_by_id row.id) db'.notes ≡ some m)
      × (m.title ≡ row.title)
      × (m.body ≡ row.body)
      × ((m.sync_status ≡ conflict) ↔ (
          IsGenuine delta row
          × (BothChanged title delta.title row.title ⊎ BothChanged body delta.body row.body)))
unfolding update_existing_note update_pending
upsert_conflict_iff random_id db delta row b title body u known given found named waits st sb =
    let by_id = select-note_by_id (note_by_bear_id b) db.notes {row = row} u found in
    let at_row =
      select-update_note (note_by_id row.id) (λ _. update_pending delta row)
        (λ n e. sym ((eq_iff n.id row.id).0 e)) row.id db.notes by_id in
    let updated = update_existing_note db.notes delta row in
    (
      record db { notes = updated.0 },
      updated.1,
      update_pending delta row,
      upsert_updates random_id db delta {row = row} (rw (known, given, found) refl) named,
      rw waits (at_row ∙ rw (str_eq_self row.id) refl),
      refl,
      refl,
      pending_status_iff delta row title body st sb,
    )
