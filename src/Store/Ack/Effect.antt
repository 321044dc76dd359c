-- ===== src/Store/Ack/Effect.antt =====
-- Proofs about `ackUpdateNoteStatus` of internal/store/sqlite.go: one ack and the notes.
use bear_sync.Prelude.{
  ℕ, String, Bool, true, false, ◌&&◌, Option, some, List, ◌==◌, ◌≡◌, refl, ◌⊎◌, inl, inr, arith,
  nat_eq, select, update, ok, Bool-cases, Option-cases, if◌then◌else◌,
}
use mathlib.Core.Path.{subst}
use bear_sync.Models.Note.{Note, synced, conflict}
use bear_sync.Models.Sync.{SyncAckItem}
use bear_sync.Store.Db.{note_by_id}
use bear_sync.Store.NoteRows.{select-update_note}
use bear_sync.Store.Ack.{
  is_conflict, set_synced, set_created, set_created_pending, to_null_string, unless_conflict,
  set_bear_id, ack_notes,
}

-- The acked item is the last live one of the note `m`.
abbrev pub IsLast : ℕ → String → Note → Type 0
IsLast others note m = (others ≡ 0) × (note_by_id note m ≡ true)

-- The change of a note `m` to `m'` by the ack `a` of an item of the note `note`, with `others` more
-- live items of that note.
pub record AckEffect (others : ℕ) (a : SyncAckItem) (note : String) (m m' : Note) : Type 0 where
  pub same_id : m'.id ≡ m.id
  pub same_title : m'.title ≡ m.title
  pub same_body : m'.body ≡ m.body
  -- a conflict is cleared only by an ack that says so, for the note's last live item
  pub conflict_kept :
      m.sync_status ≡ conflict
      → (m'.sync_status ≡ conflict) ⊎ ((a.conflict_resolved ≡ true) × IsLast others note m)
  -- a note becomes synced only when no other item of it is live
  pub synced_last : m'.sync_status ≡ synced → (m.sync_status ≡ synced) ⊎ IsLast others note m

AckEffect-refl :
    (others : ℕ) (a : SyncAckItem) (note : String) (m : Note) → AckEffect others a note m m
AckEffect-refl others a note m = record {
  same_id = refl;
  same_title = refl;
  same_body = refl;
  conflict_kept = λ e. inl e;
  synced_last = λ e. inl e;
}

-- The successor of the row `k`.
pub record Acked (k : String) (m : Note) (others : ℕ) (a : SyncAckItem) (note : String)
    (notes' : List Note) : Type 0 where
  pub later : Note
  pub found : select (note_by_id k) notes' ≡ some later
  pub effect : AckEffect others a note m later

AckEffect-if :
    (others : ℕ) (a : SyncAckItem) (note : String) (m x : Note) (b : Bool)
    → (b ≡ true → AckEffect others a note m x)
    → AckEffect others a note m (if b then x else m)
AckEffect-if others a note m x true h = h refl
AckEffect-if others a note m x false h = AckEffect-refl others a note m

module _ (k : String) (others : ℕ) (a : SyncAckItem) (note : String) (notes : List Note) {m : Note}
    (h : select (note_by_id k) notes ≡ some m) where
  Acked-same : Acked k m others a note notes
  Acked-same = record { later = m; found = h; effect = AckEffect-refl others a note m }

  Acked-update :
      (p : Note → Bool) (f : Note → Note)
      → ((n : Note) → (f n).id ≡ n.id)
      → (p m ≡ true → AckEffect others a note m (f m))
      → Acked k m others a note (update p f notes)
  Acked-update p f keeps effect = record {
    later = if p m then f m else m;
    found = select-update_note p f (λ n _. keeps n) k notes h;
    effect = AckEffect-if others a note m (f m) (p m) effect;
  }

  Acked-set_bear_id :
      (f : Note → Note) (bear : String) {notes' : List Note}
      → ((n : Note) → (f n).id ≡ n.id)
      → (unless_conflict note m ≡ true → AckEffect others a note m (f m))
      → set_bear_id f bear note notes ≡ ok notes'
      → Acked k m others a note notes'
  unfolding set_bear_id
  Acked-set_bear_id f bear keeps effect run =
      subst (Acked k m others a note) (ground arith)
        (Acked-update (unless_conflict note) f keeps effect)

  effect_resolved :
      a.conflict_resolved ≡ true → IsLast others note m → AckEffect others a note m (set_synced m)
  effect_resolved c z = record {
    same_id = refl;
    same_title = refl;
    same_body = refl;
    conflict_kept = λ _. inr (c, z);
    synced_last = λ _. inr z;
  }

  effect_synced :
      (f : Note → Note)
      → unless_conflict note m ≡ true
      → others ≡ 0
      → ((f m).id ≡ m.id)
      → ((f m).title ≡ m.title)
      → ((f m).body ≡ m.body)
      → AckEffect others a note m (f m)
  effect_synced f g z i t b = record {
    same_id = i;
    same_title = t;
    same_body = b;
    conflict_kept = λ e. ground arith;
    synced_last = λ _. inr (z, ground arith);
  }

  effect_dated :
      (d : Option String) → AckEffect others a note m (record m { expected_bear_modified_at = d })
  effect_dated d = record {
    same_id = refl;
    same_title = refl;
    same_body = refl;
    conflict_kept = λ e. inl e;
    synced_last = λ e. inl e;
  }

  effect_created_pending :
      (hub : Note)
      → unless_conflict note m ≡ true
      → AckEffect others a note m (set_created_pending a hub m)
  effect_created_pending hub g = record {
    same_id = refl;
    same_title = refl;
    same_body = refl;
    conflict_kept = λ e. ground arith;
    synced_last = λ e. ground arith;
  }

  resolved-Acked :
      {notes' : List Note}
      → a.conflict_resolved ≡ true
      → ack_notes others a note notes ≡ ok notes'
      → Acked k m others a note notes'
  unfolding ack_notes
  resolved-Acked c run = elim (Bool-cases (nat_eq others 0)) [
    | inl z ↦ subst (Acked k m others a note) (ground arith) (
        Acked-update (λ n. note_by_id note n && is_conflict n.sync_status) set_synced (λ n. refl)
          (λ g. effect_resolved c (ground arith)))
    | inr z ↦ subst (Acked k m others a note) (ground arith) Acked-same
  ]

  created-Acked :
      {notes' : List Note}
      → a.conflict_resolved ≡ false
      → (a.bear_id == "") ≡ false
      → ack_notes others a note notes ≡ ok notes'
      → Acked k m others a note notes'
  unfolding ack_notes
  created-Acked c b run = elim (Bool-cases (nat_eq others 0)) [
    | inl z ↦
        Acked-set_bear_id (set_created a) a.bear_id (λ n. refl)
          (λ g. effect_synced (set_created a) g (ground arith) refl refl refl) (ground arith)
    | inr z ↦ elim (Option-cases (select (note_by_id note) notes)) [
      | inl e ↦ ground arith
      | inr (hub, e) ↦
          Acked-set_bear_id (set_created_pending a hub) a.bear_id (λ n. refl)
            (effect_created_pending hub) (ground arith)
    ]
  ]

  updated-Acked :
      {notes' : List Note}
      → a.conflict_resolved ≡ false
      → (a.bear_id == "") ≡ true
      → ack_notes others a note notes ≡ ok notes'
      → Acked k m others a note notes'
  unfolding ack_notes
  updated-Acked c b run = elim (Bool-cases (nat_eq others 0)) [
    | inl z ↦ subst (Acked k m others a note) (ground arith) (
        Acked-update (unless_conflict note) set_synced (λ n. refl)
          (λ g. effect_synced set_synced g (ground arith) refl refl refl))
    | inr z ↦ subst (Acked k m others a note) (ground arith) (
        Acked-update (unless_conflict note)
          (λ n. record n { expected_bear_modified_at = to_null_string a.bear_modified_at })
          (λ n. refl) (λ _. effect_dated (to_null_string a.bear_modified_at)))
  ]

  pub ack_notes-Acked :
      {notes' : List Note}
      → ack_notes others a note notes ≡ ok notes'
      → Acked k m others a note notes'
  ack_notes-Acked run = elim (Bool-cases a.conflict_resolved) [
    | inl c ↦ resolved-Acked c run
    | inr c ↦ elim (Bool-cases (a.bear_id == "")) [
      | inl b ↦ updated-Acked c b run
      | inr b ↦ created-Acked c b run
    ]
  ]
