-- ===== src/Bridge/Copies.antt =====
-- Proofs about `handleConflictItem` of cmd/bridge/queue.go on the notes of Bear.
use bear_sync.Prelude.{String, true, some, List, [], ◌∷◌, ◌≡◌, refl, sym, All}
use mathlib.Core.Path.{subst}
use bear_sync.Models.WriteQueue.{WriteQueueItem, LeasedItem}
use bear_sync.Bridge.Bear.{Fallible, fails, gives, NoteBasicInfo, Bear}
use bear_sync.Bridge.Queue.{
  has_conflict, handle_conflict_item, extract_conflict_content, conflict_title, ack_copied,
  apply_queue_item, process_items,
}

-- Creating a note leaves the notes that Bear has as they are.
abbrev pub CreateKeeps : Bear → Type 0
CreateKeeps B =
    (s : B.State) (title body : String) (tags : List String) (u : String) (n : NoteBasicInfo)
    → B.note_by_uuid s u ≡ gives (some n)
    → B.note_by_uuid (B.create s title body tags).0 u ≡ gives (some n)

module _ (B : Bear) (keeps : CreateKeeps B) (u : String) (n : NoteBasicInfo) where
  state-ack_copied :
      (item : WriteQueueItem) (out : B.State × Fallible String) → (ack_copied B item out).0 ≡ out.0
  unfolding ack_copied
  state-ack_copied item (s, fails e) = refl
  state-ack_copied item (s, gives b) = refl

  copy_keeps :
      (s : B.State) (i : LeasedItem)
      → has_conflict i ≡ true
      → B.note_by_uuid s u ≡ gives (some n)
      → B.note_by_uuid (apply_queue_item B s i).0 u ≡ gives (some n)
  unfolding apply_queue_item handle_conflict_item
  copy_keeps s i c h =
      let content = extract_conflict_content B s i.item in
      let out = B.create s (conflict_title B content.title) content.body content.tags in
      let kept = keeps s (conflict_title B content.title) content.body content.tags u n h in
      rw c
        (subst (λ x. B.note_by_uuid x u ≡ gives (some n)) (sym (state-ack_copied i.item out)) kept)

  -- Where creating a note leaves the notes of Bear as they are, items whose notes are in conflict
  -- leave every note that Bear had as it was.
  pub process_items_keeps :
      (s : B.State) (items : List LeasedItem)
      → All (λ i. has_conflict i ≡ true) items
      → B.note_by_uuid s u ≡ gives (some n)
      → B.note_by_uuid (process_items B s items).0 u ≡ gives (some n)
  unfolding process_items
  process_items_keeps s [] c h = h
  process_items_keeps s (i ∷ items) c h =
      process_items_keeps (apply_queue_item B s i).0 items c.1 (copy_keeps s i c.0 h)
