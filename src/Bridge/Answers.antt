-- ===== src/Bridge/Answers.antt =====
-- Proofs about the acks of `applyQueueItem` and `processQueue` in cmd/bridge/queue.go.
use bear_sync.Prelude.{
  String, true, false, List, [], ◌∷◌, ◌==◌, ◌≡◌, refl, ◌⊎◌, inl, inr, Bool-cases,
}
use bear_sync.Models.WriteQueue.{
  LeasedItem, Action, create, update, add_tag, trash, add_file, archive, rename_tag, delete_tag,
  other, is_create,
}
use bear_sync.Models.Sync.{SyncAckItem, AckStatus}
use bear_sync.Bridge.Bear.{Fallible, fails, gives, Done, Bear}
use bear_sync.Bridge.Actions.{
  Applied, refuses, applies, Created, apply_create, apply_update, apply_trash, apply_archive,
}
use bear_sync.Bridge.TagActions.{apply_add_tag, apply_add_file, apply_rename_tag, apply_delete_tag}
use bear_sync.Bridge.Queue.{
  has_conflict, handle_conflict_item, extract_conflict_content, conflict_title, ack_copied,
  ack_created, ack_updated, ack_done, apply_action, apply_queue_item, process_items,
}

-- The ack `a` answers the item `i`.
pub record IsAnswer (i : LeasedItem) (a : SyncAckItem) : Type 0 where
  pub same_id : a.queue_id ≡ i.id
  pub same_key : a.idempotency_key ≡ i.idempotency_key
  pub decided : (a.status ≡ AckStatus.applied) ⊎ (a.status ≡ AckStatus.failed)
  -- only the copy of a conflict resolves one
  pub resolves_conflict : a.conflict_resolved ≡ true → has_conflict i ≡ true
  -- only a create without a conflict names a note of Bear
  pub names_created :
      (a.bear_id == "") ≡ false → (is_create i.action ≡ true) × (has_conflict i ≡ false)

module _ (B : Bear) (i : LeasedItem) where
  copied-IsAnswer :
      has_conflict i ≡ true
      → (out : B.State × Fallible String) → IsAnswer i (ack_copied B i.item out).1
  unfolding ack_copied
  copied-IsAnswer h (s, fails e) = record {
    same_id = refl;
    same_key = refl;
    decided = inr refl;
    resolves_conflict = λ _. h;
    names_created = λ e. cc;
  }
  copied-IsAnswer h (s, gives b) = record {
    same_id = refl;
    same_key = refl;
    decided = inl refl;
    resolves_conflict = λ _. h;
    names_created = λ e. cc;
  }

  conflict-IsAnswer :
      (s : B.State) → has_conflict i ≡ true → IsAnswer i (handle_conflict_item B s i.item).1
  unfolding handle_conflict_item
  conflict-IsAnswer s h =
      let c = extract_conflict_content B s i.item in
      copied-IsAnswer h (B.create s (conflict_title B c.title) c.body c.tags)

  created-IsAnswer :
      has_conflict i ≡ false
      → is_create i.action ≡ true
      → (out : B.State × Applied Created) → IsAnswer i (ack_created B i.item out).1
  unfolding ack_created
  created-IsAnswer h k (s, refuses f) = record {
    same_id = refl;
    same_key = refl;
    decided = inr refl;
    resolves_conflict = λ e. cc;
    names_created = λ e. (k, h);
  }
  created-IsAnswer h k (s, applies c) = record {
    same_id = refl;
    same_key = refl;
    decided = inl refl;
    resolves_conflict = λ e. cc;
    names_created = λ e. (k, h);
  }

  updated-IsAnswer : (out : B.State × Applied String) → IsAnswer i (ack_updated B i.item out).1
  unfolding ack_updated
  updated-IsAnswer (s, refuses f) = record {
    same_id = refl;
    same_key = refl;
    decided = inr refl;
    resolves_conflict = λ e. cc;
    names_created = λ e. cc;
  }
  updated-IsAnswer (s, applies c) = record {
    same_id = refl;
    same_key = refl;
    decided = inl refl;
    resolves_conflict = λ e. cc;
    names_created = λ e. cc;
  }

  done-IsAnswer : (out : B.State × Applied Done) → IsAnswer i (ack_done B i.item out).1
  unfolding ack_done
  done-IsAnswer (s, refuses f) = record {
    same_id = refl;
    same_key = refl;
    decided = inr refl;
    resolves_conflict = λ e. cc;
    names_created = λ e. cc;
  }
  done-IsAnswer (s, applies d) = record {
    same_id = refl;
    same_key = refl;
    decided = inl refl;
    resolves_conflict = λ e. cc;
    names_created = λ e. cc;
  }

  action-IsAnswer :
      (s : B.State) (a : Action)
      → i.action ≡ a
      → has_conflict i ≡ false
      → IsAnswer i (apply_action B s i.item a).1
  unfolding apply_action
  action-IsAnswer s create e h = created-IsAnswer h (rw e) (apply_create B s i.item)
  action-IsAnswer s update e h = updated-IsAnswer (apply_update B s i.item)
  action-IsAnswer s add_tag e h = done-IsAnswer (apply_add_tag B s i.item)
  action-IsAnswer s trash e h = done-IsAnswer (apply_trash B s i.item)
  action-IsAnswer s add_file e h = done-IsAnswer (apply_add_file B s i.item)
  action-IsAnswer s archive e h = done-IsAnswer (apply_archive B s i.item)
  action-IsAnswer s rename_tag e h = done-IsAnswer (apply_rename_tag B s i.item)
  action-IsAnswer s delete_tag e h = done-IsAnswer (apply_delete_tag B s i.item)
  action-IsAnswer s (other t) e h = record {
    same_id = refl;
    same_key = refl;
    decided = inr refl;
    resolves_conflict = λ x. cc;
    names_created = λ x. cc;
  }

  pub apply_queue_item-IsAnswer : (s : B.State) → IsAnswer i (apply_queue_item B s i).1
  unfolding apply_queue_item
  apply_queue_item-IsAnswer s = elim (Bool-cases (has_conflict i)) [
    | inl h ↦ rw h (conflict-IsAnswer s h)
    | inr h ↦ rw h (action-IsAnswer s i.action refl h)
  ]

-- One ack per item, in the order of the items.
abbrev pub AreAnswers : List LeasedItem → List SyncAckItem → Type 0
AreAnswers [] [] = Unit
AreAnswers (i ∷ items) (a ∷ acks) = IsAnswer i a × AreAnswers items acks
AreAnswers _ _ = ⊥

-- The bridge makes one ack per item in the order of the items: it carries the id and the key of
-- the item, is applied or failed, says that a conflict is resolved only for an item whose note is
-- in conflict, and names a note of Bear only for a create whose note is not.
pub process_items-AreAnswers :
    (B : Bear) (s : B.State) (items : List LeasedItem)
    → AreAnswers items (process_items B s items).1
unfolding process_items
process_items-AreAnswers B s [] = tt
process_items-AreAnswers B s (i ∷ items) =
    (apply_queue_item-IsAnswer B i s, process_items-AreAnswers B (apply_queue_item B s i).0 items)
