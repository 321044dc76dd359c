-- ===== src/Bridge/Limits.antt =====
-- Proofs about the size of what cmd/bridge/queue.go sends to Bear.
use Prim.Native.String.{len}
use bear_sync.Prelude.{
  String, Bool, not, ◌&&◌, List, ◌==◌, ◌≡◌, refl, ap, ◌∙◌, inl, inr, ltb, Bool-cases, Option-cases,
  if◌then◌else◌,
}
use bear_sync.Models.WriteQueue.{
  WriteQueueItem, Action, create, update, add_tag, trash, add_file, archive, rename_tag, delete_tag,
  other,
}
use bear_sync.Bridge.Bear.{Fallible, fails, gives, Done, NoteBasicInfo, call_failed, missing, Bear}
use bear_sync.Bridge.Payload.{string_field, strings_field}
use bear_sync.Bridge.Actions.{
  max_xcallback_body_size, Applied, refuses, applies, Created, created_note, note_or_nil,
  apply_create, create_in_bear, create_fallback, bear_modified_at_from_note, apply_update,
  update_in_bear, find_bear_note_for_item, find_by_note_id, apply_trash, apply_archive,
  apply_note_state_change, verified,
}
use bear_sync.Bridge.TagActions.{
  apply_add_tag, apply_add_file, apply_rename_tag, apply_delete_tag, finished, deleted, send_file,
}
use bear_sync.Bridge.Again.{Applied-cases}
use bear_sync.Bridge.Queue.{apply_action, ack_created, ack_updated, ack_done}

abbrev is_large : String → Bool
is_large body = ltb max_xcallback_body_size (len body)

-- The Bear `B`, but for what it does when it is called with a larger body than the limit.
abbrev pub otherwise :
    (B : Bear)
    → (B.State → String → String → List String → B.State × Fallible String)
    → (B.State → String → String → B.State × Fallible Done)
    → Bear
otherwise B create_large update_large = record B {
  create = λ s title body tags.
      if is_large body then create_large s title body tags else B.create s title body tags;
  update = λ s u body. if is_large body then update_large s u body else B.update s u body;
}

module _ (B : Bear)
    (create_large : B.State → String → String → List String → B.State × Fallible String)
    (update_large : B.State → String → String → B.State × Fallible Done) where
  abbrev Other : Bear
  Other = otherwise B create_large update_large

  create_same :
      (s : B.State) (title body : String) (tags : List String)
      → create_in_bear Other s title body tags ≡ create_in_bear B s title body tags
  unfolding create_in_bear create_fallback bear_modified_at_from_note
  create_same s title body tags = elim (Bool-cases (is_large body)) [
    | inl e ↦ rw (e, create_in_bear) refl
    | inr e ↦
        let same : Other.create s title body tags ≡ B.create s title body tags = rw e refl in
        let next : B.State → B.State × Applied Created = λ x. elim (B.create s title body tags).1 [
          | fails p ↦ (x, refuses (call_failed "create" p))
          | gives bear_id ↦ (B.sleep x, created_note B (B.sleep x) bear_id title)
        ] in
        rw (e, create_in_bear) (ap next (ap (λ (x : B.State × Fallible String). x.0) same))
  ]

  update_same :
      (s : B.State) (n : NoteBasicInfo) (body : String)
      → update_in_bear Other s n body ≡ update_in_bear B s n body
  unfolding update_in_bear bear_modified_at_from_note
  update_same s n body = elim (Bool-cases (is_large body)) [
    | inl e ↦ rw (e, update_in_bear) refl
    | inr e ↦
        let same : Other.update s n.uuid body ≡ B.update s n.uuid body = rw e refl in
        let next : B.State → B.State × Applied String = λ x. elim (B.update s n.uuid body).1 [
          | fails p ↦ (x, refuses (call_failed "update" p))
          | gives d ↦ (
            B.sleep x,
            applies
                (bear_modified_at_from_note B (note_or_nil B (B.note_by_uuid (B.sleep x) n.uuid))),
          )
        ] in
        rw (e, update_in_bear)
          (ap
            (λ x.
              if body == "" then (s, refuses (missing "update payload has no body")) else next x)
            (ap (λ (x : B.State × Fallible Done). x.0) same))
  ]

  apply_create_same :
      (s : B.State) (item : WriteQueueItem) → apply_create Other s item ≡ apply_create B s item
  unfolding apply_create
  apply_create_same s item = elim (Option-cases (string_field "title" item.payload)) [
    | inl t ↦ rw (t, apply_create) refl
    | inr (title, t) ↦ elim (Option-cases (string_field "body" item.payload)) [
      | inl b ↦ rw (t, b, apply_create) refl
      | inr (body, b) ↦ elim (Option-cases (strings_field "tags" item.payload)) [
        | inl g ↦ rw (t, b, g, apply_create) refl
        | inr (tags, g) ↦ rw (t, b, g, apply_create) (create_same s title body tags)
      ]
    ]
  ]

  find_same :
      (s : B.State) (item : WriteQueueItem)
      → find_bear_note_for_item Other s item ≡ find_bear_note_for_item B s item
  unfolding find_bear_note_for_item find_by_note_id
  find_same s item = refl

  apply_update_same :
      (s : B.State) (item : WriteQueueItem) → apply_update Other s item ≡ apply_update B s item
  unfolding apply_update bear_modified_at_from_note
  apply_update_same s item = elim (Option-cases (string_field "body" item.payload)) [
    | inl b ↦ rw (b, apply_update) refl
    | inr (body, b) ↦ elim (Applied-cases (find_bear_note_for_item B s item)) [
      | inl (f, h) ↦ rw (b, find_same s item ∙ h, apply_update) refl
      | inr (n, h) ↦ elim (Bool-cases (not (body == "") && n.body == body)) [
        | inl e ↦ rw (b, find_same s item ∙ h, e, apply_update) refl
        | inr e ↦ rw (b, find_same s item ∙ h, e, apply_update) (update_same s n body)
      ]
    ]
  ]

  -- Applying an item whose note is not in conflict does not depend on what Bear would do with a
  -- body of more than 51200 bytes: whatever that is, the state of Bear and the ack are the same,
  -- so that no such body is sent.
  pub apply_action_within :
      (s : B.State) (item : WriteQueueItem) (action : Action)
      → apply_action (otherwise B create_large update_large) s item action
        ≡ apply_action B s item action
  unfolding apply_action ack_created ack_updated ack_done apply_add_tag apply_trash apply_archive
      apply_add_file apply_rename_tag apply_delete_tag apply_note_state_change verified finished
      deleted send_file find_bear_note_for_item find_by_note_id
  apply_action_within s item create = ap (ack_created B item) (apply_create_same s item)
  apply_action_within s item update = ap (ack_updated B item) (apply_update_same s item)
  apply_action_within s item add_tag = refl
  apply_action_within s item trash = refl
  apply_action_within s item add_file = refl
  apply_action_within s item archive = refl
  apply_action_within s item rename_tag = refl
  apply_action_within s item delete_tag = refl
  apply_action_within s item (other a) = refl
