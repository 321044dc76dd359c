-- ===== src/Bridge/TagActions.antt =====
-- The `apply…` functions of cmd/bridge/queue.go for tags and files, on the state of Bear. Logging is
-- left out.
use bear_sync.Prelude.{
  ℕ, String, Bool, true, false, ◌&&◌, ◌||◌, none, some, ◌==◌, ltb, any, length, if◌then◌else◌,
}
use text.Mathlib.Text.{find?}
use bear_sync.Models.WriteQueue.{WriteQueueItem}
use bear_sync.Bridge.Bear.{
  Problem, Fallible, fails, gives, Done, NoteBasicInfo, bad_payload, call_failed, query_failed,
  missing, attachment_too_large, Bear,
}
use bear_sync.Bridge.Payload.{string_field}
use bear_sync.Bridge.Actions.{Applied, refuses, applies, find_bear_note_for_item, verified}

abbrev pub max_bridge_add_file_size : ℕ
max_bridge_add_file_size = 5242880

module _ (B : Bear) where
  -- The end of a call that nothing verifies.
  unfoldable pub finished : String → B.State × Fallible Done → B.State × Applied Done
  finished name (s, fails e) = (s, refuses (call_failed name e))
  finished name (s, gives d) = (s, applies d)

  unfoldable pub apply_add_tag : B.State → WriteQueueItem → B.State × Applied Done
  unfolding string_field find_bear_note_for_item verified
  apply_add_tag s item = elim (string_field "tag" item.payload) [
    | none ↦ (s, refuses (bad_payload "add_tag"))
    | some tag ↦ elim (find_bear_note_for_item B s item) [
      | refuses f ↦ (s, refuses f)
      | applies n ↦ elim (B.note_tag_titles s n.uuid) [
        | fails e ↦ (s, refuses (query_failed "check existing tags" e))
        | gives tags ↦
            if any (λ t. t == tag) tags
            then (s, applies Done.done)
            else verified B "add-tag" (B.add_tag s n.uuid tag)
      ]
    ]
  ]

  -- Whether the note has a file of that name; an error of the read counts as no.
  abbrev pub has_file : B.State → String → String → Bool
  has_file s uuid filename = elim (B.note_attachment_filenames s uuid) [
    | fails e ↦ false
    | gives files ↦ any (λ f. f == filename) files
  ]

  unfoldable pub send_file : B.State → NoteBasicInfo → String → String → B.State × Applied Done
  unfolding finished
  send_file s n attachment_id filename = elim (B.download_attachment attachment_id) [
    | fails e ↦ (s, refuses (query_failed "download attachment" e))
    | gives bytes ↦
        if ltb max_bridge_add_file_size (length bytes)
        then (s, refuses (attachment_too_large attachment_id (length bytes)))
        else finished "add-file" (B.add_file s n.uuid filename bytes)
  ]

  unfoldable pub apply_add_file : B.State → WriteQueueItem → B.State × Applied Done
  unfolding string_field find_bear_note_for_item send_file
  apply_add_file s item = elim (string_field "attachment_id" item.payload) [
    | none ↦ (s, refuses (bad_payload "add_file"))
    | some attachment_id ↦ elim (string_field "filename" item.payload) [
      | none ↦ (s, refuses (bad_payload "add_file"))
      | some filename ↦
          if attachment_id == "" || filename == ""
          then (s, refuses (missing "add_file payload missing attachment_id or filename"))
          else elim (find_bear_note_for_item B s item) [
            | refuses f ↦ (s, refuses f)
            | applies n ↦
                if has_file s n.uuid filename
                then (s, applies Done.done)
                else send_file s n attachment_id filename
          ]
    ]
  ]

  unfoldable pub apply_rename_tag : B.State → WriteQueueItem → B.State × Applied Done
  unfolding string_field finished
  apply_rename_tag s item = elim (string_field "name" item.payload) [
    | none ↦ (s, refuses (bad_payload "rename_tag"))
    | some name ↦ elim (string_field "new_name" item.payload) [
      | none ↦ (s, refuses (bad_payload "rename_tag"))
      | some new_name ↦
          if name == "" || new_name == ""
          then (s, refuses (missing "rename_tag payload missing name or new_name"))
          else finished "rename-tag" (B.rename_tag s name new_name)
    ]
  ]

  -- `strings.Contains(bearErr.Msg, "not found")` of a `BearError`
  abbrev pub is_not_found : Problem → Bool
  is_not_found e = e.is_bear && elim (find? e.msg "not found") [ none ↦ false | some k ↦ true ]

  -- A tag that Bear does not have counts as deleted.
  unfoldable pub deleted : B.State × Fallible Done → B.State × Applied Done
  deleted (s, fails e) =
      if is_not_found e then (s, applies Done.done) else (s, refuses (call_failed "delete-tag" e))
  deleted (s, gives d) = (s, applies d)

  unfoldable pub apply_delete_tag : B.State → WriteQueueItem → B.State × Applied Done
  unfolding string_field deleted
  apply_delete_tag s item = elim (string_field "name" item.payload) [
    | none ↦ (s, refuses (bad_payload "delete_tag"))
    | some name ↦
        if name == ""
        then (s, refuses (missing "delete_tag payload missing name"))
        else deleted (B.delete_tag s name)
  ]
