-- ===== src/Bridge/Actions.antt =====
-- The `apply…` functions of cmd/bridge/queue.go for notes, on the state of Bear. Logging is left
-- out.
use Prim.Native.String.{len}
use bear_sync.Prelude.{
  ℕ, String, Bool, not, ◌&&◌, Option, none, some, List, [], ◌∷◌, ◌==◌, ltb, nat_eq, length,
  if◌then◌else◌,
}
use bear_sync.Models.WriteQueue.{WriteQueueItem}
use bear_sync.Mapper.Date.{is_zero, convert_core_data_date}
use bear_sync.Bridge.Bear.{
  Fallible, fails, gives, Done, NoteBasicInfo, Failure, bad_payload, body_too_large, call_failed,
  query_failed, unresolved, not_created, ambiguous, missing, Bear,
}
use bear_sync.Bridge.Payload.{string_field, strings_field, any_string}

abbrev pub max_xcallback_body_size : ℕ
max_xcallback_body_size = 51200

-- What an `apply…` function returns: an error, or what it returns with nil.
pub data Applied {ℓ} (A : Type ℓ) : Type ℓ where
  refuses : Failure → Applied A
  applies : A → Applied A

-- `ack.BearID` and `ack.BearModifiedAt`
pub record Created : Type 0 where
  pub bear_id : String
  pub bear_modified_at : String

module _ (B : Bear) where
  -- `bearModifiedAtFromNote`, where `none` is nil
  unfoldable pub bear_modified_at_from_note : Option NoteBasicInfo → String
  unfolding convert_core_data_date
  bear_modified_at_from_note none = ""
  bear_modified_at_from_note (some n) =
      if is_zero n.modified_at then "" else convert_core_data_date B.rfc3339 (some n.modified_at)

  -- The note of a read that is verification only: an error is logged, and leaves nil.
  abbrev pub note_or_nil : Fallible (Option NoteBasicInfo) → Option NoteBasicInfo
  note_or_nil (fails e) = none
  note_or_nil (gives n) = n

  -- The second lookup of `findBearNoteForItem`, by `NoteID`.
  unfoldable pub find_by_note_id : B.State → WriteQueueItem → Applied NoteBasicInfo
  find_by_note_id s item =
      if item.note_id == ""
      then refuses (unresolved item.id item.note_id)
      else elim (B.note_by_uuid s item.note_id) [
        | fails e ↦ refuses (query_failed "query note by note_id" e)
        | gives none ↦ refuses (unresolved item.id item.note_id)
        | gives (some n) ↦ applies n
      ]

  unfoldable pub find_bear_note_for_item : B.State → WriteQueueItem → Applied NoteBasicInfo
  unfolding any_string find_by_note_id
  find_bear_note_for_item s item =
      let bear_id = any_string "bear_id" item.payload in
      if bear_id == "" then find_by_note_id s item else elim (B.note_by_uuid s bear_id) [
        | fails e ↦ refuses (query_failed "query note by bear_id from payload" e)
        | gives none ↦ find_by_note_id s item
        | gives (some n) ↦ applies n
      ]

  -- The search by title, where bear-xcall returned no identifier.
  unfoldable pub create_fallback : B.State → String → Applied Created
  unfolding bear_modified_at_from_note
  create_fallback s title = elim (B.find_recent_notes_by_title s title) [
    | fails e ↦ refuses (query_failed "fallback search" e)
    | gives [] ↦ refuses not_created
    | gives (n ∷ []) ↦
        applies
          (record { bear_id = n.uuid; bear_modified_at = bear_modified_at_from_note (some n) })
    | gives (n ∷ m ∷ notes) ↦ refuses (ambiguous (length (n ∷ m ∷ notes)) title)
  ]

  abbrev pub created_note : B.State → String → String → Applied Created
  created_note s bear_id title =
      if bear_id == ""
      then create_fallback s title
      else applies (record {
        bear_id = bear_id;
        bear_modified_at = bear_modified_at_from_note (note_or_nil (B.note_by_uuid s bear_id));
      })

  unfoldable pub create_in_bear :
      B.State → String → String → List String → B.State × Applied Created
  unfolding create_fallback bear_modified_at_from_note
  create_in_bear s title body tags =
      if ltb max_xcallback_body_size (len body)
      then (s, refuses (body_too_large (len body)))
      else (let (s', r) = B.create s title body tags in
          elim r [
            | fails e ↦ (s', refuses (call_failed "create" e))
            | gives bear_id ↦ (B.sleep s', created_note (B.sleep s') bear_id title)
          ])

  unfoldable pub apply_create : B.State → WriteQueueItem → B.State × Applied Created
  unfolding string_field strings_field create_in_bear
  apply_create s item = elim (string_field "title" item.payload) [
    | none ↦ (s, refuses (bad_payload "create"))
    | some title ↦ elim (string_field "body" item.payload) [
      | none ↦ (s, refuses (bad_payload "create"))
      | some body ↦ elim (strings_field "tags" item.payload) [
        | none ↦ (s, refuses (bad_payload "create"))
        | some tags ↦ create_in_bear s title body tags
      ]
    ]
  ]

  -- From the size check on.
  unfoldable pub update_in_bear : B.State → NoteBasicInfo → String → B.State × Applied String
  unfolding bear_modified_at_from_note
  update_in_bear s n body =
      if body == ""
      then (s, refuses (missing "update payload has no body"))
      else if ltb max_xcallback_body_size (len body)
      then (s, refuses (body_too_large (len body)))
      else (let (s', r) = B.update s n.uuid body in
          elim r [
            | fails e ↦ (s', refuses (call_failed "update" e))
            | gives d ↦ (
              B.sleep s',
              applies
                  (bear_modified_at_from_note (note_or_nil (B.note_by_uuid (B.sleep s') n.uuid))),
            )
          ])

  unfoldable pub apply_update : B.State → WriteQueueItem → B.State × Applied String
  unfolding string_field find_bear_note_for_item update_in_bear bear_modified_at_from_note
  apply_update s item = elim (string_field "body" item.payload) [
    | none ↦ (s, refuses (bad_payload "update"))
    | some body ↦ elim (find_bear_note_for_item s item) [
      | refuses f ↦ (s, refuses f)
      | applies n ↦
          if not (body == "") && n.body == body
          then (s, applies (bear_modified_at_from_note (some n)))
          else update_in_bear s n body
    ]
  ]

  -- The end of a call, with a sleep and a verification, which only logs.
  unfoldable pub verified : String → B.State × Fallible Done → B.State × Applied Done
  verified name (s, fails e) = (s, refuses (call_failed name e))
  verified name (s, gives d) = (B.sleep s, applies d)

  -- `noteStateChange`, without what only the log reads.
  pub record NoteStateChange : Type 0 where
    pub name : String
    pub is_applied : NoteBasicInfo → Bool
    pub execute : B.State → String → B.State × Fallible Done

  unfoldable pub apply_note_state_change :
      B.State → WriteQueueItem → NoteStateChange → B.State × Applied Done
  unfolding find_bear_note_for_item verified
  apply_note_state_change s item sc = elim (find_bear_note_for_item s item) [
    | refuses f ↦ (s, refuses f)
    | applies n ↦
        if sc.is_applied n then (s, applies Done.done) else verified sc.name (sc.execute s n.uuid)
  ]

  abbrev pub trash_change : NoteStateChange
  trash_change = record { name = "trash"; is_applied = λ n. nat_eq n.trashed 1; execute = B.trash }

  abbrev pub archive_change : NoteStateChange
  archive_change = record {
    name = "archive";
    is_applied = λ n. nat_eq n.archived 1;
    execute = B.archive;
  }

  unfoldable pub apply_trash : B.State → WriteQueueItem → B.State × Applied Done
  unfolding apply_note_state_change
  apply_trash s item = apply_note_state_change s item trash_change

  unfoldable pub apply_archive : B.State → WriteQueueItem → B.State × Applied Done
  unfolding apply_note_state_change
  apply_archive s item = apply_note_state_change s item archive_change
