-- ===== src/Bridge/Bear.antt =====
-- What cmd/bridge/queue.go calls: the interfaces `BearDB` (internal/beardb/beardb.go) and
-- `XCallback` (internal/xcallback/xcallback.go) on the state of Bear, which is unknown, the
-- download of an attachment from the hub, and the texts that Go's libraries make.
use bear_sync.Prelude.{ℕ, String, Bool, Option, List}
use bear_sync.Mapper.Date.{CoreDate}

-- An error of a call; `is_bear` holds of a `BearError`, whose `Msg` is `msg`.
pub record Problem : Type 0 where
  pub is_bear : Bool
  pub msg : String

pub data Fallible {ℓ} (A : Type ℓ) : Type ℓ where
  fails : Problem → Fallible A
  gives : A → Fallible A

pub data Done : Type 0 where
  done : Done

pub record NoteBasicInfo : Type 0 where
  pub uuid : String
  pub title : String
  pub body : String
  pub modified_at : CoreDate
  pub trashed : ℕ
  pub archived : ℕ

-- Why an item fails, for each `fmt.Errorf` of the file.
pub data Failure : Type 0 where
  bad_payload : String → Failure
  body_too_large : ℕ → Failure
  call_failed : String → Problem → Failure
  query_failed : String → Problem → Failure
  unresolved : ℕ → String → Failure
  not_created : Failure
  ambiguous : ℕ → String → Failure
  missing : String → Failure
  attachment_too_large : String → ℕ → Failure
  unknown_action : String → Failure

pub record Bear : Type 1 where
  pub State : Type 0
  -- BearDB
  pub note_by_uuid : State → String → Fallible (Option NoteBasicInfo)
  pub note_tag_titles : State → String → Fallible (List String)
  pub note_attachment_filenames : State → String → Fallible (List String)
  pub find_recent_notes_by_title : State → String → Fallible (List NoteBasicInfo)
  -- XCallback: a call that fails may have changed Bear, too
  pub create : State → String → String → List String → State × Fallible String
  pub update : State → String → String → State × Fallible Done
  pub add_tag : State → String → String → State × Fallible Done
  pub trash : State → String → State × Fallible Done
  pub archive : State → String → State × Fallible Done
  pub add_file : State → String → String → List ℕ → State × Fallible Done
  pub rename_tag : State → String → String → State × Fallible Done
  pub delete_tag : State → String → State × Fallible Done
  -- what else happens to Bear while the bridge sleeps before it verifies
  pub sleep : State → State
  -- `HubClient.DownloadAttachment`
  pub download_attachment : String → Fallible (List ℕ)
  -- `Error()` of an error, and `time.Unix(…).UTC().Format(time.RFC3339)`
  pub describe : Failure → String
  pub rfc3339 : ℕ → String
