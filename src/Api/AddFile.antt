-- ===== src/Api/AddFile.antt =====
-- `addFile` and `writeUploadedFile` of internal/api/notes_handler.go. The directory of attachments is
-- the list of its files: a file stands in a directory of its own, named by an id that the handler
-- draws. That `os.RemoveAll` removes what it is told to is taken for granted.
use bear_sync.Prelude.{
  ℕ, suc, String, ◌||◌, Option, none, some, List, [], ◌∷◌, ◌++◌, ◌==◌, ltb, length, take, delete,
  ok, err, if◌then◌else◌,
}
use bear_sync.Models.WriteQueue.{Payload, add_file, text, object}
use bear_sync.Models.Note.{Note}
use bear_sync.Store.Db.{Db}
use bear_sync.Store.NoteTable.{get_note}
use bear_sync.Bridge.Payload.{string_field}
use bear_sync.Api.Notes.{bear_id_of}
use bear_sync.Api.Reply.{
  Reply, refused, item_reply, Caller, write_of, try_enqueue, existing_item, is_retryable_queue_item,
  refusal,
}

pub record StoredFile : Type 0 where
  pub dir : String
  pub name : String
  pub bytes : List ℕ

abbrev pub Disk : Type 0
Disk = List StoredFile

-- `os.RemoveAll` of a directory.
abbrev pub remove_dir : String → Disk → Disk
remove_dir dir disk = delete (λ f. f.dir == dir) disk

abbrev pub max_add_file_size : ℕ
max_add_file_size = 5242880

-- Which call of the file system fails, if one does; a copy fails after some bytes.
pub data Fault : Type 0 where
  no_fault mkdir_fails create_fails close_fails : Fault
  copy_fails : ℕ → Fault

-- What stands for a directory that `os.MkdirAll` made and that has no file yet.
abbrev pub empty_dir : String → StoredFile
empty_dir dir = record { dir = dir; name = "."; bytes = [] }

pub data Written : Type 0 where
  stored too_large write_failed : Written

-- One byte more than the limit is copied at most.
unfoldable pub write_uploaded_file : Fault → String → String → List ℕ → Disk → Disk × Written
write_uploaded_file mkdir_fails dir name file disk = (disk, write_failed)
write_uploaded_file create_fails dir name file disk =
    (remove_dir dir (disk ++ empty_dir dir ∷ []), write_failed)
write_uploaded_file (copy_fails k) dir name file disk =
    let part = take k (take (suc max_add_file_size) file) in
    let disk' = disk ++ record { dir = dir; name = name; bytes = part } ∷ [] in
    (remove_dir dir disk', write_failed)
write_uploaded_file close_fails dir name file disk =
    let copied = take (suc max_add_file_size) file in
    let disk' = disk ++ record { dir = dir; name = name; bytes = copied } ∷ [] in
    if ltb max_add_file_size (length copied)
    then (remove_dir dir disk', too_large)
    else (remove_dir dir disk', write_failed)
write_uploaded_file no_fault dir name file disk =
    let copied = take (suc max_add_file_size) file in
    let disk' = disk ++ record { dir = dir; name = name; bytes = copied } ∷ [] in
    if ltb max_add_file_size (length copied)
    then (remove_dir dir disk', too_large)
    else (disk', stored)

-- The part of the form: its name, the size that its header says, and its bytes.
pub record Upload : Type 0 where
  pub filename : String
  pub size : ℕ
  pub bytes : List ℕ

-- `base` is `filepath.Base`.
abbrev pub safe_name : (String → String) → String → String
safe_name base name = let b = base name in if b == "" || b == "." || b == "/" then "file" else b

abbrev pub file_payload : String → String → String → Payload
file_payload id name bear_id =
    object (("attachment_id", text id) ∷ ("bear_id", text bear_id) ∷ ("filename", text name) ∷ [])

-- The file stays unless the item that is returned names another.
abbrev pub keep_if_named : String → Option String → Disk → Disk
keep_if_named id none disk = disk
keep_if_named id (some k) disk = if k == id then disk else remove_dir id disk

-- From `EnqueueWrite` on.
unfoldable pub enqueue_file : Db → Disk → Caller → Note → String → String → (Db × Disk) × Reply
unfolding try_enqueue string_field
enqueue_file db disk c n id name =
    elim (try_enqueue c db.queue (write_of c add_file n.id (file_payload id name (bear_id_of n)))) [
      | err e ↦ ((db, remove_dir id disk), refused 500 "failed to enqueue write")
      | ok (q, i) ↦ (
        (record db { queue = q }, keep_if_named id (string_field "attachment_id" i.payload) disk),
        item_reply 202 i,
      )
    ]

-- What follows the writing of the file.
abbrev pub after_write : Db → Caller → Note → String → String → Disk × Written → (Db × Disk) × Reply
after_write db c n id name (disk, too_large) = ((db, disk), refused 413 "file exceeds 5 MB limit")
after_write db c n id name (disk, write_failed) =
    ((db, disk), refused 500 "failed to write uploaded file")
after_write db c n id name (disk, stored) = enqueue_file db disk c n id name

unfoldable pub upload_once :
    (String → String) → String → Fault → Db → Disk → Caller → Note → Upload → (Db × Disk) × Reply
unfolding existing_item is_retryable_queue_item write_uploaded_file enqueue_file
upload_once base id fault db disk c n file =
    let name = safe_name base file.filename in
    let written = after_write db c n id name (write_uploaded_file fault id name file.bytes disk) in
    if ltb max_add_file_size file.size
    then ((db, disk), refused 413 "file exceeds 5 MB limit")
    else elim (existing_item db c) [
      | none ↦ written
      | some i ↦
          if is_retryable_queue_item (some i) then ((db, disk), item_reply 202 i) else written
    ]

-- `file` is `none` where the form has no file; `id` is the one that `generateID` draws.
unfoldable pub add_file_request :
    (String → String)
    → String
    → Fault
    → Db
    → Disk
    → Caller
    → String
    → Option Upload
    → (Db × Disk) × Reply
unfolding get_note refusal upload_once
add_file_request base id fault db disk c note file = elim (get_note db note) [
  | none ↦ ((db, disk), refused 404 "note not found")
  | some n ↦ elim (refusal n "note has unresolved conflicts; resolve conflicts before updating") [
    | some r ↦ ((db, disk), r)
    | none ↦ elim file [
      | none ↦ ((db, disk), refused 400 "file is required")
      | some f ↦ upload_once base id fault db disk c n f
    ]
  ]
]
