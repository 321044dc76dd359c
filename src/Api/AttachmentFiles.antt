-- ===== src/Api/AttachmentFiles.antt =====
-- The handlers on the files of attachments: `syncUploadAttachment` and `syncDownloadAttachment` of
-- internal/api/sync_handler.go, and `getAttachment`, `serveAttachmentFile` and
-- `serveConsumerUploadedFile` of internal/api/attachments_handler.go. What `http.ServeFile` sends is
-- the file; `filepath.Base` and `filepath.Join` are parameters. A directory that has no file is left
-- out of the disk here.
use Prim.Native.Char.{code}
use Prim.Native.String.{[] as empty, ◌∷◌ as ◌::◌, ◌++◌ as ◌<>◌, compare}
use Prim.Native.Nat.{Ordering}
use bear_sync.Prelude.{
  ℕ, String, Bool, false, ◌&&◌, ◌||◌, Option, none, some, List, [], ◌∷◌, ◌++◌, ◌==◌, nat_eq, select,
  select_all, delete, take, ok, err, if◌then◌else◌,
}
use bear_sync.Models.Attachment.{Attachment}
use bear_sync.Store.Db.{Db}
use bear_sync.Store.Reads.{get_attachment, update_attachment_by_id}
use bear_sync.Api.SyncHandlers.{get_attachment_by_bear_id}
use bear_sync.Api.AddFile.{
  StoredFile, Disk, Fault, no_fault, mkdir_fails, create_fails, copy_fails, close_fails, safe_name,
}

pub data FileReply : Type 0 where
  refuses : ℕ → String → FileReply
  serves : String → List ℕ → FileReply
  saved : FileReply

abbrev pub is_file : String → String → StoredFile → Bool
is_file dir name f = f.dir == dir && f.name == name

-- `os.Remove`, and a file that is created, over one that may be there.
abbrev pub remove_file : String → String → Disk → Disk
remove_file dir name disk = delete (is_file dir name) disk

abbrev pub put_file : String → String → List ℕ → Disk → Disk
put_file dir name bytes disk =
    remove_file dir name disk ++ record { dir = dir; name = name; bytes = bytes } ∷ []

-- `strings.NewReplacer` on the name in the header.
unfoldable pub sanitized : String → String
sanitized empty = ""
sanitized (c :: s) =
    let rest = sanitized s in
    if nat_eq (code c) 34
    then "_" <> rest
    else if nat_eq (code c) 13 || nat_eq (code c) 10
    then rest
    else c :: rest

unfoldable pub serve_attachment_file : (String → String) → Disk → Option Attachment → FileReply
unfolding sanitized
serve_attachment_file base disk none = refuses 404 "attachment not found"
serve_attachment_file base disk (some a) =
    let name = safe_name base a.filename in
    elim (select (is_file a.id name) disk) [
      | none ↦ refuses 404 "attachment file not found on disk"
      | some f ↦ serves (sanitized name) f.bytes
    ]

-- Whether an id has one of `/` and `\`.
unfoldable pub has_slash : String → Bool
has_slash empty = false
has_slash (c :: s) = let rest = has_slash s in nat_eq (code c) 47 || nat_eq (code c) 92 || rest

-- The first entry of a directory: `os.ReadDir` sorts them by their names.
abbrev pub earlier : StoredFile → StoredFile → StoredFile
earlier f g = elim (compare g.name f.name) [ Ordering.lt ↦ g | _ ↦ f ]

unfoldable pub first_entry : List StoredFile → Option StoredFile
first_entry [] = none
first_entry (f ∷ files) =
    let rest = first_entry files in elim rest [ none ↦ some f | some g ↦ some (earlier f g) ]

unfoldable pub serve_consumer_uploaded_file : Disk → String → FileReply
unfolding has_slash first_entry sanitized
serve_consumer_uploaded_file disk id =
    if id == "" || id == "." || id == ".." || has_slash id
    then refuses 400 "invalid attachment id"
    else elim (first_entry (select_all (λ f. f.dir == id) disk)) [
      | none ↦ refuses 404 "attachment not found"
      | some f ↦ serves (sanitized f.name) f.bytes
    ]

unfoldable pub get_attachment_request : (String → String) → Db → Disk → String → FileReply
unfolding get_attachment serve_attachment_file
get_attachment_request base db disk id = serve_attachment_file base disk (get_attachment db id)

unfoldable pub sync_download_attachment : (String → String) → Db → Disk → String → FileReply
unfolding get_attachment serve_attachment_file serve_consumer_uploaded_file
sync_download_attachment base db disk id = elim (get_attachment db id) [
  | none ↦ serve_consumer_uploaded_file disk id
  | some a ↦ serve_attachment_file base disk (some a)
]

-- The attachment by its id, or by the `bear_id` that the bridge may send.
unfoldable pub attachment_of : Db → String → Option Attachment
unfolding get_attachment get_attachment_by_bear_id
attachment_of db id = elim (get_attachment db id) [
  | none ↦ get_attachment_by_bear_id db id
  | some a ↦ some a
]

-- The file is written, and its path saved; `join` is the path of a file of a directory.
unfoldable pub save_file :
    (String → String → String)
    → Fault
    → Db
    → Disk
    → Attachment
    → String
    → List ℕ
    → (Db × Disk) × FileReply
unfolding update_attachment_by_id
save_file join mkdir_fails db disk a name file =
    ((db, disk), refuses 500 "failed to create attachment directory")
save_file join create_fails db disk a name file = ((db, disk), refuses 500 "failed to create file")
save_file join (copy_fails k) db disk a name file = (
  (db, remove_file a.id name (put_file a.id name (take k file) disk)),
  refuses 500 "failed to write file",
)
save_file join close_fails db disk a name file = (
  (db, remove_file a.id name (put_file a.id name file disk)),
  refuses 500 "failed to finalize file",
)
save_file join no_fault db disk a name file =
    elim (update_attachment_by_id db (record a { file_path = join a.id name })) [
      | err e ↦ (
        (db, remove_file a.id name (put_file a.id name file disk)),
        refuses 500 "failed to update attachment path",
      )
      | ok db' ↦ ((db', put_file a.id name file disk), saved)
    ]

unfoldable pub sync_upload_attachment :
    (String → String)
    → (String → String → String)
    → Fault
    → Db
    → Disk
    → String
    → List ℕ
    → (Db × Disk) × FileReply
unfolding attachment_of save_file
sync_upload_attachment base join fault db disk id file = elim (attachment_of db id) [
  | none ↦ ((db, disk), refuses 404 "attachment not found")
  | some a ↦ save_file join fault db disk a (safe_name base a.filename) file
]
