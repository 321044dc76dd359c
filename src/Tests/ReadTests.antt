-- ===== src/Tests/ReadTests.antt =====
-- Lists of notes, uploads and downloads at concrete inputs.
use bear_sync.Prelude.{
  ◌≤◌, ◌&&◌, String, Bool, none, some, List, [], ◌∷◌, ◌≡◌, refl, arith, map, count_where, length,
  concat, All,
}
use bear_sync.Models.Note.{Note}
use bear_sync.Models.WriteQueue.{WriteQueueItem, add_file, pending}
use bear_sync.Models.Views.{FullNote}
use bear_sync.Store.Db.{Db}
use bear_sync.Store.Reads.{
  Sqlite, NoteFilter, is_listed_note, with_lists, listing, double_quotes, get_attachment,
}
use bear_sync.Store.Pages.{KeepsRows, pages_from, pages_cover}
use bear_sync.Bridge.Payload.{string_field}
use bear_sync.Api.Reply.{Reply, item_reply, existing_item}
use bear_sync.Api.ReadHandlers.{ReadReply, shows, Atoi, number, ListQuery, list_notes_request}
use bear_sync.Api.ReadLaws.{IsShown, list_notes_request-IsShown}
use bear_sync.Api.AddFile.{Disk, no_fault, Upload, safe_name, add_file_request}
use bear_sync.Api.AddFileLaws.{FileOutcome, add_file_request-FileOutcome}
use bear_sync.Api.AttachmentFiles.{serves, has_slash, sanitized, sync_download_attachment}
use bear_sync.Api.DownloadLaws.{download_uploaded}
use bear_sync.Tests.Data.{item_of, three_items-IsWellFormed}
use bear_sync.Tests.ApiTests.{hub, web}

-- Rows in the order of the table.
abbrev sql : Sqlite
sql = record { ordered = λ c o xs. xs; tags_by_title = λ ts. ts; found = λ q xs. xs }

sql-KeepsRows : KeepsRows sql
sql-KeepsRows = λ c o p xs. refl

doubled : double_quotes "a\"b" ≡ "a\"\"b"
unfolding double_quotes
doubled = refl

abbrev all_notes : NoteFilter
all_notes = record {
  tag = "";
  trashed = none;
  encrypted = none;
  limit = 0;
  offset = 0;
  sort = "";
  order = "";
}

pages_cover_example :
    (concat (pages_from sql hub all_notes 1 2 0)
      ≡ map (with_lists sql hub) (listing sql hub all_notes))
    × ((p : Note → Bool)
        → count_where (λ n. p n.note) (concat (pages_from sql hub all_notes 1 2 0))
          ≡ count_where (λ n. is_listed_note hub all_notes n && p n) hub.notes)
unfolding listing
pages_cover_example = pages_cover sql hub all_notes 1 2 sql-KeepsRows refl (ground arith)

abbrev query : ListQuery
query = record {
  tag = "";
  sort = "title";
  order = "asc";
  trashed = "";
  encrypted = "false";
  limit = "3";
  offset = "";
}

abbrev three : String → Atoi
three s = number 3

abbrev shown_of : ReadReply (List FullNote) → List FullNote
shown_of (shows notes) = notes
shown_of _ = []

abbrev listed : List FullNote
unfolding list_notes_request
listed = shown_of (list_notes_request sql three hub query)

list_notes_request-IsShown_example : All IsShown listed × (length listed ≤ 200)
unfolding list_notes_request
list_notes_request-IsShown_example =
    list_notes_request-IsShown sql three hub query sql-KeepsRows refl

abbrev upload : Upload
upload = record { filename = "plan.pdf"; size = 3; bytes = 1 ∷ 2 ∷ 3 ∷ [] }

abbrev same_text : String → String
same_text s = s

abbrev one_file : Disk
one_file = record { dir = "f1"; name = "a"; bytes = [] } ∷ []

add_file_request-FileOutcome_example :
    FileOutcome "f2" hub one_file web
      (add_file_request same_text "f2" no_fault hub one_file web "n9" (some upload))
add_file_request-FileOutcome_example =
    add_file_request-FileOutcome same_text "f2" no_fault hub one_file web "n9" (some upload)
      three_items-IsWellFormed refl

abbrev spare : WriteQueueItem
spare = item_of 0 "" add_file "" pending

abbrev reply_item : WriteQueueItem → Reply → WriteQueueItem
reply_item i (item_reply code j) = j
reply_item i _ = i

abbrev after_upload : (Db × Disk) × Reply
unfolding add_file_request
after_upload = add_file_request same_text "f2" no_fault hub one_file web "n9" (some upload)

abbrev upload_item : WriteQueueItem
unfolding add_file_request
upload_item = reply_item spare after_upload.1

download_uploaded_example :
    sync_download_attachment same_text after_upload.0.0 after_upload.0.1 "f2"
    ≡ serves (sanitized (safe_name same_text "plan.pdf")) (1 ∷ 2 ∷ 3 ∷ [])
unfolding add_file_request has_slash existing_item get_attachment string_field
download_uploaded_example =
    download_uploaded same_text "f2" no_fault hub after_upload.0.0 one_file after_upload.0.1 web
      "n9" upload upload_item refl refl refl refl refl refl
