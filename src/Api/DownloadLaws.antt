-- ===== src/Api/DownloadLaws.antt =====
-- Proofs that the bridge downloads (`syncDownloadAttachment` of internal/api/sync_handler.go) what a
-- consumer uploaded (`addFile` of internal/api/notes_handler.go).
use bear_sync.Prelude.{
  ℕ, zero, suc, String, false, ◌||◌, none, some, List, [], ◌∷◌, ◌++◌, ◌==◌, ◌≡◌, refl, sym, ap, ◌∙◌,
  inl, inr, arith, ltb, length, take, select_all, str_eq_self, Result-cases, Bool-cases,
  Option-cases,
}
use mathlib.Core.Path.{subst}
use bear_sync.Models.Note.{Note}
use bear_sync.Models.WriteQueue.{WriteQueueItem, add_file}
use bear_sync.Store.Db.{Db}
use bear_sync.Store.NoteTable.{get_note}
use bear_sync.Store.Reads.{get_attachment}
use bear_sync.Bridge.Payload.{string_field}
use bear_sync.Api.Notes.{bear_id_of}
use bear_sync.Api.Reply.{
  Reply, item_reply, is_refused, Caller, write_of, try_enqueue, existing_item, refusal,
}
use bear_sync.Api.AddFile.{
  StoredFile, Disk, max_add_file_size, Fault, no_fault, mkdir_fails, create_fails, copy_fails,
  close_fails, write_uploaded_file, Upload, safe_name, file_payload, keep_if_named, enqueue_file,
  after_write, upload_once, add_file_request,
}
use bear_sync.Api.AddFileLaws.{IsFresh, in_conflict, is_refused-refusal}
use bear_sync.Api.AttachmentFiles.{
  serves, sanitized, has_slash, first_entry, serve_consumer_uploaded_file, sync_download_attachment,
}

take_whole {ℓ} :
    {A : Type ℓ} (n : ℕ) (xs : List A)
    → ltb n (length (take (suc n) xs)) ≡ false
    → take (suc n) xs ≡ xs
take_whole n [] h = refl
take_whole zero (x ∷ xs) h = ground arith
take_whole (suc n) (x ∷ xs) h = ap (λ ys. x ∷ ys) (take_whole n xs (ground arith))

only_added :
    (id : String) (f : StoredFile) (disk : Disk)
    → f.dir ≡ id
    → IsFresh id disk
    → select_all (λ g. g.dir == id) (disk ++ f ∷ []) ≡ f ∷ []
only_added id f [] e h = rw (e, str_eq_self id) refl
only_added id f (g ∷ disk) e h = ground (arith, only_added id f disk e)

-- A stored file is served to a download by its id.
served :
    (base : String → String) (db : Db) (disk : Disk) (id : String) (f : StoredFile)
    → f.dir ≡ id
    → IsFresh id disk
    → get_attachment db id ≡ none
    → (id == "" || id == "." || id == ".." || has_slash id) ≡ false
    → sync_download_attachment base db (disk ++ f ∷ []) id ≡ serves (sanitized f.name) f.bytes
unfolding sync_download_attachment serve_consumer_uploaded_file first_entry
served base db disk id f e fresh missing valid =
    rw (missing, sync_download_attachment)
      (rw (valid, serve_consumer_uploaded_file) (rw (only_added id f disk e fresh) refl))

-- A file whose item names it is on the disk once the request is accepted.
module _ (id : String) (db db' : Db) (disk disk' : Disk) (c : Caller) (n : Note) (name : String)
    (i : WriteQueueItem) (named : string_field "attachment_id" i.payload ≡ some id) where
  abbrev stored_as : List ℕ → StoredFile
  stored_as bytes = record { dir = id; name = name; bytes = bytes }

  enqueued_keeps :
      (written : Disk)
      → enqueue_file db written c n id name ≡ ((db', disk'), item_reply 202 i)
      → disk' ≡ written
  unfolding enqueue_file
  enqueued_keeps written run =
      elim (Result-cases
        (try_enqueue c db.queue (write_of c add_file n.id (file_payload id name (bear_id_of n))))) [
          | inr (x, e) ↦ cc (ap (λ (o : (Db × Disk) × Reply). o.1) (rw (e, enqueue_file) at run))
          | inl (out, e) ↦
              let got = rw (e, enqueue_file) at run in
              let same : out.1 ≡ i = cc (ap (λ (o : (Db × Disk) × Reply). o.1) got) in
              sym (ap (λ (o : (Db × Disk) × Reply). o.0.1) got)
              ∙ ap
                  (λ (j : WriteQueueItem).
                    keep_if_named id (string_field "attachment_id" j.payload) written)
                  same
              ∙ rw (named, str_eq_self id) refl
        ]

  stores :
      (fault : Fault) (file : List ℕ)
      → after_write db c n id name (write_uploaded_file fault id name file disk)
        ≡ ((db', disk'), item_reply 202 i)
      → disk' ≡ disk ++ stored_as file ∷ []
  unfolding write_uploaded_file
  stores mkdir_fails file run = cc (ap (λ (o : (Db × Disk) × Reply). o.1) run)
  stores create_fails file run = cc (ap (λ (o : (Db × Disk) × Reply). o.1) run)
  stores (copy_fails k) file run = cc (ap (λ (o : (Db × Disk) × Reply). o.1) run)
  stores close_fails file run =
      elim (Bool-cases (ltb max_add_file_size (length (take (suc max_add_file_size) file)))) [
        | inl e ↦ cc (ap (λ (o : (Db × Disk) × Reply). o.1) (rw e at run))
        | inr e ↦ cc (ap (λ (o : (Db × Disk) × Reply). o.1) (rw e at run))
      ]
  stores no_fault file run =
      elim (Bool-cases (ltb max_add_file_size (length (take (suc max_add_file_size) file)))) [
        | inl e ↦ cc (ap (λ (o : (Db × Disk) × Reply). o.1) (rw e at run))
        | inr e ↦
            enqueued_keeps _ (rw e at run)
            ∙ ap (λ bytes. disk ++ stored_as bytes ∷ []) (take_whole max_add_file_size file e)
      ]

  uploaded :
      (base : String → String) (fault : Fault) (file : Upload)
      → safe_name base file.filename ≡ name
      → existing_item db c ≡ none
      → upload_once base id fault db disk c n file ≡ ((db', disk'), item_reply 202 i)
      → disk' ≡ disk ++ stored_as file.bytes ∷ []
  unfolding upload_once
  uploaded base fault file same first run = elim (Bool-cases (ltb max_add_file_size file.size)) [
    | inl e ↦ cc (ap (λ (o : (Db × Disk) × Reply). o.1) (rw (e, upload_once) at run))
    | inr e ↦ stores fault file.bytes (
        subst
          (λ x.
            after_write db c n id x (write_uploaded_file fault id x file.bytes disk)
            ≡ ((db', disk'), item_reply 202 i))
          same (rw (e, first, upload_once) at run))
  ]

-- If the directory of a new file is fresh, its id is one that the download accepts and no
-- attachment of the database has, no item stands under the key of the request, and the accepted
-- item names the id, then the bridge downloads under that id the bytes that the consumer
-- uploaded, under the name that they were stored with.
pub download_uploaded :
    (base : String → String) (id : String) (fault : Fault) (db db' : Db) (disk disk' : Disk)
    (c : Caller) (note : String) (file : Upload) (i : WriteQueueItem)
    → IsFresh id disk
    → (id == "" || id == "." || id == ".." || has_slash id) ≡ false
    → get_attachment db' id ≡ none
    → existing_item db c ≡ none
    → add_file_request base id fault db disk c note (some file) ≡ ((db', disk'), item_reply 202 i)
    → string_field "attachment_id" i.payload ≡ some id
    → sync_download_attachment base db' disk' id
      ≡ serves (sanitized (safe_name base file.filename)) file.bytes
unfolding add_file_request
download_uploaded base id fault db db' disk disk' c note file i fresh valid missing first run
      named =
    elim (Option-cases (get_note db note)) [
      | inl e ↦ cc (ap (λ (o : (Db × Disk) × Reply). o.1) (rw (e, add_file_request) at run))
      | inr (n, e) ↦ elim (Option-cases (refusal n in_conflict)) [
        | inr (r, f) ↦
            let refused = is_refused-refusal n r f in
            let same : r ≡ item_reply 202 i =
              ap (λ (o : (Db × Disk) × Reply). o.1) (rw f at (rw (e, add_file_request) at run)) in
            cc (sym (ap is_refused same) ∙ refused)
        | inl f ↦
            let kept =
              uploaded id db db' disk disk' c n (safe_name base file.filename) i named base fault
                file refl first (rw f at (rw (e, add_file_request) at run)) in
            subst
              (λ d.
                sync_download_attachment base db' d id
                ≡ serves (sanitized (safe_name base file.filename)) file.bytes)
              (sym kept)
              (served base db' disk id
                (record { dir = id; name = safe_name base file.filename; bytes = file.bytes }) refl
                fresh missing valid)
      ]
    ]
