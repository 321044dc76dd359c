-- ===== src/Api/AddFileLaws.antt =====
-- Proofs about the files that `addFile` of internal/api/notes_handler.go leaves on the disk.
use bear_sync.Prelude.{
  ℕ, suc, String, true, false, Option, none, some, List, [], ◌∷◌, ◌++◌, ◌==◌, ◌≡◌, refl, sym, ap,
  ◌∙◌, ◌⊎◌, inl, inr, arith, ltb, length, take, any, eq_iff, str_eq_self, Bool-cases, Option-cases,
}
use mathlib.Core.Path.{subst}
use bear_sync.Models.Note.{Note}
use bear_sync.Models.WriteQueue.{WriteQueueItem, add_file, is_failed}
use bear_sync.Store.Db.{Db}
use bear_sync.Store.Queue.Enqueue.{get_by_key}
use bear_sync.Store.Queue.Shape.{IsWellFormed}
use bear_sync.Store.Queue.Idempotent.{enqueue_write-Enqueued}
use bear_sync.Store.NoteTable.{get_note}
use bear_sync.Bridge.Payload.{string_field}
use bear_sync.Api.Notes.{bear_id_of}
use bear_sync.Api.Reply.{
  Reply, refused, item_reply, is_refused, Caller, write_of, existing_item, is_retryable_queue_item,
  refusal,
}
use bear_sync.Api.Laws.{tried_enqueue, failed_enqueue}
use bear_sync.Api.AddFile.{
  StoredFile, Disk, remove_dir, max_add_file_size, Fault, no_fault, mkdir_fails, create_fails,
  copy_fails, close_fails, write_uploaded_file, Upload, safe_name, file_payload, keep_if_named,
  enqueue_file, after_write, upload_once, add_file_request,
}

-- The files afterwards: those before, or one more that the item names, or whose item has a payload
-- that is no JSON object.
pub data Files (id : String) (disk : Disk) (i : WriteQueueItem) : Disk → Type 0 where
  same_files : Files id disk i disk
  one_more :
      (f : StoredFile)
      → f.dir ≡ id
      → (string_field "attachment_id" i.payload ≡ some id)
        ⊎ (string_field "attachment_id" i.payload ≡ none)
      → Files id disk i (disk ++ f ∷ [])

-- A refusal leaves the database and the disk; an accepted request has an item under its key.
pub data FileOutcome (id : String) (db : Db) (disk : Disk) (c : Caller)
    : (Db × Disk) × Reply → Type 0 where
  refuses : (r : Reply) → is_refused r ≡ true → FileOutcome id db disk c ((db, disk), r)
  accepts :
      (db' : Db) (disk' : Disk) (i : WriteQueueItem)
      → get_by_key db'.queue c.key c.consumer ≡ some i
      → is_failed i.status ≡ false
      → IsWellFormed db'.queue
      → Files id disk i disk'
      → FileOutcome id db disk c ((db', disk'), item_reply 202 i)

-- No directory of the disk has this name.
abbrev pub IsFresh : String → Disk → Type 0
IsFresh id disk = any (λ f. f.dir == id) disk ≡ false

remove_added :
    (id name : String) (bytes : List ℕ) (disk : Disk)
    → IsFresh id disk
    → remove_dir id (disk ++ record { dir = id; name = name; bytes = bytes } ∷ []) ≡ disk
remove_added id name bytes [] h = ground (arith, str_eq_self id)
remove_added id name bytes (f ∷ disk) h = ground (arith, remove_added id name bytes disk)

module _ (id : String) (db : Db) (disk : Disk) (c : Caller) (w : IsWellFormed db.queue)
    (fresh : IsFresh id disk) where
  enqueue-FileOutcome :
      (n : Note) (name : String) (bytes : List ℕ)
      → let f : StoredFile = record { dir = id; name = name; bytes = bytes } in
        FileOutcome id db disk c (enqueue_file db (disk ++ f ∷ []) c n id name)
  unfolding enqueue_file
  enqueue-FileOutcome n name bytes =
      let r = write_of c add_file n.id (file_payload id name (bear_id_of n)) in
      let e = enqueue_write-Enqueued db.queue r w in
      elim (Bool-cases c.enqueue_fails) [
        | inl f ↦
            rw (failed_enqueue c db.queue r f, enqueue_file)
              (rw (remove_added id name bytes disk fresh) (refuses _ refl))
        | inr f ↦
            rw (tried_enqueue c db.queue r f ∙ e.runs, enqueue_file)
              (accepts (record db { queue = e.table }) _ e.item e.found e.live e.well_formed
                (kept e.item))
      ]
    where
      kept :
          (i : WriteQueueItem)
          → let disk' : Disk = disk ++ record { dir = id; name = name; bytes = bytes } ∷ [] in
            Files id disk i (keep_if_named id (string_field "attachment_id" i.payload) disk')
      kept i =
          let f : StoredFile = record { dir = id; name = name; bytes = bytes } in
          elim (Option-cases (string_field "attachment_id" i.payload)) [
            | inl e ↦ rw e (one_more f refl (inr e))
            | inr (k, e) ↦ elim (Bool-cases (k == id)) [
              | inl b ↦ rw (e, b) (one_more f refl (inl (e ∙ ap some ((eq_iff k id).0 b))))
              | inr b ↦
                  rw (e, b)
                    (subst (Files id disk i) (sym (remove_added id name bytes disk fresh))
                      same_files)
            ]
          ]

  after_write-FileOutcome :
      (fault : Fault) (n : Note) (name : String) (file : List ℕ)
      → FileOutcome id db disk c
          (after_write db c n id name (write_uploaded_file fault id name file disk))
  unfolding write_uploaded_file
  after_write-FileOutcome mkdir_fails n name file = refuses _ refl
  after_write-FileOutcome create_fails n name file =
      rw (remove_added id "." [] disk fresh) (refuses _ refl)
  after_write-FileOutcome (copy_fails k) n name file =
      rw (remove_added id name (take k (take (suc max_add_file_size) file)) disk fresh)
        (refuses _ refl)
  after_write-FileOutcome close_fails n name file =
      let gone = remove_added id name (take (suc max_add_file_size) file) disk fresh in
      elim (Bool-cases (ltb max_add_file_size (length (take (suc max_add_file_size) file)))) [
        | inl e ↦ rw (e, gone) (refuses _ refl)
        | inr e ↦ rw (e, gone) (refuses _ refl)
      ]
  after_write-FileOutcome no_fault n name file =
      elim (Bool-cases (ltb max_add_file_size (length (take (suc max_add_file_size) file)))) [
        | inl e ↦
            rw (e, remove_added id name (take (suc max_add_file_size) file) disk fresh)
              (refuses _ refl)
        | inr e ↦ rw e (enqueue-FileOutcome n name (take (suc max_add_file_size) file))
      ]

  upload_once-FileOutcome :
      (base : String → String) (fault : Fault) (n : Note) (file : Upload)
      → FileOutcome id db disk c (upload_once base id fault db disk c n file)
  unfolding upload_once existing_item is_retryable_queue_item
  upload_once-FileOutcome base fault n file =
      let written = after_write-FileOutcome fault n (safe_name base file.filename) file.bytes in
      elim (Bool-cases (ltb max_add_file_size file.size)) [
        | inl e ↦ rw (e, upload_once) (refuses _ refl)
        | inr e ↦ elim (Option-cases (existing_item db c)) [
          | inl x ↦ rw (e, x, upload_once) written
          | inr (i, x) ↦ elim (Bool-cases (is_retryable_queue_item (some i))) [
            | inr g ↦ rw (e, x, g, upload_once) written
            | inl g ↦
                rw (e, x, g, upload_once)
                  (accepts db disk i (ground arith) (ground arith) w same_files)
          ]
        ]
      ]

abbrev pub in_conflict : String
in_conflict = "note has unresolved conflicts; resolve conflicts before updating"

pub is_refused-refusal :
    (n : Note) (r : Reply) → refusal n in_conflict ≡ some r → is_refused r ≡ true
unfolding refusal
is_refused-refusal n r h = ground arith

-- On a well-formed queue, where the directory that is drawn is fresh, a request to add a file is
-- refused and leaves the database and the disk as they were, whichever call of the file system
-- fails and also where the item cannot be enqueued, or it is accepted: an item that is not failed
-- stands under the key of the caller in a well-formed queue, and the disk has the files that it
-- had, or one more, in that directory, which the item names unless its payload is no JSON object.
pub add_file_request-FileOutcome :
    (base : String → String) (id : String) (fault : Fault) (db : Db) (disk : Disk) (c : Caller)
    (note : String) (file : Option Upload)
    → IsWellFormed db.queue
    → IsFresh id disk
    → FileOutcome id db disk c (add_file_request base id fault db disk c note file)
unfolding add_file_request refusal
add_file_request-FileOutcome base id fault db disk c note file w fresh =
    elim (Option-cases (get_note db note)) [
      | inl e ↦ rw (e, add_file_request) (refuses _ refl)
      | inr (n, e) ↦ elim (Option-cases (refusal n in_conflict)) [
        | inr (r, f) ↦ rw (e, add_file_request) (rw f (refuses r (is_refused-refusal n r f)))
        | inl f ↦ rw (e, add_file_request) (rw f (uploaded n file))
      ]
    ]
  where
    uploaded :
        (n : Note) (file : Option Upload)
        → FileOutcome id db disk c (elim file [
          | none ↦ ((db, disk), refused 400 "file is required")
          | some f ↦ upload_once base id fault db disk c n f
        ])
    uploaded n none = refuses _ refl
    uploaded n (some f) = upload_once-FileOutcome id db disk c w fresh base fault n f
