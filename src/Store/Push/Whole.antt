-- ===== src/Store/Push/Whole.antt =====
-- Proofs about `ProcessSyncPush` of internal/store/sqlite.go on the notes that the hub has.
use bear_sync.Prelude.{
  ℕ, String, none, some, List, [], ◌∷◌, ◌≡◌, refl, sym, ap, ◌∙◌, inl, inr, ◌⊎◌, arith, select,
  delete, Bool-cases, ok, >>=-eq-ok, ok_injective,
}
use mathlib.Core.Path.{subst}
use bear_sync.Models.Note.{Note}
use bear_sync.Models.Sync.{SyncPushRequest}
use bear_sync.Store.Db.{Db, note_by_id}
use bear_sync.Store.NoteRows.{UniqueIds, UniqueIds-delete, select-delete}
use bear_sync.Store.Push.{for_each, upsert_notes, apply_deletes, process_sync_push}
use bear_sync.Store.Push.Notes.{upsert_note}
use bear_sync.Store.Push.Tags.{upsert_tag}
use bear_sync.Store.Push.Attachments.{upsert_attachment}
use bear_sync.Store.Push.Backlinks.{upsert_backlink}
use bear_sync.Store.Push.NoteTags.{replace_note_tags}
use bear_sync.Store.Push.Deletes.{
  note_deleted, delete_notes, fail_queue_items_for_deleted_notes, delete_tags, delete_attachments,
  delete_backlinks,
}
use bear_sync.Store.Push.Frame.{
  for_each-SameCore, upsert_tag-SameCore, upsert_attachment-SameCore, upsert_backlink-SameCore,
  queue-upsert_notes, meta-upsert_notes,
}
use bear_sync.Store.Push.Kept.{Kept-refl, Kept-trans, Follows}
use bear_sync.Store.Push.Upserted.{Upserted, upsert_note-Upserted}

Upserted-refl : (notes : List Note) → UniqueIds notes → Upserted notes notes
Upserted-refl notes u = record {
  unique = u;
  follows = λ k m h. record { later = m; found = h; kept = Kept-refl m };
}

Upserted-trans : (a b c : List Note) → Upserted a b → Upserted b c → Upserted a c
Upserted-trans a b c x y = record {
  unique = y.unique;
  follows = λ k m h.
      let f = x.follows k m h in
      let g = y.follows k f.later f.found in
      record {
        later = g.later;
        found = g.found;
        kept = Kept-trans m f.later g.later f.kept g.kept;
      };
}

pub upsert_notes-Upserted :
    (random_id : ℕ → String) (db : Db) (ns : List Note) {db' : Db} {ns' : List Note}
    → UniqueIds db.notes
    → upsert_notes random_id db ns ≡ ok (db', ns')
    → Upserted db.notes db'.notes
unfolding upsert_notes
upsert_notes-Upserted random_id db [] {db'} {ns'} u h =
    subst (Upserted db.notes) (ground arith) (Upserted-refl db.notes u)
upsert_notes-Upserted random_id db (n ∷ ns) {db'} {ns'} u h =
    let first = >>=-eq-ok (upsert_note random_id db n) _ h in
    let d = first.0.0 in
    let up = upsert_note-Upserted random_id db n u first.1 in
    let others = >>=-eq-ok (upsert_notes random_id d ns) _ first.2 in
    let ups = upsert_notes-Upserted random_id d ns up.unique others.1 in
    subst (Upserted db.notes) (ground (arith, others.2))
      (Upserted-trans db.notes d.notes others.0.0.notes up ups)

notes-apply_deletes :
    (req : SyncPushRequest) (db : Db)
    → (apply_deletes req db).notes ≡ delete (note_deleted req.deleted_note_ids) db.notes
unfolding apply_deletes delete_notes fail_queue_items_for_deleted_notes delete_tags
    delete_attachments delete_backlinks
notes-apply_deletes req db = refl

-- The stages of a push: the upserts of notes lead to `upserted`, what follows leads to `before`,
-- with the same notes and the queue as it was, and the deletions to the end.
pub record Stages (random_id : ℕ → String) (db : Db) (req : SyncPushRequest) (db' : Db)
    : Type 0 where
  pub upserted : Db
  pub sent : List Note
  pub before : Db
  pub runs : upsert_notes random_id db req.notes ≡ ok (upserted, sent)
  pub same_notes : before.notes ≡ upserted.notes
  pub same_queue : before.queue ≡ db.queue
  pub same_meta : before.sync_meta ≡ db.sync_meta
  pub ends : apply_deletes req before ≡ db'

pub process_sync_push-Stages :
    (random_id : ℕ → String) (db : Db) (req : SyncPushRequest) {db' : Db}
    → process_sync_push random_id db req ≡ ok db'
    → Stages random_id db req db'
unfolding process_sync_push
process_sync_push-Stages random_id db req h =
    let first = >>=-eq-ok (upsert_notes random_id db req.notes) _ h in
    let tags = >>=-eq-ok (for_each (upsert_tag random_id) first.0.0 req.tags) _ first.2 in
    let pairs =
      >>=-eq-ok (replace_note_tags tags.0 tags.0.note_tags first.0.1 req.note_tags) _ tags.2 in
    let tagged = record (tags.0) { note_tags = pairs.0 } in
    let pinned =
      >>=-eq-ok (replace_note_tags tagged tagged.pinned_note_tags first.0.1 req.pinned_note_tags) _
        pairs.2 in
    let joined = record tagged { pinned_note_tags = pinned.0 } in
    let files =
      >>=-eq-ok (for_each (upsert_attachment random_id) joined req.attachments) _ pinned.2 in
    let links = >>=-eq-ok (for_each (upsert_backlink random_id) files.0 req.backlinks) _ files.2 in
    let tags_core =
      for_each-SameCore (upsert_tag random_id) (upsert_tag-SameCore random_id) first.0.0 req.tags
        tags.1 in
    let files_core =
      for_each-SameCore (upsert_attachment random_id) (upsert_attachment-SameCore random_id) joined
        req.attachments files.1 in
    let links_core =
      for_each-SameCore (upsert_backlink random_id) (upsert_backlink-SameCore random_id) files.0
        req.backlinks links.1 in
    record {
      upserted = first.0.0;
      sent = first.0.1;
      before = links.0;
      runs = first.1;
      same_notes = links_core.notes_kept ∙ files_core.notes_kept ∙ tags_core.notes_kept;
      same_queue =
          links_core.queue_kept
          ∙ files_core.queue_kept
          ∙ tags_core.queue_kept
          ∙ queue-upsert_notes random_id db req.notes first.1;
      same_meta =
          links_core.meta_kept
          ∙ files_core.meta_kept
          ∙ tags_core.meta_kept
          ∙ meta-upsert_notes random_id db req.notes first.1;
      ends = ok_injective links.2;
    }

-- The notes of a push: those that the upserts leave, without the deleted ones.
pub stage_notes :
    (random_id : ℕ → String) (db : Db) (req : SyncPushRequest) {db' : Db}
    (s : Stages random_id db req db')
    → db'.notes ≡ delete (note_deleted req.deleted_note_ids) s.upserted.notes
stage_notes random_id db req s =
    ap (λ (d : Db). d.notes) (sym s.ends)
    ∙ notes-apply_deletes req s.before
    ∙ ap (delete (note_deleted req.deleted_note_ids)) s.same_notes

-- If the ids of the notes are unique, they are unique after a successful push, and a note that
-- the hub had is deleted, or a conflict of it is kept, a pending write of it stays pending or
-- becomes a conflict, and while it stays pending its title, its body and its snapshot are the
-- consumer's.
pub process_sync_push-Kept :
    (random_id : ℕ → String) (db db' : Db) (req : SyncPushRequest) (k : String) (m : Note)
    → UniqueIds db.notes
    → process_sync_push random_id db req ≡ ok db'
    → select (note_by_id k) db.notes ≡ some m
    → UniqueIds db'.notes × ((select (note_by_id k) db'.notes ≡ none) ⊎ Follows k m db'.notes)
process_sync_push-Kept random_id db db' req k m u run h =
    let gone = note_deleted req.deleted_note_ids in
    let s = process_sync_push-Stages random_id db req run in
    let d = s.upserted in
    let same = stage_notes random_id db req s in
    let ups = upsert_notes-Upserted random_id db req.notes u s.runs in
    let f = ups.follows k m h in
    let after = select-delete gone k d.notes ups.unique f.found in
    (
      subst UniqueIds (sym same) (UniqueIds-delete gone d.notes ups.unique),
      elim (Bool-cases (gone f.later)) [
        | inl e ↦ inl (ap (select (note_by_id k)) same ∙ after ∙ rw e)
        | inr e ↦ inr (record {
          later = f.later;
          found = ap (select (note_by_id k)) same ∙ after ∙ rw e;
          kept = f.kept;
        })
      ],
    )
