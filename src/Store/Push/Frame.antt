-- ===== src/Store/Push/Frame.antt =====
-- The notes, the queue and the metadata under the upserts of tags, attachments and backlinks of
-- internal/store/sqlite.go.
use bear_sync.Prelude.{ℕ, String, List, [], ◌∷◌, ◌≡◌, ◌∙◌, arith, Result, ok, >>=-eq-ok}
use bear_sync.Models.Note.{Note}
use bear_sync.Models.Tag.{Tag}
use bear_sync.Models.Attachment.{Attachment}
use bear_sync.Models.Backlink.{Backlink}
use bear_sync.Store.Db.{Db}
use bear_sync.Store.Push.{for_each, upsert_notes}
use bear_sync.Store.Push.Notes.{upsert_note, insert_new_note}
use bear_sync.Store.Push.Tags.{upsert_tag}
use bear_sync.Store.Push.Attachments.{upsert_attachment}
use bear_sync.Store.Push.Backlinks.{upsert_backlink}

pub record SameCore (d d' : Db) : Type 0 where
  pub notes_kept : d'.notes ≡ d.notes
  pub queue_kept : d'.queue ≡ d.queue
  pub meta_kept : d'.sync_meta ≡ d.sync_meta

pub SameCore-trans : (a b c : Db) → SameCore a b → SameCore b c → SameCore a c
SameCore-trans a b c x y = record {
  notes_kept = y.notes_kept ∙ x.notes_kept;
  queue_kept = y.queue_kept ∙ x.queue_kept;
  meta_kept = y.meta_kept ∙ x.meta_kept;
}

-- A loop whose steps leave the notes and the queue alone leaves them alone.
pub for_each-SameCore {ℓ} :
    {A : Type ℓ} (step : Db → A → Result Db)
    → ((d : Db) (x : A) (d' : Db) → step d x ≡ ok d' → SameCore d d')
    → (db : Db) (xs : List A) {db' : Db} → for_each step db xs ≡ ok db'
    → SameCore db db'
unfolding for_each
for_each-SameCore step frame db [] h = record {
  notes_kept = ground arith;
  queue_kept = ground arith;
  meta_kept = ground arith;
}
for_each-SameCore step frame db (x ∷ xs) {db'} h =
    let first = >>=-eq-ok (step db x) _ h in
    SameCore-trans db first.0 db' (frame db x first.0 first.1)
      (for_each-SameCore step frame first.0 xs first.2)

pub upsert_tag-SameCore :
    (random_id : ℕ → String) (d : Db) (x : Tag) (d' : Db)
    → upsert_tag random_id d x ≡ ok d'
    → SameCore d d'
unfolding upsert_tag
upsert_tag-SameCore random_id d x d' h = record {
  notes_kept = ground arith;
  queue_kept = ground arith;
  meta_kept = ground arith;
}

pub upsert_attachment-SameCore :
    (random_id : ℕ → String) (d : Db) (x : Attachment) (d' : Db)
    → upsert_attachment random_id d x ≡ ok d'
    → SameCore d d'
unfolding upsert_attachment
upsert_attachment-SameCore random_id d x d' h = record {
  notes_kept = ground arith;
  queue_kept = ground arith;
  meta_kept = ground arith;
}

pub upsert_backlink-SameCore :
    (random_id : ℕ → String) (d : Db) (x : Backlink) (d' : Db)
    → upsert_backlink random_id d x ≡ ok d'
    → SameCore d d'
unfolding upsert_backlink
upsert_backlink-SameCore random_id d x d' h = record {
  notes_kept = ground arith;
  queue_kept = ground arith;
  meta_kept = ground arith;
}

queue-upsert_note :
    (random_id : ℕ → String) (d : Db) (n : Note) {d' : Db} {n' : Note}
    → upsert_note random_id d n ≡ ok (d', n')
    → d'.queue ≡ d.queue
unfolding upsert_note insert_new_note
queue-upsert_note random_id d n h = ground arith

meta-upsert_note :
    (random_id : ℕ → String) (d : Db) (n : Note) {d' : Db} {n' : Note}
    → upsert_note random_id d n ≡ ok (d', n')
    → d'.sync_meta ≡ d.sync_meta
unfolding upsert_note insert_new_note
meta-upsert_note random_id d n h = ground arith

pub queue-upsert_notes :
    (random_id : ℕ → String) (db : Db) (ns : List Note) {db' : Db} {ns' : List Note}
    → upsert_notes random_id db ns ≡ ok (db', ns')
    → db'.queue ≡ db.queue
unfolding upsert_notes
queue-upsert_notes random_id db [] h = ground arith
queue-upsert_notes random_id db (n ∷ ns) {db'} {ns'} h =
    let first = >>=-eq-ok (upsert_note random_id db n) _ h in
    let others = >>=-eq-ok (upsert_notes random_id first.0.0 ns) _ first.2 in
    ground (
      arith,
      others.2,
      queue-upsert_notes random_id first.0.0 ns others.1,
      queue-upsert_note random_id db n first.1,
    )

pub meta-upsert_notes :
    (random_id : ℕ → String) (db : Db) (ns : List Note) {db' : Db} {ns' : List Note}
    → upsert_notes random_id db ns ≡ ok (db', ns')
    → db'.sync_meta ≡ db.sync_meta
unfolding upsert_notes
meta-upsert_notes random_id db [] h = ground arith
meta-upsert_notes random_id db (n ∷ ns) {db'} {ns'} h =
    let first = >>=-eq-ok (upsert_note random_id db n) _ h in
    let others = >>=-eq-ok (upsert_notes random_id first.0.0 ns) _ first.2 in
    ground (
      arith,
      others.2,
      meta-upsert_notes random_id first.0.0 ns others.1,
      meta-upsert_note random_id db n first.1,
    )
