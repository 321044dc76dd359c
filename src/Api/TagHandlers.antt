-- ===== src/Api/TagHandlers.antt =====
-- `addTag`, `renameTag` and `deleteTag` of internal/api/tags_handler.go.
use bear_sync.Prelude.{ℕ, String, Option, none, some, [], ◌∷◌, ◌==◌, ok, err, if◌then◌else◌}
use bear_sync.Models.WriteQueue.{add_tag, rename_tag, delete_tag, text, object}
use bear_sync.Store.Db.{Db}
use bear_sync.Store.Queue.Enqueue.{WriteRequest}
use bear_sync.Store.NoteTable.{get_note, get_tag}
use bear_sync.Api.Reply.{
  Reply, refused, item_reply, Caller, write_of, try_enqueue, existing_item, is_retryable_queue_item,
  refusal,
}

unfoldable pub enqueue_reply : ℕ → Caller → Db → WriteRequest → Db × Reply
unfolding try_enqueue
enqueue_reply code c db r = elim (try_enqueue c db.queue r) [
  | err e ↦ (db, refused 500 "failed to enqueue write")
  | ok (q, i) ↦ (record db { queue = q }, item_reply code i)
]

-- From the idempotency check on: the item under the key, or a new one.
unfoldable pub enqueue_once : ℕ → Db → Caller → WriteRequest → Db × Reply
unfolding is_retryable_queue_item enqueue_reply
enqueue_once code db c r = elim (existing_item db c) [
  | none ↦ enqueue_reply code c db r
  | some i ↦
      if is_retryable_queue_item (some i)
      then (db, item_reply code i)
      else enqueue_reply code c db r
]

unfoldable pub add_tag_request : Db → Caller → String → Option String → Db × Reply
unfolding get_note refusal existing_item enqueue_once
add_tag_request db c id tag = elim (get_note db id) [
  | none ↦ (db, refused 404 "note not found")
  | some n ↦ elim (refusal n "note has unresolved conflicts; resolve conflicts before updating") [
    | some r ↦ (db, r)
    | none ↦ elim tag [
      | none ↦ (db, refused 400 "invalid request body")
      | some t ↦
          if t == ""
          then (db, refused 400 "tag is required")
          else enqueue_once 201 db c (
              write_of c add_tag n.id (
                object (
                  ("bear_id", text (elim n.bear_id [ none ↦ "" | some b ↦ b ]))
                  ∷ ("tag", text t)
                  ∷ [])))
    ]
  ]
]

unfoldable pub rename_tag_request : Db → Caller → String → Option String → Db × Reply
unfolding get_tag existing_item enqueue_once
rename_tag_request db c id name = elim (get_tag db id) [
  | none ↦ (db, refused 404 "tag not found")
  | some t ↦ elim name [
    | none ↦ (db, refused 400 "invalid request body")
    | some new ↦
        if new == ""
        then (db, refused 400 "new_name is required")
        else enqueue_once 202 db c (
            write_of c rename_tag ""
              (object (("name", text t.title) ∷ ("new_name", text new) ∷ [])))
  ]
]

unfoldable pub delete_tag_request : Db → Caller → String → Db × Reply
unfolding get_tag existing_item enqueue_once
delete_tag_request db c id = elim (get_tag db id) [
  | none ↦ (db, refused 404 "tag not found")
  | some t ↦ enqueue_once 202 db c (write_of c delete_tag "" (object (("name", text t.title) ∷ [])))
]
