-- ===== src/Api/TagLaws.antt =====
-- Proofs about the outcomes of the handlers of internal/api/tags_handler.go.
use bear_sync.Prelude.{
  ◌∙◌, ℕ, String, Option, none, some, [], ◌∷◌, ◌==◌, refl, inl, inr, Bool-cases, Option-cases,
}
use bear_sync.Models.WriteQueue.{Action, Payload, add_tag, rename_tag, delete_tag, text, object}
use bear_sync.Store.Db.{Db}
use bear_sync.Store.Queue.Shape.{IsWellFormed}
use bear_sync.Store.Queue.Idempotent.{enqueue_write-Enqueued}
use bear_sync.Store.NoteTable.{get_note, get_tag}
use bear_sync.Api.Reply.{
  item_reply, Caller, write_of, existing_item, is_retryable_queue_item, refusal,
}
use bear_sync.Api.TagHandlers.{
  enqueue_reply, enqueue_once, add_tag_request, rename_tag_request, delete_tag_request,
}
use bear_sync.Api.Laws.{
  tried_enqueue, failed_enqueue, Outcome, refuses, accepts, retry-Outcome, refusal-Outcome,
}

module _ (db : Db) (c : Caller) (w : IsWellFormed db.queue) where
  enqueue_reply-Outcome :
      (code : ℕ) (action : Action) (note : String) (p : Payload)
      → Outcome db c (enqueue_reply code c db (write_of c action note p))
  unfolding enqueue_reply
  enqueue_reply-Outcome code action note p =
      let e = enqueue_write-Enqueued db.queue (write_of c action note p) w in
      elim (Bool-cases c.enqueue_fails) [
        | inl f ↦
            rw (failed_enqueue c db.queue (write_of c action note p) f, enqueue_reply)
              (refuses _ 500 _)
        | inr f ↦
            rw (tried_enqueue c db.queue (write_of c action note p) f ∙ e.runs, enqueue_reply)
              (accepts (record db { queue = e.table }) (item_reply code e.item) e.item refl e.found
                e.live e.well_formed)
      ]

  enqueue_once-Outcome :
      (code : ℕ) (action : Action) (note : String) (p : Payload)
      → Outcome db c (enqueue_once code db c (write_of c action note p))
  unfolding enqueue_once
  enqueue_once-Outcome code action note p = elim (Option-cases (existing_item db c)) [
    | inl e ↦ rw (e, enqueue_once) (enqueue_reply-Outcome code action note p)
    | inr (i, e) ↦ elim (Bool-cases (is_retryable_queue_item (some i))) [
      | inl t ↦ rw (e, enqueue_once) (rw t (retry-Outcome db c w (item_reply code i) refl (rw e t)))
      | inr t ↦ rw (e, enqueue_once) (rw t (enqueue_reply-Outcome code action note p))
    ]
  ]

  -- On a well-formed queue a request to rename a tag is refused, or it is accepted, and an item
  -- that is not failed stands in the queue under the caller's key.
  pub rename_tag_request-Outcome :
      (id : String) (name : Option String) → Outcome db c (rename_tag_request db c id name)
  unfolding rename_tag_request
  rename_tag_request-Outcome id name = elim (Option-cases (get_tag db id)) [
    | inl e ↦ rw (e, rename_tag_request) (refuses db 404 "tag not found")
    | inr (t, e) ↦ elim (Option-cases name) [
      | inl n ↦ rw (e, rename_tag_request) (rw n (refuses db 400 "invalid request body"))
      | inr (new, n) ↦ elim (Bool-cases (new == "")) [
        | inl b ↦ rw (e, rename_tag_request) (rw n (rw b (refuses db 400 "new_name is required")))
        | inr b ↦
            rw (e, rename_tag_request)
              (rw n (
                rw b (
                  enqueue_once-Outcome 202 rename_tag ""
                    (object (("name", text t.title) ∷ ("new_name", text new) ∷ [])))))
      ]
    ]
  ]

  -- The same of a request to delete a tag.
  pub delete_tag_request-Outcome : (id : String) → Outcome db c (delete_tag_request db c id)
  unfolding delete_tag_request
  delete_tag_request-Outcome id = elim (Option-cases (get_tag db id)) [
    | inl e ↦ rw (e, delete_tag_request) (refuses db 404 "tag not found")
    | inr (t, e) ↦
        rw (e, delete_tag_request)
          (enqueue_once-Outcome 202 delete_tag "" (object (("name", text t.title) ∷ [])))
  ]

  -- On a well-formed queue a request to add a tag to a note is refused, or it is accepted, an
  -- item that is not failed stands in the queue under the caller's key, and the queue is
  -- well-formed.
  pub add_tag_request-Outcome :
      (id : String) (tag : Option String) → Outcome db c (add_tag_request db c id tag)
  unfolding add_tag_request
  add_tag_request-Outcome id tag = elim (Option-cases (get_note db id)) [
    | inl e ↦ rw (e, add_tag_request) (refuses db 404 "note not found")
    | inr (n, e) ↦
        elim (Option-cases
          (refusal n "note has unresolved conflicts; resolve conflicts before updating")) [
            | inr (r, f) ↦
                rw (e, add_tag_request)
                  (rw f (
                    refusal-Outcome db c w n
                      "note has unresolved conflicts; resolve conflicts before updating" f))
            | inl f ↦ elim (Option-cases tag) [
              | inl g ↦
                  rw (e, add_tag_request) (rw f (rw g (refuses db 400 "invalid request body")))
              | inr (t, g) ↦ elim (Bool-cases (t == "")) [
                | inl b ↦
                    rw (e, add_tag_request) (rw f (rw g (rw b (refuses db 400 "tag is required"))))
                | inr b ↦
                    rw (e, add_tag_request)
                      (rw f (
                        rw g (
                          rw b (
                            enqueue_once-Outcome 201 add_tag n.id (
                              object (
                                ("bear_id", text (elim n.bear_id [ none ↦ "" | some k ↦ k ]))
                                ∷ ("tag", text t)
                                ∷ []))))))
              ]
            ]
          ]
  ]
