-- ===== src/Tests/ApiTests.antt =====
-- The handlers at concrete inputs.
use bear_sync.Prelude.{
  false, ℕ, String, true, some, List, [], ◌∷◌, ◌==◌, ◌≡◌, ◌↔◌, refl, inl, inr, arith, any, lookup,
  Bool-cases,
}
use bear_sync.Models.Note.{Note, synced}
use bear_sync.Store.Db.{Db}
use bear_sync.Api.Title.{extract_title_from_body}
use bear_sync.Api.Reply.{Caller}
use bear_sync.Api.Notes.{trash_note, update_note_body}
use bear_sync.Api.Create.{CreateNoteRequest, create_note_request}
use bear_sync.Api.Written.{IsTrashed, IsUpdated}
use bear_sync.Api.Atomic.{Atomic, trash_note-Atomic, update_note_body-Atomic}
use bear_sync.Api.Retry.{trash_again}
use bear_sync.Api.CreateLaws.{create_again}
use bear_sync.Api.Tokens.{
  parse_consumer_tokens, match_consumer_token, consumer, denied, auth_middleware,
}
use bear_sync.Api.TokenLaws.{match_consumer_token_iff}
use bear_sync.Tests.Data.{note_of, three_items, three_items-IsWellFormed, db_of}

abbrev pub calm : Note
calm = note_of "n9" (some "B9") "Title" "# Title" synced

abbrev pub hub : Db
hub = db_of (calm ∷ []) three_items

abbrev pub web : Caller
web = record { key = "k9"; consumer = "web"; now = "t8"; sql_now = "t8"; enqueue_fails = false }

abbrev later : Caller
later = record { key = "k9"; consumer = "web"; now = "t9"; sql_now = "t9"; enqueue_fails = false }

title_of_heading : extract_title_from_body "  ## Plan  \nrest" ≡ "Plan"
unfolding extract_title_from_body
title_of_heading = refl

title_of_hashtag : extract_title_from_body "#tag\n" ≡ "#tag"
unfolding extract_title_from_body
title_of_hashtag = refl

-- The item cannot be enqueued.
abbrev full : Caller
full = record web { enqueue_fails = true }

update_note_body-Atomic_example :
    Atomic hub web "n9" (IsUpdated web "new") (update_note_body hub web "n9" (some "new"))
unfolding update_note_body
update_note_body-Atomic_example =
    update_note_body-Atomic hub web three_items-IsWellFormed (refl, tt) "n9" "new" refl refl

trash_note-Atomic_example : Atomic hub full "n9" (IsTrashed full) (trash_note hub full "n9")
trash_note-Atomic_example = trash_note-Atomic hub full three_items-IsWellFormed (refl, tt) "n9"

trash_again_example :
    (trash_note (trash_note hub web "n9").0 later "n9").0 ≡ (trash_note hub web "n9").0
unfolding trash_note
trash_again_example =
    trash_again hub web later "n9" "n9" three_items-IsWellFormed refl refl refl refl

abbrev draft : CreateNoteRequest
draft = record { title = "Draft"; body = "text"; tags = [] }

abbrev drawn_id : ℕ → String
drawn_id k = "fresh"

create_again_example :
    (create_note_request drawn_id
      (create_note_request drawn_id hub web (some draft)).0
      later
      (some draft)).0
    ≡ (create_note_request drawn_id hub web (some draft)).0
unfolding create_note_request
create_again_example =
    create_again drawn_id hub web later (some draft) (some draft) three_items-IsWellFormed refl refl
      refl refl

abbrev two_tokens : List (String × String)
two_tokens = ("app1", "secret1") ∷ ("app2", "secret2") ∷ []

in_order :
    (n t : String) → lookup n two_tokens ≡ some t → any (λ m. m == n) ("app2" ∷ "app1" ∷ []) ≡ true
in_order n t h = elim (Bool-cases ("app1" == n)) [
  | inl e ↦ ground (arith, e)
  | inr e ↦ elim (Bool-cases ("app2" == n)) [
    | inl k ↦ ground (arith, k)
    | inr k ↦ ground (arith, h, e, k)
  ]
]

match_consumer_token_iff_example :
    (match_consumer_token two_tokens ("app2" ∷ "app1" ∷ []) "secret1" ≡ "app1")
    ↔ (lookup "app1" two_tokens ≡ some "secret1")
unfolding parse_consumer_tokens
match_consumer_token_iff_example =
    match_consumer_token_iff "app1:secret1, app2:secret2" two_tokens ("app2" ∷ "app1" ∷ []) "app1"
      "secret1" refl in_order refl

-- The bridge's token does not open a route of the consumers.
denies_bridge :
    auth_middleware two_tokens "bridge-secret" consumer
      ("app2" ∷ "app1" ∷ [])
      "Bearer bridge-secret"
    ≡ denied 403 "invalid token for consumer scope"
unfolding auth_middleware
denies_bridge = refl
