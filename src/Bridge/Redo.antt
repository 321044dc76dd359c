-- ===== src/Bridge/Redo.antt =====
-- Proofs about an item of cmd/bridge/queue.go that is applied again, as when its ack is lost and
-- its lease runs out.
use bear_sync.Prelude.{
  String, Bool, true, false, Option, none, some, ◌==◌, ◌≡◌, refl, sym, ap, ◌∙◌, ◌⊎◌, inl, inr,
  eq_iff, Bool-cases,
}
use bear_sync.Models.WriteQueue.{WriteQueueItem}
use bear_sync.Bridge.Bear.{Problem, Fallible, fails, gives, Done, NoteBasicInfo, Bear}
use bear_sync.Bridge.Payload.{any_string}
use bear_sync.Bridge.Actions.{applies, find_by_note_id, find_bear_note_for_item}

-- What a write of the note `u` does when it succeeds and nothing else happens to Bear: the note
-- satisfies `after`, and the other notes are as they were.
pub record Lands (B : Bear) (write : B.State → String → B.State × Fallible Done)
    (after : NoteBasicInfo → Bool) : Type 0 where
  pub lands :
      (s s' : B.State) (u : String) (d : Done) (n : NoteBasicInfo)
      → write s u ≡ (s', gives d)
      → B.note_by_uuid s u ≡ gives (some n)
      → (n' : NoteBasicInfo) × (B.note_by_uuid (B.sleep s') u ≡ gives (some n')) × (after n' ≡ true)
  pub others :
      (s s' : B.State) (u v : String) (d : Done)
      → write s u ≡ (s', gives d)
      → (v == u) ≡ false
      → B.note_by_uuid (B.sleep s') v ≡ B.note_by_uuid s v

-- A lookup finds the note that it asks for.
abbrev pub FindsAsked : Bear → Type 0
FindsAsked B =
    (s : B.State) (u : String) (n : NoteBasicInfo)
    → B.note_by_uuid s u ≡ gives (some n)
    → n.uuid ≡ u

Fallible-cases {ℓ} :
    {A : Type ℓ} (r : Fallible (Option A))
    → ((e : Problem) × (r ≡ fails e)) ⊎ ((r ≡ gives none) ⊎ ((a : A) × (r ≡ gives (some a))))
Fallible-cases (fails e) = inl (e, refl)
Fallible-cases (gives none) = inr (inl refl)
Fallible-cases (gives (some a)) = inr (inr (a, refl))

module _ (B : Bear) where
  found_by_note_id :
      (s : B.State) (item : WriteQueueItem) (n : NoteBasicInfo)
      → find_by_note_id B s item ≡ applies n
      → ((item.note_id == "") ≡ false) × (B.note_by_uuid s item.note_id ≡ gives (some n))
  unfolding find_by_note_id
  found_by_note_id s item n h = elim (Bool-cases (item.note_id == "")) [
    | inl e ↦ cc (rw (e, find_by_note_id) at h)
    | inr e ↦ elim (Fallible-cases (B.note_by_uuid s item.note_id)) [
      | inl (p, k) ↦ cc (rw (e, k, find_by_note_id) at h)
      | inr (inl k) ↦ cc (rw (e, k, find_by_note_id) at h)
      | inr (inr (a, k)) ↦ (e, k ∙ ap (λ x. gives (some x)) (cc (rw (e, k, find_by_note_id) at h)))
    ]
  ]

  finds_by_note_id :
      (s : B.State) (item : WriteQueueItem) (n : NoteBasicInfo)
      → (item.note_id == "") ≡ false
      → B.note_by_uuid s item.note_id ≡ gives (some n)
      → find_by_note_id B s item ≡ applies n
  unfolding find_by_note_id
  finds_by_note_id s item n e k = rw (e, k, find_by_note_id) refl

  finds_by_bear_id :
      (s : B.State) (item : WriteQueueItem) (n : NoteBasicInfo)
      → (any_string "bear_id" item.payload == "") ≡ false
      → B.note_by_uuid s (any_string "bear_id" item.payload) ≡ gives (some n)
      → find_bear_note_for_item B s item ≡ applies n
  unfolding find_bear_note_for_item
  finds_by_bear_id s item n e k = rw (e, k, find_bear_note_for_item) refl

  -- A second lookup of the item's note, where the first went to `note_id`.
  finds_second :
      (s : B.State) (item : WriteQueueItem)
      → (any_string "bear_id" item.payload == "") ≡ true
        ⊎ (B.note_by_uuid s (any_string "bear_id" item.payload) ≡ gives none)
      → find_bear_note_for_item B s item ≡ find_by_note_id B s item
  unfolding find_bear_note_for_item
  finds_second s item (inl e) = rw (e, find_bear_note_for_item) refl
  finds_second s item (inr k) = elim (Bool-cases (any_string "bear_id" item.payload == "")) [
    | inl e ↦ rw (e, find_bear_note_for_item) refl
    | inr e ↦ rw (e, k, find_bear_note_for_item) refl
  ]

  module _ (write : B.State → String → B.State × Fallible Done) (after : NoteBasicInfo → Bool)
      (w : Lands B write after) (asked : FindsAsked B) (s s' : B.State) (item : WriteQueueItem)
      (n : NoteBasicInfo) (d : Done) (run : write s n.uuid ≡ (s', gives d)) where
    written :
        (u : String)
        → B.note_by_uuid s u ≡ gives (some n)
        → (n' : NoteBasicInfo) × (B.note_by_uuid (B.sleep s') u ≡ gives (some n'))
          × (after n' ≡ true)
    written u h = w.lands s s' u d n (ap (write s) (sym (asked s u n h)) ∙ run) h

    -- The note of the item after the write.
    abbrev Refound : Type 0
    Refound =
        (n' : NoteBasicInfo) × (find_bear_note_for_item B (B.sleep s') item ≡ applies n')
        × (after n' ≡ true)

    refound_second :
        find_by_note_id B s item ≡ applies n
        → (any_string "bear_id" item.payload == "") ≡ true
          ⊎ (B.note_by_uuid s (any_string "bear_id" item.payload) ≡ gives none)
        → Refound
    refound_second h miss =
        let (named, k) = found_by_note_id s item n h in
        let (n', k', a) = written item.note_id k in
        (
          n',
          finds_second (B.sleep s') item (still_missed k miss)
              ∙ finds_by_note_id (B.sleep s') item n' named k',
          a,
        )
      where
        still_missed :
            B.note_by_uuid s item.note_id ≡ gives (some n)
            → (any_string "bear_id" item.payload == "") ≡ true
              ⊎ (B.note_by_uuid s (any_string "bear_id" item.payload) ≡ gives none)
            → (any_string "bear_id" item.payload == "") ≡ true
              ⊎ (B.note_by_uuid (B.sleep s') (any_string "bear_id" item.payload) ≡ gives none)
        still_missed k (inl e) = inl e
        still_missed k (inr m) = elim (Bool-cases (any_string "bear_id" item.payload == n.uuid)) [
          | inl e ↦
              let same =
                (eq_iff (any_string "bear_id" item.payload) n.uuid).0 e
                ∙ asked s item.note_id n k in
              cc (m, k, same)
          | inr e ↦ inr (w.others s s' n.uuid (any_string "bear_id" item.payload) d run e ∙ m)
        ]

    pub refound : find_bear_note_for_item B s item ≡ applies n → Refound
    unfolding find_bear_note_for_item
    refound h = elim (Bool-cases (any_string "bear_id" item.payload == "")) [
      | inl e ↦ refound_second (sym (finds_second s item (inl e)) ∙ h) (inl e)
      | inr e ↦ elim (Fallible-cases (B.note_by_uuid s (any_string "bear_id" item.payload))) [
        | inl (p, k) ↦ cc (rw (e, k, find_bear_note_for_item) at h)
        | inr (inl k) ↦ refound_second (sym (finds_second s item (inr k)) ∙ h) (inr k)
        | inr (inr (a, k)) ↦
            let same : a ≡ n = cc (rw (e, k, find_bear_note_for_item) at h) in
            let (n', k', done) =
              written (any_string "bear_id" item.payload) (k ∙ ap (λ x. gives (some x)) same) in
            (n', finds_by_bear_id (B.sleep s') item n' e k', done)
      ]
    ]
