-- ===== src/Bridge/Again.antt =====
-- Proofs about `applyUpdate`, `applyTrash` and `applyArchive` of cmd/bridge/queue.go on an item
-- that was applied before.
use bear_sync.Prelude.{
  String, Bool, true, false, not, ◌&&◌, some, ◌==◌, ◌≡◌, refl, ap, ◌⊎◌, inl, inr, nat_eq, ltb,
  Bool-cases, Option-cases,
}
use mathlib.Core.Path.{subst}
use Prim.Native.String.{len}
use bear_sync.Models.WriteQueue.{
  WriteQueueItem, Action, create, update, add_tag, trash, add_file, archive, rename_tag, delete_tag,
  other,
}
use bear_sync.Models.Sync.{SyncAckItem, AckStatus}
use bear_sync.Bridge.Bear.{Problem, Fallible, fails, gives, Done, NoteBasicInfo, Failure, Bear}
use bear_sync.Bridge.Payload.{string_field}
use bear_sync.Bridge.Actions.{
  Applied, refuses, applies, find_bear_note_for_item, apply_update, update_in_bear, apply_trash,
  apply_archive, NoteStateChange, apply_note_state_change, trash_change, archive_change, verified,
  max_xcallback_body_size,
}
use bear_sync.Bridge.Queue.{ack_updated, ack_done, apply_action}
use bear_sync.Bridge.Redo.{Lands, FindsAsked, refound}

pub Applied-cases {ℓ} :
    {A : Type ℓ} (r : Applied A) → ((f : Failure) × (r ≡ refuses f)) ⊎ ((a : A) × (r ≡ applies a))
Applied-cases (refuses f) = inl (f, refl)
Applied-cases (applies a) = inr (a, refl)

Call-cases {ℓ} :
    {S A : Type ℓ} (out : S × Fallible A)
    → ((e : Problem) × (out ≡ (out.0, fails e))) ⊎ ((a : A) × (out ≡ (out.0, gives a)))
Call-cases (s, fails e) = inl (e, refl)
Call-cases (s, gives a) = inr (a, refl)

module _ (B : Bear) (asked : FindsAsked B) where
  verified_applies :
      (name : String) (out : B.State × Fallible Done) {s' : B.State} {d : Done}
      → verified B name out ≡ (s', applies d)
      → (s : B.State) × (d' : Done) × (out ≡ (s, gives d')) × (B.sleep s ≡ s')
  unfolding verified
  verified_applies name (s, fails e) h = cc
  verified_applies name (s, gives d') h = (s, d', refl, ap (λ (x : B.State × Applied Done). x.0) h)

  change_again :
      (s : B.State) (item : WriteQueueItem) (sc : NoteStateChange B) {s' : B.State} {d : Done}
      → Lands B sc.execute sc.is_applied
      → apply_note_state_change B s item sc ≡ (s', applies d)
      → apply_note_state_change B s' item sc ≡ (s', applies Done.done)
  unfolding apply_note_state_change
  change_again s item sc {s'} {d} w run = elim (Applied-cases (find_bear_note_for_item B s item)) [
    | inl (f, h) ↦ cc (rw (h, apply_note_state_change) at run)
    | inr (n, h) ↦ elim (Bool-cases (sc.is_applied n)) [
      | inl t ↦
          let same : s ≡ s' = cc (rw (h, t, apply_note_state_change) at run) in
          subst (λ x. apply_note_state_change B x item sc ≡ (x, applies Done.done)) same
            (rw (h, t, apply_note_state_change) refl)
      | inr t ↦
          let (s₁, d', ran, slept) =
            verified_applies sc.name (sc.execute s n.uuid)
              (rw (h, t, apply_note_state_change) at run) in
          let (n', found, done) = refound B sc.execute sc.is_applied w asked s s₁ item n d' ran h in
          subst (λ x. apply_note_state_change B x item sc ≡ (x, applies Done.done)) slept
            (rw (found, done, apply_note_state_change) refl)
    ]
  ]

  in_bear_applies :
      (s : B.State) (n : NoteBasicInfo) (body : String) {s' : B.State} {t : String}
      → update_in_bear B s n body ≡ (s', applies t)
      → (body == "") ≡ false
        × ((s₁ : B.State) × (d : Done) × (B.update s n.uuid body ≡ (s₁, gives d))
            × (B.sleep s₁ ≡ s'))
  unfolding update_in_bear
  in_bear_applies s n body run = elim (Bool-cases (body == "")) [
    | inl e ↦ cc (rw (e, update_in_bear) at run)
    | inr e ↦ elim (Bool-cases (ltb max_xcallback_body_size (len body))) [
      | inl l ↦ cc (rw (e, l, update_in_bear) at run)
      | inr l ↦ elim (Call-cases (B.update s n.uuid body)) [
        | inl (p, out) ↦ cc (rw (e, l, out, update_in_bear) at run)
        | inr (d, out) ↦ (
          e,
          (
            (B.update s n.uuid body).0,
            d,
            out,
            ap (λ (x : B.State × Applied String). x.0) (rw (e, l, out, update_in_bear) at run),
          ),
        )
      ]
    ]
  ]

  -- Where the note has the body already, Bear is left alone.
  update_idle :
      (s : B.State) (item : WriteQueueItem) (body : String) (n : NoteBasicInfo)
      → string_field "body" item.payload ≡ some body
      → find_bear_note_for_item B s item ≡ applies n
      → (body == "") ≡ false
      → (n.body == body) ≡ true
      → (t : String) × (apply_update B s item ≡ (s, applies t))
  unfolding apply_update
  update_idle s item body n b h e same = rw (b, h, e, same, apply_update) (_, refl)

  update_again :
      (s : B.State) (item : WriteQueueItem) {s' : B.State} {t : String}
      → ((body : String) → Lands B (λ x u. B.update x u body) (λ n. n.body == body))
      → apply_update B s item ≡ (s', applies t)
      → (t' : String) × (apply_update B s' item ≡ (s', applies t'))
  unfolding apply_update
  update_again s item {s'} {t} w run = elim (Option-cases (string_field "body" item.payload)) [
    | inl b ↦ cc (rw (b, apply_update) at run)
    | inr (body, b) ↦ elim (Applied-cases (find_bear_note_for_item B s item)) [
      | inl (f, h) ↦ cc (rw (b, h, apply_update) at run)
      | inr (n, h) ↦ elim (Bool-cases (not (body == "") && n.body == body)) [
        | inl e ↦
            let same : s ≡ s' = cc (rw (b, h, e, apply_update) at run) in
            subst (λ x. (t' : String) × (apply_update B x item ≡ (x, applies t'))) same
              (rw (b, h, e, apply_update) (_, refl))
        | inr e ↦
            let (named, (s₁, d, ran, slept)) =
              in_bear_applies s n body (rw (b, h, e, apply_update) at run) in
            let (n', found, done) =
              refound B (λ x u. B.update x u body) (λ m. m.body == body) (w body) asked s s₁ item n
                d ran h in
            subst (λ x. (t' : String) × (apply_update B x item ≡ (x, applies t'))) slept
              (update_idle (B.sleep s₁) item body n' b found named done)
      ]
    ]
  ]

-- What the bridge relies on: a lookup finds the note that it asks for, and a write of a note that
-- Bear accepts is there after the sleep, with the other notes as they were.
pub record IsLawful (B : Bear) : Type 0 where
  pub asked : FindsAsked B
  pub updates : (body : String) → Lands B (λ s u. B.update s u body) (λ n. n.body == body)
  pub trashes : Lands B B.trash (λ n. nat_eq n.trashed 1)
  pub archives : Lands B B.archive (λ n. nat_eq n.archived 1)

abbrev pub is_overwrite : Action → Bool
is_overwrite update = true
is_overwrite trash = true
is_overwrite archive = true
is_overwrite _ = false

module _ (B : Bear) where
  ack_done_applied :
      (item : WriteQueueItem) (out : B.State × Applied Done) {s' : B.State} {a : SyncAckItem}
      → ack_done B item out ≡ (s', a)
      → a.status ≡ AckStatus.applied
      → out ≡ (s', applies Done.done)
  unfolding ack_done
  ack_done_applied item (s, refuses f) h e =
      cc (ap (λ (x : B.State × SyncAckItem). x.1.status) h, e)
  ack_done_applied item (s, applies Done.done) h e =
      ap (λ (x : B.State × SyncAckItem). (x.0, applies Done.done)) h

  ack_updated_applied :
      (item : WriteQueueItem) (out : B.State × Applied String) {s' : B.State} {a : SyncAckItem}
      → ack_updated B item out ≡ (s', a)
      → a.status ≡ AckStatus.applied
      → (t : String) × (out ≡ (s', applies t))
  unfolding ack_updated
  ack_updated_applied item (s, refuses f) h e =
      cc (ap (λ (x : B.State × SyncAckItem). x.1.status) h, e)
  ack_updated_applied item (s, applies t) h e =
      (t, ap (λ (x : B.State × SyncAckItem). (x.0, applies t)) h)

  -- Where Bear obeys the laws of IsLawful, an update, a trash or an archive that was applied,
  -- applied again to Bear as it is then, leaves Bear as it is and is reported as applied again.
  pub apply_action_again :
      (law : IsLawful B) (s : B.State) (item : WriteQueueItem) (action : Action) {s' : B.State}
      {a : SyncAckItem}
      → is_overwrite action ≡ true
      → apply_action B s item action ≡ (s', a)
      → a.status ≡ AckStatus.applied
      → let (s'', a') = apply_action B s' item action in
        (s'' ≡ s') × (a'.status ≡ AckStatus.applied)
  unfolding apply_action apply_trash apply_archive ack_done ack_updated
  apply_action_again law s item update o run e =
      let (t, ran) = ack_updated_applied item (apply_update B s item) run e in
      let (t', again) = update_again B law.asked s item law.updates ran in rw again (refl, refl)
  apply_action_again law s item trash o run e =
      let ran = ack_done_applied item (apply_trash B s item) run e in
      rw (change_again B law.asked s item (trash_change B) law.trashes ran) (refl, refl)
  apply_action_again law s item archive o run e =
      let ran = ack_done_applied item (apply_archive B s item) run e in
      rw (change_again B law.asked s item (archive_change B) law.archives ran) (refl, refl)
  apply_action_again law s item create o run e = cc
  apply_action_again law s item add_tag o run e = cc
  apply_action_again law s item add_file o run e = cc
  apply_action_again law s item rename_tag o run e = cc
  apply_action_again law s item delete_tag o run e = cc
  apply_action_again law s item (other t) o run e = cc
