-- ===== src/XCallback/Called.antt =====
-- Proofs about what a trash or an archive that is reported as applied did to Bear: cmd/bridge/queue.go
-- with internal/xcallback/xcallback.go and internal/beardb/sqlite.go.
use Prim.Native.String.{◌++◌ as ◌<>◌}
use bear_sync.Prelude.{
  none, [], ◌∷◌, ℕ, String, Bool, true, some, List, ◌≡◌, refl, sym, ap, ◌∙◌, ◌⊎◌, inl, inr, eq_iff,
  nat_eq, nat_eq_iff, select, select_sound, matches, Bool-cases, Option-cases,
}
use bear_sync.Models.WriteQueue.{WriteQueueItem}
use bear_sync.Store.Scan.Values.{
  Value, Row, null, integer, real, text, blob, string_of, nullable_of,
}
use bear_sync.Bridge.Bear.{Fallible, fails, gives, Done, Failure, NoteBasicInfo, Bear}
use bear_sync.Bridge.Redo.{FindsAsked}
use bear_sync.Bridge.DeltaLaws.{>>=-eq-gives, gives_injective}
use bear_sync.Bridge.Actions.{
  Applied, refuses, applies, find_bear_note_for_item, verified, NoteStateChange,
  apply_note_state_change, trash_change, archive_change, apply_trash, apply_archive,
}
use bear_sync.BearDb.Lookups.{note_by_uuid, has_uuid, first_info, basic_info}
use bear_sync.XCallback.Driver.{
  percent_spaces, XcallResult, Machine, call_url, parse_xcall_result, checked, to_done, url_command,
  execute_action, note_params, trash, archive,
}
use bear_sync.XCallback.Spaces.{IsSpaced, percent_spaces-IsSpaced}
use bear_sync.XCallback.RealBear.{Surroundings, real_bear}

text_of_match : (v : Value) (u : String) → matches (nullable_of v) u ≡ true → string_of v ≡ u
text_of_match (text s) u h = (eq_iff s u).0 h
text_of_match null u h = cc
text_of_match (integer i) u h = cc
text_of_match (real d) u h = cc
text_of_match (blob b) u h = cc

first_info-asked :
    (u : String) (rows : List Row) (n : NoteBasicInfo)
    → first_info (select (has_uuid u) rows) ≡ some n
    → n.uuid ≡ u
first_info-asked u rows n h = elim (Option-cases (select (has_uuid u) rows)) [
  | inl e ↦ cc (rw e at h)
  | inr (row, e) ↦
      let same : basic_info row ≡ n = cc (rw e at h) in
      sym (ap (λ (i : NoteBasicInfo). i.uuid) same)
      ∙ text_of_match (row "ZUNIQUEIDENTIFIER") u (select_sound (has_uuid u) rows e)
]

-- A lookup in Bear's tables finds the note that it asks for.
pub real_bear-FindsAsked :
    (M : Machine) (e : Surroundings M) (token : String) → FindsAsked (real_bear M e token)
unfolding note_by_uuid
real_bear-FindsAsked M e token = λ s u n h.
    let (db, got, out) =
      >>=-eq-gives (e.tables "note" s) (λ db. gives (first_info (select (has_uuid u) db.zsfnote)))
        h in
    first_info-asked u db.zsfnote n (gives_injective out)

-- bear-xcall printed nothing, or a result without an error.
abbrev pub HasNoError : Machine → List ℕ → Type 0
HasNoError M output =
    (output ≡ []) ⊎ ((r : XcallResult) × (M.unmarshal output ≡ some r) × (r.error_code ≡ 0))

-- bear-xcall ran with the URL of an action whose parameters are the token, the id `u` of the note
-- and that no window is shown, answered without an error, and the bridge slept.
pub record Ran (M : Machine) (e : Surroundings M) (token action : String) (s : M.World) (u : String)
    (s' : M.World) : Type 0 where
  pub after : M.World
  pub output : List ℕ
  pub query : String
  pub encodes :
      IsSpaced (M.encode (("token", token) ∷ ("id", u) ∷ ("show_window", "no") ∷ [])) query
  pub runs :
      M.run s (record {
        args = "-url" ∷ ("bear://x-callback-url/" <> (action <> ("?" <> query))) ∷ [];
        stdin = none;
      })
      ≡ (after, gives output)
  pub no_error : HasNoError M output
  pub slept : s' ≡ e.sleep after

-- The item was there already, and nothing changed, or bear-xcall ran for its note.
abbrev pub WasDone :
    (M : Machine)
    → Surroundings M
    → String
    → String
    → (NoteBasicInfo → Bool)
    → M.World
    → WriteQueueItem
    → M.World
    → Type 0
WasDone M e token action is_applied s item s' =
    (n : NoteBasicInfo) × (find_bear_note_for_item (real_bear M e token) s item ≡ applies n)
    × (((is_applied n ≡ true) × (s' ≡ s)) ⊎ Ran M e token action s n.uuid s')

module _ (M : Machine) (e : Surroundings M) (token : String) where
  answered :
      (output : List ℕ) (r : XcallResult)
      → parse_xcall_result M output ≡ some r
      → r.error_code ≡ 0
      → HasNoError M output
  unfolding parse_xcall_result
  answered [] r x z = inl refl
  answered (b ∷ output) r x z = inr (r, x, z)

  checked_ok :
      (out : Fallible (List ℕ)) {d : Done}
      → to_done M (checked M out) ≡ gives d
      → (output : List ℕ) × (out ≡ gives output) × HasNoError M output
  unfolding checked
  checked_ok (fails p) h = cc
  checked_ok (gives output) h = elim (Option-cases (parse_xcall_result M output)) [
    | inl x ↦ cc (rw (x, checked) at h)
    | inr (r, x) ↦ elim (Bool-cases (nat_eq r.error_code 0)) [
      | inl z ↦ (output, refl, answered output r x ((nat_eq_iff r.error_code 0).0 z))
      | inr z ↦ cc (rw (x, z, checked) at h)
    ]
  ]

  verified_ok :
      (name : String) (x : M.World × Fallible Done) {s' : M.World} {d : Done}
      → verified (real_bear M e token) name x ≡ (s', applies d)
      → (x.1 ≡ gives d) × (s' ≡ e.sleep x.0)
  unfolding verified
  verified_ok name (s, fails p) run = cc (ap (λ (o : M.World × Applied Done). o.1) run)
  verified_ok name (s, gives c) run = (
    ap gives (cc (ap (λ (o : M.World × Applied Done). o.1) run)),
    sym (ap (λ (o : M.World × Applied Done). o.0) run),
  )

  verified-Ran :
      (name action : String) (s s' : M.World) (u : String) {d : Done}
      → verified
          (real_bear M e token)
          name
          (execute_action M s (call_url M action (note_params M token u)))
        ≡ (s', applies d)
      → Ran M e token action s u s'
  unfolding execute_action call_url
  verified-Ran name action s s' u run =
      let out = M.run s (url_command M (call_url M action (note_params M token u))) in
      let (done, slept) = verified_ok name (out.0, to_done M (checked M out.1)) run in
      let (output, gave, fine) = checked_ok out.1 done in
      record {
        after = out.0;
        output = output;
        query = percent_spaces (M.encode (note_params M token u));
        encodes = percent_spaces-IsSpaced (M.encode (note_params M token u));
        runs = ap (λ x. (out.0, x)) gave;
        no_error = fine;
        slept = slept;
      }

  -- A change of state whose call is this action.
  change_done :
      (sc : NoteStateChange (real_bear M e token)) (action : String)
      → ((s : M.World) (u : String)
          → sc.execute s u ≡ execute_action M s (call_url M action (note_params M token u)))
      → (s s' : M.World) (item : WriteQueueItem) {d : Done}
      → apply_note_state_change (real_bear M e token) s item sc ≡ (s', applies d)
      → WasDone M e token action sc.is_applied s item s'
  unfolding apply_note_state_change
  change_done sc action calls s s' item run =
      elim (Applied-split (find_bear_note_for_item (real_bear M e token) s item)) [
        | inl (f, x) ↦
            cc (ap (λ (o : M.World × Applied Done). o.1) (rw (x, apply_note_state_change) at run))
        | inr (n, x) ↦ elim (Bool-cases (sc.is_applied n)) [
          | inl a ↦
              let same = rw (x, a, apply_note_state_change) at run in
              (n, x, inl (a, sym (ap (λ (o : M.World × Applied Done). o.0) same)))
          | inr a ↦ (
            n,
            x,
            inr (
                verified-Ran sc.name action s s' n.uuid (
                  ap (verified (real_bear M e token) sc.name) (sym (calls s n.uuid))
                  ∙ (rw (x, a, apply_note_state_change) at run))),
          )
        ]
      ]
    where
      Applied-split :
          (r : Applied NoteBasicInfo)
          → ((f : Failure) × (r ≡ refuses f)) ⊎ ((n : NoteBasicInfo) × (r ≡ applies n))
      Applied-split (refuses f) = inl (f, refl)
      Applied-split (applies n) = inr (n, refl)

-- The two changes of state.
pub data Change : Type 0 where
  trashes archives : Change

abbrev pub action_of : Change → String
action_of trashes = "trash"
action_of archives = "archive"

abbrev pub is_done : Change → NoteBasicInfo → Bool
is_done trashes n = nat_eq n.trashed 1
is_done archives n = nat_eq n.archived 1

abbrev pub apply_change : (B : Bear) → Change → B.State → WriteQueueItem → B.State × Applied Done
apply_change B trashes = apply_trash B
apply_change B archives = apply_archive B

-- With the driver of bear-xcall and the reads of Bear's tables, a trash or an archive that is
-- reported as applied found its note, and Bear's tables said that this was done already and
-- nothing changed, or bear-xcall ran with the URL of the action, with the token and the id of
-- this note as its parameters, and printed nothing or a result without an error.
pub apply_action-WasDone :
    (M : Machine) (e : Surroundings M) (token : String) (c : Change) (s s' : M.World)
    (item : WriteQueueItem) (d : Done)
    → apply_change (real_bear M e token) c s item ≡ (s', applies d)
    → WasDone M e token (action_of c) (is_done c) s item s'
unfolding apply_trash apply_archive trash archive
apply_action-WasDone M e token trashes s s' item d run =
    change_done M e token (trash_change (real_bear M e token)) "trash" (λ t u. refl) s s' item run
apply_action-WasDone M e token archives s s' item d run =
    change_done M e token (archive_change (real_bear M e token)) "archive" (λ t u. refl) s s' item
      run
