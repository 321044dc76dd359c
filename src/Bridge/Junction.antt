-- ===== src/Bridge/Junction.antt =====
-- The functions of cmd/bridge/sync.go on ids and on pairs of a note and a tag. A Go map is an
-- association list; where the source ranges over one, the order is a choice of the model.
use Prim.Native.String.{◌++◌ as ◌<>◌}
use bear_sync.Prelude.{
  String, Bool, true, false, not, ◌&&◌, ◌||◌, Option, none, some, List, [], ◌∷◌, ◌++◌, ◌==◌, nat_eq,
  map, lookup, put, is_none, select_all, any, length, if◌then◌else◌,
}
use bear_sync.Models.Sync.{NoteTagPair, SyncPushRequest}

-- `beardb.NoteTagPair`
pub record BearPair : Type 0 where
  pub note_uuid : String
  pub tag_uuid : String

-- `IDPair` of cmd/bridge/state.go
pub record IdPair : Type 0 where
  pub note_uuid : String
  pub tag_uuid : String

-- A set of texts, `map[string]bool`: membership, and `set[s] = true`.
abbrev pub member : String → List String → Bool
member s = any (λ t. t == s)

abbrev pub add : String → List String → List String
add s set = if member s set then set else s ∷ set

unfoldable pub convert_note_tags : List BearPair → List NoteTagPair
convert_note_tags = map (λ p. record { note_id = p.note_uuid; tag_id = p.tag_uuid })

unfoldable pub convert_to_id_pairs : List BearPair → List IdPair
convert_to_id_pairs = map (λ p. record { note_uuid = p.note_uuid; tag_uuid = p.tag_uuid })

abbrev pub pair_key : NoteTagPair → String
pair_key p = p.note_id <> "|" <> p.tag_id

-- The second loop of `mergeNoteTags`: the pairs that it appends.
abbrev pub unseen : List String → List NoteTagPair → List NoteTagPair
unseen seen [] = []
unseen seen (p ∷ pairs) =
    let fresh = p ∷ unseen (pair_key p ∷ seen) pairs in
    if member (pair_key p) seen then unseen seen pairs else fresh

unfoldable pub merge_note_tags : List NoteTagPair → List NoteTagPair → List NoteTagPair
merge_note_tags existing additional = existing ++ unseen (map pair_key existing) additional

unfoldable pub diff_ids : List String → List String → List String
diff_ids known current = select_all (λ k. not (member k current)) known

-- The `[]string` of the ids of the rows that have one.
abbrev pub extract_uuids {ℓ} : {A : Type ℓ} → (A → Option String) → List A → List String
extract_uuids id [] = []
extract_uuids id (r ∷ rows) =
    let rest = extract_uuids id rows in elim (id r) [ none ↦ rest | some k ↦ k ∷ rest ]

-- `map[string]map[string]bool`
abbrev pub JunctionSet : Type 0
JunctionSet = List (String × List String)

abbrev pub or_empty : Option (List String) → List String
or_empty none = []
or_empty (some tags) = tags

abbrev pub tags_of : String → JunctionSet → List String
tags_of k m = or_empty (lookup k m)

abbrev pub add_pair : JunctionSet → IdPair → JunctionSet
add_pair m p = put p.note_uuid (add p.tag_uuid (tags_of p.note_uuid m)) m

unfoldable pub junction_set : JunctionSet → List IdPair → JunctionSet
junction_set m [] = m
junction_set m (p ∷ pairs) = junction_set (add_pair m p) pairs

abbrev pub keys : JunctionSet → List String
keys = map (λ e. e.0)

-- The body of the first loop over `newSet`, for a note with the tags `tags`.
abbrev pub differs : List String → Option (List String) → Bool
differs tags none = true
differs tags (some old_tags) =
    not (nat_eq (length tags) (length old_tags)) || any (λ t. not (member t old_tags)) tags

abbrev pub is_changed : JunctionSet → JunctionSet → String → Bool
is_changed old_set new_set k = differs (tags_of k new_set) (lookup k old_set)

unfoldable pub find_changed_junction_notes : List IdPair → List IdPair → List String
unfolding junction_set
find_changed_junction_notes old_pairs new_pairs =
    let old_set = junction_set [] old_pairs in
    let new_set = junction_set [] new_pairs in
    select_all (is_changed old_set new_set) (keys new_set)
    ++ select_all (λ k. is_none (lookup k new_set)) (keys old_set)

-- The pairs of one changed note, or the pair with an empty tag that makes the hub delete its tags.
abbrev pub snapshot_of : String → List BearPair → List NoteTagPair
snapshot_of k [] = record { note_id = k; tag_id = "" } ∷ []
snapshot_of k (p ∷ pairs) =
    map (λ q. record { note_id = q.note_uuid; tag_id = q.tag_uuid }) (p ∷ pairs)

abbrev pub note_snapshot : List BearPair → String → List NoteTagPair
note_snapshot current k = snapshot_of k (select_all (λ p. p.note_uuid == k) current)

unfoldable pub snapshots : List BearPair → List String → List NoteTagPair
snapshots current [] = []
snapshots current (k ∷ notes) = note_snapshot current k ++ snapshots current notes

abbrev pub is_empty {ℓ} : {A : Type ℓ} → List A → Bool
is_empty [] = true
is_empty (x ∷ xs) = false

unfoldable pub is_empty_push : SyncPushRequest → Bool
is_empty_push req =
    is_empty req.notes
    && is_empty req.tags
    && is_empty req.note_tags
    && is_empty req.pinned_note_tags
    && is_empty req.attachments
    && is_empty req.backlinks
    && is_empty req.deleted_note_ids
    && is_empty req.deleted_tag_ids
    && is_empty req.deleted_attachment_ids
    && is_empty req.deleted_backlink_ids
