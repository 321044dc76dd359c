-- ===== src/Bridge/Changed.antt =====
-- Proofs about `findChangedJunctionNotes` of cmd/bridge/sync.go.
use bear_sync.Prelude.{
  String, Bool, true, false, not, ◌&&◌, ◌||◌, Option, none, some, List, [], ◌∷◌, ◌++◌, ◌==◌, ◌≡◌,
  ◌↔◌, refl, sym, ap, ◌∙◌, inl, inr, arith, eq_iff, str_eq_self, any, lookup, lookup-put,
  select_all, is_none, Bool-cases, if◌then◌else◌,
}
use mathlib.Core.Path.{subst}
use bear_sync.Bridge.Junction.{
  IdPair, member, add, JunctionSet, or_empty, tags_of, add_pair, junction_set, keys, differs,
  is_changed, find_changed_junction_notes,
}
use bear_sync.Bridge.Sets.{Distinct, Within, length-Within, Within-back}

-- The pairs say that the note `k` has the tag `t`.
abbrev pub has : String → String → List IdPair → Bool
has k t = any (λ p. p.note_uuid == k && p.tag_uuid == t)

-- An entry of the map: a set that is not empty, or none.
abbrev IsEntry : Option (List String) → Type 0
IsEntry none = Unit
IsEntry (some tags) = Distinct tags × ((t : String) × (member t tags ≡ true))

Distinct-entry : (o : Option (List String)) → IsEntry o → Distinct (or_empty o)
Distinct-entry none h = tt
Distinct-entry (some tags) h = h.0

member-add : (t s : String) (set : List String) → member t (add s set) ≡ (s == t || member t set)
member-add t s set = elim (Bool-cases (member s set)) [
  | inl e ↦ elim (Bool-cases (s == t)) [
    | inl h ↦
        let there : member t set ≡ true = ap (λ u. member u set) (sym ((eq_iff s t).0 h)) ∙ e in
        ground (arith, there)
    | inr h ↦ ground arith
  ]
  | inr e ↦ ground arith
]

Distinct-add : (s : String) (set : List String) → Distinct set → Distinct (add s set)
Distinct-add s set d = elim (Bool-cases (member s set)) [ inl e ↦ rw e d | inr e ↦ rw e (e, d) ]

IsEntry-add :
    (s : String) (o : Option (List String)) → IsEntry o → IsEntry (some (add s (or_empty o)))
IsEntry-add s o h = (
  Distinct-add s (or_empty o) (Distinct-entry o h),
  (s, ground (arith, member-add s s (or_empty o), str_eq_self s)),
)

abbrev AreEntries : JunctionSet → Type 0
AreEntries m = (k : String) → IsEntry (lookup k m)

IsEntry-if :
    (b : Bool) (x y : Option (List String)) → IsEntry x → IsEntry y → IsEntry (if b then x else y)
IsEntry-if true x y h k = h
IsEntry-if false x y h k = k

add_pair-AreEntries : (m : JunctionSet) (p : IdPair) → AreEntries m → AreEntries (add_pair m p)
add_pair-AreEntries m p h = λ k.
    subst IsEntry (sym (lookup-put p.note_uuid k (add p.tag_uuid (tags_of p.note_uuid m)) m)) (
      IsEntry-if (p.note_uuid == k) _ _
        (IsEntry-add p.tag_uuid (lookup p.note_uuid m) (h p.note_uuid)) (h k))

member-add_pair :
    (k t : String) (m : JunctionSet) (p : IdPair)
    → member t (tags_of k (add_pair m p))
      ≡ (member t (tags_of k m) || (p.note_uuid == k && p.tag_uuid == t))
member-add_pair k t m p =
    let after = add p.tag_uuid (tags_of p.note_uuid m) in
    ap (λ o. member t (or_empty o)) (lookup-put p.note_uuid k after m)
    ∙ elim (Bool-cases (p.note_uuid == k)) [
      | inl e ↦
          let same : member t (tags_of p.note_uuid m) ≡ member t (tags_of k m) =
            ap (λ n. member t (tags_of n m)) ((eq_iff p.note_uuid k).0 e) in
          rw e (member-add t p.tag_uuid (tags_of p.note_uuid m) ∙ ground (arith, same))
      | inr e ↦ rw e (ground arith)
    ]

member-junction_set :
    (k t : String) (m : JunctionSet) (pairs : List IdPair)
    → member t (tags_of k (junction_set m pairs)) ≡ (member t (tags_of k m) || has k t pairs)
unfolding junction_set
member-junction_set k t m [] = ground arith
member-junction_set k t m (p ∷ pairs) =
    ground (arith, member-junction_set k t (add_pair m p) pairs, member-add_pair k t m p)

junction_set-AreEntries :
    (m : JunctionSet) (pairs : List IdPair) → AreEntries m → AreEntries (junction_set m pairs)
unfolding junction_set
junction_set-AreEntries m [] h = h
junction_set-AreEntries m (p ∷ pairs) h =
    junction_set-AreEntries (add_pair m p) pairs (add_pair-AreEntries m p h)

-- Whether a note with the entries `new` and `old` counts as changed.
abbrev changed : Option (List String) → Option (List String) → Bool
changed none none = false
changed none (some old) = true
changed (some new) old = differs new old

same_bool : (b c : Bool) → (b ≡ true → c ≡ true) → (c ≡ true → b ≡ true) → b ≡ c
same_bool b c f g = ground arith

any_outside : (xs ys : List String) → any (λ t. not (member t ys)) xs ≡ false → Within xs ys
any_outside [] ys h = λ t e. cc
any_outside (x ∷ xs) ys h = λ t e. elim (Bool-cases (x == t)) [
  | inl s ↦ ap (λ u. member u ys) (sym ((eq_iff x t).0 s)) ∙ ground arith
  | inr s ↦ any_outside xs ys (ground arith) t (ground arith)
]

outside_none : (xs ys : List String) → Within xs ys → any (λ t. not (member t ys)) xs ≡ false
outside_none [] ys w = refl
outside_none (x ∷ xs) ys w =
    ground (arith, str_eq_self x, w x, outside_none xs ys (λ t h. w t (ground arith)))

-- Two entries count as unchanged just if they have the same tags.
unchanged_same :
    (new old : Option (List String))
    → IsEntry new
    → IsEntry old
    → changed new old ≡ false
    → (t : String) → member t (or_empty old) ≡ member t (or_empty new)
unchanged_same none none h k e = λ t. refl
unchanged_same none (some old) h k e = ground arith
unchanged_same (some new) none h k e = ground arith
unchanged_same (some new) (some old) h k e = λ t.
    let inside = any_outside new old (ground arith) in
    let back = Within-back new old h.0 k.0 inside (ground arith) in
    same_bool (member t old) (member t new) (back t) (inside t)

same_unchanged :
    (new old : Option (List String))
    → IsEntry new
    → IsEntry old
    → ((t : String) → member t (or_empty old) ≡ member t (or_empty new))
    → changed new old ≡ false
same_unchanged none none h k e = refl
same_unchanged none (some old) h k e = cc (e k.1.0, k.1.1)
same_unchanged (some new) none h k e = cc (e h.1.0, h.1.1)
same_unchanged (some new) (some old) h k e =
    let into : Within new old = λ t m. e t ∙ m in
    let back : Within old new = λ t m. sym (e t) ∙ m in
    ground (
      arith,
      outside_none new old into,
      length-Within new old h.0 k.0 into,
      length-Within old new k.0 h.0 back,
    )

member-append :
    (k : String) (xs ys : List String) → member k (xs ++ ys) ≡ (member k xs || member k ys)
member-append k [] ys = refl
member-append k (x ∷ xs) ys = ground (arith, member-append k xs ys)

pub member-select_all :
    (p : String → Bool) (k : String) (xs : List String)
    → member k (select_all p xs) ≡ (member k xs && p k)
member-select_all p k [] = refl
member-select_all p k (x ∷ xs) = elim (Bool-cases (x == k)) [
  | inl e ↦
      let same : p x ≡ p k = ap p ((eq_iff x k).0 e) in
      ground (arith, same, member-select_all p k xs)
  | inr e ↦ ground (arith, member-select_all p k xs)
]

member-keys : (k : String) (m : JunctionSet) → member k (keys m) ≡ not (is_none (lookup k m))
member-keys k [] = refl
member-keys k ((j, v) ∷ m) = ground (arith, member-keys k m)

changed-combine :
    (new old : Option (List String))
    → ((not (is_none new) && differs (or_empty new) old) || (not (is_none old) && is_none new))
      ≡ changed new old
changed-combine none none = refl
changed-combine none (some old) = refl
changed-combine (some new) none = refl
changed-combine (some new) (some old) = ground arith

member-find_changed :
    (k : String) (old_pairs new_pairs : List IdPair)
    → member k (find_changed_junction_notes old_pairs new_pairs)
      ≡ changed (lookup k (junction_set [] new_pairs)) (lookup k (junction_set [] old_pairs))
unfolding find_changed_junction_notes
member-find_changed k old_pairs new_pairs =
    let os = junction_set [] old_pairs in
    let ns = junction_set [] new_pairs in
    rw
      (
        member-append k (select_all (is_changed os ns) (keys ns))
            (select_all (λ j. is_none (lookup j ns)) (keys os)),
        member-select_all (is_changed os ns) k (keys ns),
        member-select_all (λ j. is_none (lookup j ns)) k (keys os),
        member-keys k ns,
        member-keys k os,
      )
      (changed-combine (lookup k ns) (lookup k os))

-- A note is not among the changed notes of two lists of pairs exactly if both lists give it the
-- same tags, whatever the order and the repetitions in the lists.
pub find_changed_iff :
    (old_pairs new_pairs : List IdPair) (k : String)
    → (member k (find_changed_junction_notes old_pairs new_pairs) ≡ false)
      ↔ ((t : String) → has k t old_pairs ≡ has k t new_pairs)
find_changed_iff old_pairs new_pairs k =
    let os = junction_set [] old_pairs in
    let ns = junction_set [] new_pairs in
    let old_entry = junction_set-AreEntries [] old_pairs (λ j. tt) k in
    let new_entry = junction_set-AreEntries [] new_pairs (λ j. tt) k in
    (
      (λ e t.
          sym (member-junction_set k t [] old_pairs)
          ∙ unchanged_same (lookup k ns) (lookup k os) new_entry old_entry
              (sym (member-find_changed k old_pairs new_pairs) ∙ e) t
          ∙ member-junction_set k t [] new_pairs),
      (λ same.
          member-find_changed k old_pairs new_pairs
          ∙ same_unchanged (lookup k ns) (lookup k os) new_entry old_entry (λ t.
            member-junction_set k t [] old_pairs
            ∙ same t
            ∙ sym (member-junction_set k t [] new_pairs))),
    )
