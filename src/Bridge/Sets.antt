-- ===== src/Bridge/Sets.antt =====
-- Lists of texts without repetition as sets, for the maps of cmd/bridge/sync.go.
use bear_sync.Prelude.{
  suc, ◌≤◌, String, true, false, not, ◌&&◌, List, [], ◌∷◌, ◌==◌, ◌≡◌, refl, sym, ap, ◌∙◌, inl, inr,
  arith, eq_iff, str_eq_sym, str_eq_self, delete, length, Bool-cases,
}
use bear_sync.Bridge.Junction.{member}

abbrev pub Distinct : List String → Type 0
Distinct [] = Unit
Distinct (x ∷ xs) = (member x xs ≡ false) × Distinct xs

abbrev pub Within : List String → List String → Type 0
Within xs ys = (t : String) → member t xs ≡ true → member t ys ≡ true

abbrev without : String → List String → List String
without x = delete (λ u. u == x)

member-without :
    (t x : String) (ys : List String) → member t (without x ys) ≡ (member t ys && not (t == x))
member-without t x [] = refl
member-without t x (y ∷ ys) = elim (Bool-cases (y == x)) [
  | inl e ↦ elim (Bool-cases (y == t)) [
    | inl h ↦
        let same : (t == x) ≡ true = ap (λ u. u == x) (sym ((eq_iff y t).0 h)) ∙ e in
        ground (arith, same, member-without t x ys)
    | inr h ↦ ground (arith, member-without t x ys)
  ]
  | inr e ↦ elim (Bool-cases (y == t)) [
    | inl h ↦
        let other : (t == x) ≡ false = ap (λ u. u == x) (sym ((eq_iff y t).0 h)) ∙ e in
        ground (arith, other, member-without t x ys)
    | inr h ↦ ground (arith, member-without t x ys)
  ]
]

Distinct-without : (x : String) (ys : List String) → Distinct ys → Distinct (without x ys)
Distinct-without x [] d = tt
Distinct-without x (y ∷ ys) d = elim (Bool-cases (y == x)) [
  | inl e ↦ rw e (Distinct-without x ys d.1)
  | inr e ↦ rw e (ground (arith, member-without y x ys, d.0), Distinct-without x ys d.1)
]

without_absent :
    (x : String) (ys : List String) → member x ys ≡ false → length (without x ys) ≡ length ys
without_absent x [] h = refl
without_absent x (y ∷ ys) h = ground (arith, without_absent x ys)

length-without :
    (x : String) (ys : List String)
    → Distinct ys
    → member x ys ≡ true
    → suc (length (without x ys)) ≡ length ys
length-without x [] d h = ground arith
length-without x (y ∷ ys) d h = elim (Bool-cases (y == x)) [
  | inl e ↦
      let gone : member x ys ≡ false = ap (λ u. member u ys) (sym ((eq_iff y x).0 e)) ∙ d.0 in
      ground (arith, without_absent x ys gone)
  | inr e ↦ ground (arith, length-without x ys d.1)
]

Within-without :
    (x : String) (xs ys : List String)
    → member x xs ≡ false
    → Within (x ∷ xs) ys
    → Within xs (without x ys)
Within-without x xs ys absent w = λ t h. elim (Bool-cases (t == x)) [
  | inl e ↦ cc (ap (λ u. member u xs) ((eq_iff t x).0 e), absent, h)
  | inr e ↦ ground (arith, member-without t x ys, w t, h)
]

pub length-Within :
    (xs ys : List String) → Distinct xs → Distinct ys → Within xs ys → length xs ≤ length ys
length-Within [] ys d e w = omega arith
length-Within (x ∷ xs) ys d e w =
    let le =
      length-Within xs (without x ys) d.1 (Distinct-without x ys e)
        (Within-without x xs ys d.0 w) in
    let drop = length-without x ys e (w x (ground (arith, str_eq_self x))) in
    omega (arith, le, drop)

-- A set within another one that is no larger is the other one.
pub Within-back :
    (xs ys : List String)
    → Distinct xs
    → Distinct ys
    → Within xs ys
    → length ys ≤ length xs
    → Within ys xs
Within-back [] [] d e w le = λ t h. h
Within-back [] (y ∷ ys) d e w le = ground arith
Within-back (x ∷ xs) ys d e w le = λ t h.
    let drop = length-without x ys e (w x (ground (arith, str_eq_self x))) in
    elim (Bool-cases (t == x)) [
      | inl same ↦ ground (arith, str_eq_sym t x)
      | inr same ↦
          let back =
            Within-back xs (without x ys) d.1 (Distinct-without x ys e)
              (Within-without x xs ys d.0 w) (omega (arith, drop)) t
              (ground (arith, member-without t x ys, h, same)) in
          ground (arith, back)
    ]
