-- ===== src/Prelude/RowLaws.antt =====
-- Laws of the statements of `Rows`.
use bear_sync.Prelude.Rows.{select, select_all, update, any, length, take, All, lookup, put}
use bear_sync.Prelude.Tests.{if◌then◌else◌, Bool-cases}
use Prim.Native.Nat.{ℕ, zero, suc, ◌≤◌}
use mathlib.Core.Path.{◌≡◌, refl, subst}
use mathlib.Core.Logic.{inl, inr}
use mathlib.Core.Bool.{Bool, true, false}
use mathlib.Core.Option.{none, some}
use mathlib.Core.List.{List, [], ◌∷◌, ◌++◌, map}
use Prim.Native.String.{String}
use text.Mathlib.Text.{◌==◌}
use text.Mathlib.TextEquality.{eq_iff}
use native.Mathlib.Omega.{arith}

module _ {ℓ} {A : Type ℓ} where
  pub select_sound : (p : A → Bool) (xs : List A) {x : A} → select p xs ≡ some x → p x ≡ true
  select_sound p [] h = cc
  select_sound p (y ∷ ys) {x} h = ground (arith, select_sound p ys {x = x})

  pub select-eq :
      (p : A → Bool) (y : A) (ys : List A) {x : A} → p y ≡ true → select p (y ∷ ys) ≡ some x → y ≡ x
  select-eq p y ys m h = ground arith

  -- A row that no row before it matched is found at the end.
  pub select-append :
      (p : A → Bool) (xs : List A) (x : A)
      → select p xs ≡ none
      → p x ≡ true
      → select p (xs ++ x ∷ []) ≡ some x
  select-append p [] x h m = ground arith
  select-append p (y ∷ ys) x h m = ground (arith, select-append p ys x)

  pub any_of_select : (p : A → Bool) (xs : List A) → select p xs ≡ none → any p xs ≡ false
  any_of_select p [] h = refl
  any_of_select p (y ∷ ys) h = ground (arith, any_of_select p ys)

  pub select-none_of_imp :
      (p q : A → Bool) (xs : List A)
      → ((x : A) → q x ≡ true → p x ≡ true)
      → select p xs ≡ none
      → select q xs ≡ none
  select-none_of_imp p q [] imp h = refl
  select-none_of_imp p q (y ∷ ys) imp h = ground (arith, imp y, select-none_of_imp p q ys imp)

  pub length-take-le : (n : ℕ) (xs : List A) → length (take n xs) ≤ n
  length-take-le zero xs = omega arith
  length-take-le (suc n) [] = omega arith
  length-take-le (suc n) (x ∷ xs) = omega (arith, length-take-le n xs)

module _ {ℓ κ} {A : Type ℓ} (P : A → Type κ) where
  pub All-update :
      (p : A → Bool) (f : A → A) (xs : List A)
      → ((x : A) → p x ≡ true → P x → P (f x))
      → All P xs
      → All P (update p f xs)
  All-update p f [] keep h = h
  All-update p f (x ∷ xs) keep h = elim (Bool-cases (p x)) [
    | inl e ↦ rw e (keep x e h.0, All-update p f xs keep h.1)
    | inr e ↦ rw e (h.0, All-update p f xs keep h.1)
  ]

  pub All-append : (xs ys : List A) → All P xs → All P ys → All P (xs ++ ys)
  All-append [] ys h k = k
  All-append (x ∷ xs) ys h k = (h.0, All-append xs ys h.1 k)

  pub All_of_select : (p : A → Bool) (xs : List A) {x : A} → All P xs → select p xs ≡ some x → P x
  All_of_select p [] h e = cc
  All_of_select p (y ∷ ys) {x} h e = elim (Bool-cases (p y)) [
    | inl m ↦ subst P (select-eq p y ys m e) h.0
    | inr m ↦ All_of_select p ys {x = x} h.1 (rw m at e)
  ]

module _ {ℓ κ} {A : Type ℓ} (Q : A → Type κ) where
  pub All-update_each :
      (p : A → Bool) (f : A → A) (xs : List A)
      → ((x : A) → p x ≡ true → Q (f x))
      → ((x : A) → p x ≡ false → Q x)
      → All Q (update p f xs)
  All-update_each p f [] on off = tt
  All-update_each p f (x ∷ xs) on off = elim (Bool-cases (p x)) [
    | inl e ↦ rw e (on x e, All-update_each p f xs on off)
    | inr e ↦ rw e (off x e, All-update_each p f xs on off)
  ]

  pub All-take : (n : ℕ) (xs : List A) → All Q xs → All Q (take n xs)
  All-take zero xs h = tt
  All-take (suc n) [] h = tt
  All-take (suc n) (x ∷ xs) h = (h.0, All-take n xs h.1)

  pub All-select_all :
      (p : A → Bool) (xs : List A) → All (λ x. p x ≡ true → Q x) xs → All Q (select_all p xs)
  All-select_all p [] h = tt
  All-select_all p (x ∷ xs) h = elim (Bool-cases (p x)) [
    | inl e ↦ rw e (h.0 e, All-select_all p xs h.1)
    | inr e ↦ rw e (All-select_all p xs h.1)
  ]

pub All-map {ℓ κ ι} :
    {A : Type ℓ} {B : Type κ} (Q : B → Type ι) (f : A → B) (xs : List A)
    → All (λ x. Q (f x)) xs
    → All Q (map f xs)
All-map Q f [] h = tt
All-map Q f (x ∷ xs) h = (h.0, All-map Q f xs h.1)

pub All-imp {ℓ κ ι} :
    {A : Type ℓ} (P : A → Type κ) (Q : A → Type ι) (xs : List A)
    → ((x : A) → P x → Q x)
    → All P xs
    → All Q xs
All-imp P Q [] imp h = tt
All-imp P Q (x ∷ xs) imp h = (imp x h.0, All-imp P Q xs imp h.1)

pub any-map {ℓ κ} :
    {A : Type ℓ} {B : Type κ} (p : B → Bool) (f : A → B) (xs : List A)
    → any p (map f xs) ≡ any (λ x. p (f x)) xs
any-map p f [] = refl
any-map p f (x ∷ xs) = rw (any-map p f xs)

pub map-take {ℓ κ} :
    {A : Type ℓ} {B : Type κ} (f : A → B) (n : ℕ) (xs : List A)
    → map f (take n xs) ≡ take n (map f xs)
map-take f zero xs = refl
map-take f (suc n) [] = refl
map-take f (suc n) (x ∷ xs) = rw (map-take f n xs)

pub length-map {ℓ κ} :
    {A : Type ℓ} {B : Type κ} (f : A → B) (xs : List A) → length (map f xs) ≡ length xs
length-map f [] = refl
length-map f (x ∷ xs) = rw (length-map f xs)

-- No row matches after an UPDATE, if no updated row does.
pub select-update-none {ℓ} :
    {A : Type ℓ} (p g : A → Bool) (f : A → A) (xs : List A)
    → All (λ x. p (if g x then f x else x) ≡ false) xs
    → select p (update g f xs) ≡ none
select-update-none p g f [] h = refl
select-update-none p g f (x ∷ xs) h = rw h.0 (select-update-none p g f xs h.1)

pub select_of_any {ℓ} :
    {A : Type ℓ} (p q : A → Bool) (xs : List A)
    → ((x : A) → p x ≡ true → q x ≡ true)
    → any q xs ≡ false
    → select p xs ≡ none
select_of_any p q [] imp h = refl
select_of_any p q (x ∷ xs) imp h = ground (arith, imp x, select_of_any p q xs imp)

-- A map after `m[j] = v`.
pub lookup-put {ℓ} :
    {V : Type ℓ} (j k : String) (v : V) (m : List (String × V))
    → lookup k (put j v m) ≡ (if j == k then some v else lookup k m)
lookup-put j k v [] = refl
lookup-put j k v ((i, w) ∷ m) = elim (Bool-cases (i == j)) [
  | inl e ↦ grind (arith, (eq_iff i j).0 e)
  | inr e ↦ elim (Bool-cases (i == k)) [
    | inl t ↦ grind (arith, lookup-put j k v m, (eq_iff i k).0 t, (eq_iff j k).0)
    | inr t ↦ ground (arith, lookup-put j k v m)
  ]
]
