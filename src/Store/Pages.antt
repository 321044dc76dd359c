-- ===== src/Store/Pages.antt =====
-- Proofs about the pages of `ListNotes` of internal/store/sqlite.go.
use bear_sync.Prelude.{
  ℕ, zero, suc, ◌+◌, ◌≤◌, Bool, false, ◌&&◌, List, [], ◌∷◌, ◌++◌, ◌≡◌, refl, sym, ap, ◌∙◌, arith,
  nat_eq, map, select_all, count_where, take, drop, length, concat, take-append-drop, drop-drop,
  length-drop,
}
use mathlib.Core.Path.{subst}
use bear_sync.Models.Note.{Note}
use bear_sync.Models.Views.{FullNote}
use bear_sync.Store.Db.{Db}
use bear_sync.Store.Reads.{
  SortColumn, Order, Sqlite, NoteFilter, is_listed_note, with_lists, listing, list_notes,
}

-- ORDER BY returns the rows that it is given, each as often as it was there.
abbrev pub KeepsRows : Sqlite → Type 0
KeepsRows sql =
    (c : SortColumn) (o : Order) (p : Note → Bool) (xs : List Note)
    → count_where p (sql.ordered c o xs) ≡ count_where p xs

pub count-select_all {ℓ} :
    {A : Type ℓ} (p q : A → Bool) (xs : List A)
    → count_where p (select_all q xs) ≡ count_where (λ x. q x && p x) xs
count-select_all p q [] = refl
count-select_all p q (x ∷ xs) = ground (arith, count-select_all p q xs)

count-map {ℓ κ} :
    {A : Type ℓ} {B : Type κ} (f : A → B) (p : B → Bool) (xs : List A)
    → count_where p (map f xs) ≡ count_where (λ x. p (f x)) xs
count-map f p [] = refl
count-map f p (x ∷ xs) = ground (arith, count-map f p xs)

map-append {ℓ κ} :
    {A : Type ℓ} {B : Type κ} (f : A → B) (xs ys : List A) → map f (xs ++ ys) ≡ map f xs ++ map f ys
map-append f [] ys = refl
map-append f (x ∷ xs) ys = ap (λ zs. f x ∷ zs) (map-append f xs ys)

no_rows {ℓ} : {A : Type ℓ} (xs : List A) → length xs ≤ 0 → xs ≡ []
no_rows [] le = refl
no_rows (x ∷ xs) le = ground arith

module _ (sql : Sqlite) (db : Db) (f : NoteFilter) (size : ℕ) where
  -- The first `k` pages of this size, from an offset on.
  abbrev pub pages_from : ℕ → ℕ → List (List FullNote)
  pages_from zero from = []
  pages_from (suc k) from =
      list_notes sql db (record f { limit = size; offset = from }) ∷ pages_from k (from + size)

  page :
      (from : ℕ)
      → nat_eq size 0 ≡ false
      → list_notes sql db (record f { limit = size; offset = from })
        ≡ map (with_lists sql db) (take size (drop from (listing sql db f)))
  unfolding list_notes listing
  page from e = rw (e, list_notes, listing) refl

  pages_rest :
      (k from : ℕ)
      → nat_eq size 0 ≡ false
      → length (drop from (listing sql db f)) ≤ k
      → concat (pages_from k from) ≡ map (with_lists sql db) (drop from (listing sql db f))
  pages_rest zero from e le =
      ap (map (with_lists sql db)) (sym (no_rows (drop from (listing sql db f)) le))
  pages_rest (suc k) from e le =
      let rest = drop from (listing sql db f) in
      let next =
        drop-drop size from (listing sql db f)
        ∙ ap (λ i. drop i (listing sql db f)) {x = size + from} {y = from + size} (omega arith) in
      let fewer : length (drop (from + size) (listing sql db f)) ≤ k =
        subst (λ ys. length ys ≤ k) next (ground (arith, length-drop size rest)) in
      ap (λ xs. xs ++ concat (pages_from k (from + size))) (page from e)
      ∙ ap (λ ys. map (with_lists sql db) (take size rest) ++ ys)
          (pages_rest k (from + size) e fewer ∙ ap (map (with_lists sql db)) (sym next))
      ∙ sym (map-append (with_lists sql db) (take size rest) (drop size rest))
      ∙ ap (map (with_lists sql db)) (take-append-drop size rest)

-- If ORDER BY gives its rows back, always in the same order, pages of one size that is not 0, as
-- many as the listing has notes or more, are together the listing in its order, and hold each
-- note as often as the table has it and the filter lets it pass.
pub pages_cover :
    (sql : Sqlite) (db : Db) (f : NoteFilter) (size k : ℕ)
    → KeepsRows sql
    → nat_eq size 0 ≡ false
    → length (listing sql db f) ≤ k
    → let pages = concat (pages_from sql db f size k 0) in
      (pages ≡ map (with_lists sql db) (listing sql db f))
      × ((p : Note → Bool)
          → count_where (λ n. p n.note) pages
            ≡ count_where (λ n. is_listed_note db f n && p n) db.notes)
unfolding listing with_lists
pages_cover sql db f size k keeps e le =
    let all = pages_rest sql db f size k 0 e le in
    (
      all,
      λ p.
          ap (count_where (λ n. p n.note)) all
          ∙ count-map (with_lists sql db) (λ n. p n.note) (listing sql db f)
          ∙ keeps _ _ p (select_all (is_listed_note db f) db.notes)
          ∙ count-select_all p (is_listed_note db f) db.notes,
    )
