-- ===== src/Bridge/Batches.antt =====
-- Proofs about the batches of `pushNotesBatched` in cmd/bridge/sync.go.
use bear_sync.Prelude.{
  ℕ, zero, suc, ◌+◌, ◌-◌, ◌≤◌, ◌<◌, List, ◌++◌, ◌≡◌, sym, ap, ◌∙◌, inl, inr, arith, ltb, drop,
  take-append-drop, drop-drop, drop_past, length-drop, length-take, length, concat, All, Bool-cases,
}
use bear_sync.Bridge.Initial.{initial_sync_batch_size, slice, batch_end, batches_from, batches}

module _ {ℓ} {A : Type ℓ} where
  length-slice : (i e : ℕ) (xs : List A) → e ≤ length xs → length (slice i e xs) ≡ e - i
  length-slice i e xs le = length-take (e - i) (drop i xs) (omega (arith, le, length-drop i xs))

  slice-append-drop : (i e : ℕ) (xs : List A) → i ≤ e → slice i e xs ++ drop e xs ≡ drop i xs
  slice-append-drop i e xs le =
      ap (λ ys. slice i e xs ++ ys)
        (ap (λ k. drop k xs) {x = e} {y = (e - i) + i} (omega (arith, le))
          ∙ sym (drop-drop (e - i) i xs))
      ∙ take-append-drop (e - i) (drop i xs)

  -- The batch that starts at `i`, where rows are left, and the rows from the next index on.
  batch_first :
      (i : ℕ) (rows : List A)
      → i < length rows
      → (slice i (batch_end i (length rows)) rows ++ drop (i + initial_sync_batch_size) rows
          ≡ drop i rows)
        × (1 ≤ length (slice i (batch_end i (length rows)) rows))
        × (length (slice i (batch_end i (length rows)) rows) ≤ initial_sync_batch_size)
  batch_first i rows lt = elim (Bool-cases (ltb (length rows) (i + initial_sync_batch_size))) [
    | inl e ↦
        let over : length rows < i + initial_sync_batch_size = ground (arith, e) in
        let size = length-slice i (length rows) rows (omega arith) in
        rw e (
          ap (λ ys. slice i (length rows) rows ++ ys)
                (drop_past (i + initial_sync_batch_size) rows (omega (arith, over))
                  ∙ sym (drop_past (length rows) rows (omega arith)))
              ∙ slice-append-drop i (length rows) rows (omega (arith, lt)),
          omega (arith, size, lt),
          omega (arith, size, over),
        )
    | inr e ↦
        let under : i + initial_sync_batch_size ≤ length rows = ground (arith, e) in
        let size = length-slice i (i + initial_sync_batch_size) rows under in
        rw e (
          slice-append-drop i (i + initial_sync_batch_size) rows (omega arith),
          omega (arith, size),
          omega (arith, size),
        )
  ]

  abbrev pub IsBatch : List A → Type 0
  IsBatch b = (1 ≤ length b) × (length b ≤ initial_sync_batch_size)

  batches_from_cover :
      (fuel i : ℕ) (rows : List A)
      → length rows ≤ fuel + i
      → (concat (batches_from fuel i rows) ≡ drop i rows) × All IsBatch (batches_from fuel i rows)
  unfolding batches_from
  batches_from_cover zero i rows le = (sym (drop_past i rows (omega (arith, le))), tt)
  batches_from_cover (suc fuel) i rows le = elim (Bool-cases (ltb i (length rows))) [
    | inl e ↦
        let (joins, low, high) = batch_first i rows (ground (arith, e)) in
        let (more, sizes) =
          batches_from_cover fuel (i + initial_sync_batch_size) rows (omega (arith, le)) in
        rw (e, batches_from)
          (
            ap (λ ys. slice i (batch_end i (length rows)) rows ++ ys) more ∙ joins,
            ((low, high), sizes),
          )
    | inr e ↦ rw (e, batches_from) (sym (drop_past i rows (ground (arith, e))), tt)
  ]

  -- The batches of an initial sync, on fuel of one turn per row, are together the rows in their
  -- order, and each has at least one row and at most fifty.
  pub batches_cover : (rows : List A) → (concat (batches rows) ≡ rows) × All IsBatch (batches rows)
  unfolding batches
  batches_cover rows = batches_from_cover (length rows) 0 rows (omega arith)
