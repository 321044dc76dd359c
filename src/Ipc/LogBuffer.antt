-- ===== src/Ipc/LogBuffer.antt =====
-- Proofs about the log buffer of internal/ipc/stats.go, against the list of all entries.
use bear_sync.Prelude.{
  ℕ, zero, suc, ◌-◌, ◌≤◌, ◌<◌, List, [], ◌∷◌, ◌++◌, ◌≡◌, refl, sym, ap, ◌∙◌, arith, leb, length,
  if◌then◌else◌, Bool-cases, inl, inr,
}
use mathlib.Core.Path.{subst}
use bear_sync.Ipc.Stats.{
  LogEntry, StatsTracker, new_stats_tracker, drop, push_entry, add_log, last_entries, get_logs,
}

-- The specification: the last `k` elements of a list, all of them where there are fewer.
abbrev pub last : ℕ → List LogEntry → List LogEntry
last k [] = []
last k (x ∷ xs) = if leb (suc (length xs)) k then x ∷ xs else last k xs

abbrev pub min : ℕ → ℕ → ℕ
min a b = if leb a b then a else b

length-snoc : (xs : List LogEntry) (e : LogEntry) → length (xs ++ e ∷ []) ≡ suc (length xs)
length-snoc [] e = refl
length-snoc (x ∷ xs) e = ap suc (length-snoc xs e)

last_all : (k : ℕ) (xs : List LogEntry) → length xs ≤ k → last k xs ≡ xs
last_all k [] h = refl
last_all k (x ∷ xs) h = ground arith

-- One more entry.
push_entry-last :
    (k : ℕ) (xs : List LogEntry) (e : LogEntry)
    → 0 < k
    → push_entry k e (last k xs) ≡ last k (xs ++ e ∷ [])
unfolding push_entry
push_entry-last k [] e pos = ground arith
push_entry-last k (x ∷ xs) e pos =
    ground (arith, length-snoc xs e, last_all k (xs ++ e ∷ []), push_entry-last k xs e pos)

drop_less :
    (a b : ℕ) (x : LogEntry) (xs : List LogEntry)
    → b ≤ a
    → drop (suc a - b) (x ∷ xs) ≡ drop (a - b) xs
drop_less a b x xs h = ap (λ k. drop k (x ∷ xs)) (step a b h)
  where
    step : (a b : ℕ) → b ≤ a → suc a - b ≡ suc (a - b)
    step a b h = omega arith

drop_nil : (k : ℕ) → drop {A = LogEntry} k [] ≡ []
drop_nil zero = refl
drop_nil (suc k) = refl

drop-length : (n : ℕ) (xs : List LogEntry) → drop (length xs - n) xs ≡ last n xs
drop-length n [] = drop_nil (0 - n)
drop-length n (x ∷ xs) = elim (Bool-cases (leb (suc (length xs)) n)) [
  | inl e ↦ rw e (ap (λ k. drop k (x ∷ xs)) (none_left n (length xs) (ground arith)))
  | inr e ↦ rw e (drop_less (length xs) n x xs (ground arith) ∙ drop-length n xs)
]
  where
    none_left : (n len : ℕ) → suc len ≤ n → suc len - n ≡ 0
    none_left n len h = omega arith

last_zero : (xs : List LogEntry) → last 0 xs ≡ []
last_zero [] = refl
last_zero (x ∷ xs) = ground (arith, last_zero xs)

drop_zero : (n : ℕ) (xs : List LogEntry) → n ≡ 0 → drop n xs ≡ xs
drop_zero n xs h = rw h

last_entries-eq : (n : ℕ) (xs : List LogEntry) → last_entries n xs ≡ last n xs
unfolding last_entries
last_entries-eq n xs =
    ground
      (arith, last_zero xs, last_all n xs, drop-length n xs, drop_zero (length xs - length xs) xs)

last-last : (n k : ℕ) (xs : List LogEntry) → last n (last k xs) ≡ last (min n k) xs
last-last n k [] = refl
last-last n k (x ∷ xs) = ground (arith, last-last n k xs)

-- All entries that were logged, in order.
abbrev pub add_logs : List LogEntry → StatsTracker → StatsTracker
add_logs [] st = st
add_logs (e ∷ es) st = add_logs es (add_log e st)

append_nil : (xs : List LogEntry) → xs ++ [] ≡ xs
append_nil [] = refl
append_nil (x ∷ xs) = ap (λ ys. x ∷ ys) (append_nil xs)

append_cons :
    (xs : List LogEntry) (e : LogEntry) (es : List LogEntry) → xs ++ e ∷ es ≡ (xs ++ e ∷ []) ++ es
append_cons [] e es = refl
append_cons (x ∷ xs) e es = ap (λ ys. x ∷ ys) (append_cons xs e es)

-- The buffer of a tracker of the size `k` after the entries `xs`.
record IsEnd (k : ℕ) (xs : List LogEntry) (st : StatsTracker) : Type 0 where
  size : st.log_size ≡ k
  buffer : st.log_buf ≡ last k xs

IsEnd-add_logs :
    (k : ℕ) (es xs : List LogEntry) (st : StatsTracker)
    → 0 < k
    → IsEnd k xs st
    → IsEnd k (xs ++ es) (add_logs es st)
unfolding add_log
IsEnd-add_logs k [] xs st pos h = record {
  size = h.size;
  buffer = h.buffer ∙ ap (last k) (sym (append_nil xs));
}
IsEnd-add_logs k (e ∷ es) xs st pos h =
    subst (λ ys. IsEnd k ys (add_logs (e ∷ es) st)) (sym (append_cons xs e es))
      (IsEnd-add_logs k es (xs ++ e ∷ []) (add_log e st) pos
        (record { size = h.size; buffer = rw (h.size, h.buffer) (push_entry-last k xs e pos) }))

-- The size that a new tracker has.
abbrev pub buffer_size : ℕ → ℕ
buffer_size size = (new_stats_tracker size).log_size

buffer_size_pos : (size : ℕ) → 0 < buffer_size size
unfolding new_stats_tracker
buffer_size_pos size = ground arith

new-IsEnd : (size : ℕ) → IsEnd (buffer_size size) [] (new_stats_tracker size)
unfolding new_stats_tracker
new-IsEnd size = record { size = refl; buffer = refl }

-- A client that asks for n log entries gets the last ones of all that were logged, in order: n of
-- them, or as many as the buffer holds, or all.
pub get_logs-add_logs :
    (size n : ℕ) (es : List LogEntry)
    → get_logs n (add_logs es (new_stats_tracker size)) ≡ last (min n (buffer_size size)) es
unfolding get_logs
get_logs-add_logs size n es =
    let k = buffer_size size in
    let fresh = new_stats_tracker size in
    let ends = IsEnd-add_logs k es [] fresh (buffer_size_pos size) (new-IsEnd size) in
    last_entries-eq n (add_logs es fresh).log_buf ∙ ap (last n) ends.buffer ∙ last-last n k es
