-- ===== src/BearDb/Tables.antt =====
-- Bear's tables as lists of rows, and the SQL that internal/beardb/sqlite.go runs on them: the WHERE
-- of the deltas, `IN`, and the joins. The tables are Core Data's: `Z_PK` is the key of a row, and
-- `Z_5TAGS` and `Z_5PINNEDINTAGS` pair keys of notes with keys of tags.
use bear_sync.Prelude.{
  ℕ, String, Bool, true, false, not, none, some, Option, List, [], ◌∷◌, ◌++◌, ◌==◌, ltb, leb,
  nat_eq, is_none, map, select_all, any, lookup, if◌then◌else◌,
}
use bear_sync.Store.Scan.Values.{Value, integer, nullable_of, real_of, Row, null_row}
use bear_sync.Mapper.Date.{CoreDate}

pub record BearTables : Type 0 where
  pub zsfnote : List Row
  pub zsfnotetag : List Row
  pub zsfnotefile : List Row
  pub zsfnotebacklink : List Row
  pub z_5tags : List Row
  pub z_5pinnedintags : List Row

-- `ZMODIFICATIONDATE >= ?`, which does not hold of NULL.
abbrev pub is_from : ℕ → Option CoreDate → Bool
is_from t none = false
is_from t (some d) = leb t d.seconds

-- The condition of the deltas: everything if there was no sync.
unfoldable pub modified_since : ℕ → Row → Bool
modified_since last_sync_at row =
    if ltb 0 last_sync_at then is_from last_sync_at (real_of (row "ZMODIFICATIONDATE")) else true

-- A text column `IN (…)`, and `IS NOT NULL`.
abbrev pub is_listed : Option String → List String → Bool
is_listed none uuids = false
is_listed (some u) uuids = any (λ v. v == u) uuids

abbrev pub is_text : Value → Bool
is_text v = not (is_none (nullable_of v))

-- `a = b` of two keys, which does not hold if one is NULL.
abbrev pub is_same_key : Value → Value → Bool
is_same_key (integer a) (integer b) = nat_eq a b
is_same_key _ _ = false

-- The rows that a row with the foreign key `key` is joined with, by JOIN and by LEFT JOIN.
abbrev pub joined_with : Value → List Row → List Row
joined_with key table = select_all (λ row. is_same_key key (row "Z_PK")) table

abbrev pub or_null : List Row → List Row
or_null [] = null_row ∷ []
or_null (row ∷ rows) = row ∷ rows

abbrev pub left_joined_with : Value → List Row → List Row
left_joined_with key table = or_null (joined_with key table)

abbrev pub flat_map {ℓ κ} : {A : Type ℓ} {B : Type κ} → (A → List B) → List A → List B
flat_map f [] = []
flat_map f (x ∷ xs) = f x ++ flat_map f xs

-- A row of a join: the rows by the names that the query gives their tables.
abbrev pub Joined : Type 0
Joined = String → Row

abbrev pub found_row : Option Row → Row
found_row none = null_row
found_row (some row) = row

abbrev pub beside : List (String × Row) → Joined
beside rows name = found_row (lookup name rows)

abbrev pub read_joined : List (String × String) → Joined → List Value
read_joined columns row = map (λ c. row c.0 c.1) columns
