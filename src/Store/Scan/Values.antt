-- ===== src/Store/Scan/Values.antt =====
-- Rows as internal/store/scan.go writes and reads them: `database/sql` between Go's values and
-- SQLite's. A row gives each column its value, and a scanner each field what it scanned, NULL where
-- nothing is set. A column that holds a value of another type than its field, which the program
-- never writes, reads as NULL.
use bear_sync.Prelude.{
  ℕ, String, Option, none, some, List, [], ◌∷◌, ◌==◌, ◌≡◌, refl, map, if◌then◌else◌,
}
use bear_sync.Mapper.Date.{CoreDate}
use bear_sync.Models.Note.{SyncStatus, synced, pending_to_bear, conflict, other}

pub data Value : Type 0 where
  null : Value
  integer : ℕ → Value
  real : CoreDate → Value
  text : String → Value
  blob : List ℕ → Value

-- `*string`, where nil is NULL.
abbrev pub nullable : Option String → Value
nullable none = null
nullable (some s) = text s

-- `sql.NullString` and `sql.NullInt64` with their zero values for NULL, and `[]byte`.
abbrev pub string_of : Value → String
string_of (text s) = s
string_of _ = ""

abbrev pub int_of : Value → ℕ
int_of (integer i) = i
int_of _ = 0

abbrev pub bytes_of : Value → List ℕ
bytes_of (blob b) = b
bytes_of _ = []

-- `Valid` and `String` of a `sql.NullString` as a `*string`.
abbrev pub nullable_of : Value → Option String
nullable_of (text s) = some s
nullable_of _ = none

-- `*int64` and `*float64`, which only Bear's tables have.
abbrev pub nullable_int : Option ℕ → Value
nullable_int none = null
nullable_int (some i) = integer i

abbrev pub nullable_real : Option CoreDate → Value
nullable_real none = null
nullable_real (some d) = real d

abbrev pub nullable_int_of : Value → Option ℕ
nullable_int_of (integer i) = some i
nullable_int_of _ = none

abbrev pub real_of : Value → Option CoreDate
real_of (real d) = some d
real_of (integer i) = some (record { seconds = i; nanos = 0 })
real_of _ = none

abbrev pub status_value : SyncStatus → Value
status_value synced = text "synced"
status_value pending_to_bear = text "pending_to_bear"
status_value conflict = text "conflict"
status_value (other s) = text s

abbrev pub status_of : Value → SyncStatus
status_of v =
    let s = string_of v in
    if s == "synced"
    then synced
    else if s == "pending_to_bear"
    then pending_to_bear
    else if s == "conflict"
    then conflict
    else other s

abbrev pub Row : Type 0
Row = String → Value

abbrev pub null_row : Row
null_row c = null

-- The values of the columns in their order, over a row.
abbrev pub set_columns : List String → List Value → Row → Row
set_columns (c ∷ columns) (v ∷ values) row d =
    if c == d then v else set_columns columns values row d
set_columns _ _ row d = row d

abbrev pub read_columns : List String → Row → List Value
read_columns columns row = map row columns

-- `vals[1:]`: the UPDATE takes the id last, for its WHERE.
abbrev pub without_first : List Value → List Value
without_first [] = []
without_first (v ∷ values) = values

pub nullable_round : (o : Option String) → nullable_of (nullable o) ≡ o
nullable_round none = refl
nullable_round (some s) = refl

pub nullable_int_round : (o : Option ℕ) → nullable_int_of (nullable_int o) ≡ o
nullable_int_round none = refl
nullable_int_round (some i) = refl

pub nullable_real_round : (o : Option CoreDate) → real_of (nullable_real o) ≡ o
nullable_real_round none = refl
nullable_real_round (some d) = refl
