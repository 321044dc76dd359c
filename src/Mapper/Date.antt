-- ===== src/Mapper/Date.antt =====
-- `ConvertCoreDataDate` of internal/mapper/mapper.go. A date of Core Data is a `float64`, seconds
-- since 2001: it is modelled by its whole seconds and the rest in nanoseconds, so that dates before
-- 2001 are left out. The text has whole seconds. `rfc3339` stands for Go's `time`: the text of a
-- number of seconds since 1970, in UTC.
use bear_sync.Prelude.{ℕ, ◌+◌, String, Bool, ◌&&◌, Option, none, some, nat_eq}

pub record CoreDate : Type 0 where
  pub seconds : ℕ
  pub nanos : ℕ

abbrev pub core_data_epoch_offset : ℕ
core_data_epoch_offset = 978307200

abbrev pub is_zero : CoreDate → Bool
is_zero d = nat_eq d.seconds 0 && nat_eq d.nanos 0

unfoldable pub convert_core_data_date : (ℕ → String) → Option CoreDate → String
convert_core_data_date rfc3339 none = ""
convert_core_data_date rfc3339 (some d) = rfc3339 (d.seconds + core_data_epoch_offset)
