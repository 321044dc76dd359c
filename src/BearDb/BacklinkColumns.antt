-- ===== src/BearDb/BacklinkColumns.antt =====
-- How `Backlinks` of internal/beardb/sqlite.go selects and scans the columns of `ZSFNOTEBACKLINK`.
use bear_sync.Prelude.{String, List, [], ◌∷◌, ◌≡◌, refl}
use bear_sync.Mapper.BearRows.{BearBacklinkRow}
use bear_sync.Store.Scan.Values.{
  Value, integer, nullable, nullable_int, nullable_real, int_of, nullable_of, nullable_int_of,
  real_of, Row, null_row, set_columns, nullable_round, nullable_int_round, nullable_real_round,
}
use bear_sync.BearDb.Tables.{Joined, read_joined, beside}

abbrev pub backlink_columns : List (String × String)
backlink_columns =
    ("b", "Z_PK")
    ∷ ("b", "ZUNIQUEIDENTIFIER")
    ∷ ("nb", "ZUNIQUEIDENTIFIER")
    ∷ ("nt", "ZUNIQUEIDENTIFIER")
    ∷ ("b", "ZTITLE")
    ∷ ("b", "ZLOCATION")
    ∷ ("b", "ZVERSION")
    ∷ ("b", "ZMODIFICATIONDATE")
    ∷ []

-- The fields of the row in the order of `rows.Scan`.
abbrev pub bear_backlink_dest : List String
bear_backlink_dest =
    "ZPK" ∷ "ZUNIQUEIDENTIFIER" ∷ "ZLINKEDBY" ∷ "ZLINKINGTO" ∷ "ZTITLE" ∷ "ZLOCATION" ∷ "ZVERSION"
    ∷ "ZMODIFICATIONDATE" ∷ []

abbrev pub to_bear_backlink : Row → BearBacklinkRow
to_bear_backlink s = record {
  zpk = int_of (s "ZPK");
  zuniqueidentifier = nullable_of (s "ZUNIQUEIDENTIFIER");
  zlinkedby = nullable_of (s "ZLINKEDBY");
  zlinkingto = nullable_of (s "ZLINKINGTO");
  ztitle = nullable_of (s "ZTITLE");
  zlocation = nullable_int_of (s "ZLOCATION");
  zversion = nullable_int_of (s "ZVERSION");
  zmodificationdate = real_of (s "ZMODIFICATIONDATE");
}

unfoldable pub scan_bear_backlink : Joined → BearBacklinkRow
scan_bear_backlink row =
    to_bear_backlink (set_columns bear_backlink_dest (read_joined backlink_columns row) null_row)

-- The row of the table with these columns, which `other` completes.
abbrev pub bear_backlink_columns : List String
bear_backlink_columns =
    "Z_PK" ∷ "ZUNIQUEIDENTIFIER" ∷ "ZTITLE" ∷ "ZLOCATION" ∷ "ZVERSION" ∷ "ZMODIFICATIONDATE" ∷ []

abbrev pub bear_backlink_values : BearBacklinkRow → List Value
bear_backlink_values x =
    integer x.zpk
    ∷ nullable x.zuniqueidentifier
    ∷ nullable x.ztitle
    ∷ nullable_int x.zlocation
    ∷ nullable_int x.zversion
    ∷ nullable_real x.zmodificationdate
    ∷ []

abbrev pub bear_backlink_row : BearBacklinkRow → Row → Row
bear_backlink_row x = set_columns bear_backlink_columns (bear_backlink_values x)

-- x
pub scan_bear_backlink_round :
    (x : BearBacklinkRow) (other : Row) (nb nt : Row)
    → scan_bear_backlink (beside (("b", bear_backlink_row x other) ∷ ("nb", nb) ∷ ("nt", nt) ∷ []))
      ≡ record x {
        zlinkedby = nullable_of (nb "ZUNIQUEIDENTIFIER");
        zlinkingto = nullable_of (nt "ZUNIQUEIDENTIFIER");
      }
unfolding scan_bear_backlink
scan_bear_backlink_round x other nb nt =
    rw
      (
        nullable_round x.zuniqueidentifier,
        nullable_round x.ztitle,
        nullable_int_round x.zlocation,
        nullable_int_round x.zversion,
        nullable_real_round x.zmodificationdate,
      )
      refl
