-- ===== src/BearDb/TagColumns.antt =====
-- How `Tags` of internal/beardb/sqlite.go selects and scans the columns of `ZSFNOTETAG`.
use bear_sync.Prelude.{String, List, [], ◌∷◌, ◌≡◌, refl}
use bear_sync.Mapper.BearRows.{BearTagRow}
use bear_sync.Store.Scan.Values.{
  Value, integer, nullable, nullable_int, nullable_real, int_of, nullable_of, nullable_int_of,
  real_of, Row, null_row, set_columns, read_columns, nullable_round, nullable_int_round,
  nullable_real_round,
}

abbrev pub tag_columns : List String
tag_columns =
    "Z_PK" ∷ "ZUNIQUEIDENTIFIER" ∷ "ZTITLE" ∷ "ZPINNED" ∷ "ZISROOT" ∷ "ZHIDESUBTAGSNOTES"
    ∷ "ZSORTING" ∷ "ZSORTINGDIRECTION" ∷ "ZENCRYPTED" ∷ "ZVERSION" ∷ "ZMODIFICATIONDATE"
    ∷ "ZPINNEDDATE" ∷ "ZPINNEDNOTESDATE" ∷ "ZENCRYPTEDDATE" ∷ "ZHIDESUBTAGSNOTESDATE"
    ∷ "ZSORTINGDATE" ∷ "ZSORTINGDIRECTIONDATE" ∷ "ZTAGCONDATE" ∷ "ZTAGCON" ∷ []

-- The fields of the row in the order of `rows.Scan`.
abbrev pub bear_tag_dest : List String
bear_tag_dest =
    "ZPK" ∷ "ZUNIQUEIDENTIFIER" ∷ "ZTITLE" ∷ "ZPINNED" ∷ "ZISROOT" ∷ "ZHIDESUBTAGSNOTES"
    ∷ "ZSORTING" ∷ "ZSORTINGDIRECTION" ∷ "ZENCRYPTED" ∷ "ZVERSION" ∷ "ZMODIFICATIONDATE"
    ∷ "ZPINNEDDATE" ∷ "ZPINNEDNOTESDATE" ∷ "ZENCRYPTEDDATE" ∷ "ZHIDESUBTAGSNOTESDATE"
    ∷ "ZSORTINGDATE" ∷ "ZSORTINGDIRECTIONDATE" ∷ "ZTAGCONDATE" ∷ "ZTAGCON" ∷ []

abbrev pub to_bear_tag : Row → BearTagRow
to_bear_tag s = record {
  zpk = int_of (s "ZPK");
  zuniqueidentifier = nullable_of (s "ZUNIQUEIDENTIFIER");
  ztitle = nullable_of (s "ZTITLE");
  zpinned = nullable_int_of (s "ZPINNED");
  zisroot = nullable_int_of (s "ZISROOT");
  zhidesubtagsnotes = nullable_int_of (s "ZHIDESUBTAGSNOTES");
  zsorting = nullable_int_of (s "ZSORTING");
  zsortingdirection = nullable_int_of (s "ZSORTINGDIRECTION");
  zencrypted = nullable_int_of (s "ZENCRYPTED");
  zversion = nullable_int_of (s "ZVERSION");
  zmodificationdate = real_of (s "ZMODIFICATIONDATE");
  zpinneddate = real_of (s "ZPINNEDDATE");
  zpinnednotesdate = real_of (s "ZPINNEDNOTESDATE");
  zencrypteddate = real_of (s "ZENCRYPTEDDATE");
  zhidesubtagsnotesdate = real_of (s "ZHIDESUBTAGSNOTESDATE");
  zsortingdate = real_of (s "ZSORTINGDATE");
  zsortingdirectiondate = real_of (s "ZSORTINGDIRECTIONDATE");
  ztagcondate = real_of (s "ZTAGCONDATE");
  ztagcon = nullable_of (s "ZTAGCON");
}

unfoldable pub scan_bear_tag : Row → BearTagRow
scan_bear_tag row = to_bear_tag (set_columns bear_tag_dest (read_columns tag_columns row) null_row)

-- The row of the table with these columns.
abbrev pub bear_tag_columns : List String
bear_tag_columns =
    "Z_PK" ∷ "ZUNIQUEIDENTIFIER" ∷ "ZTITLE" ∷ "ZPINNED" ∷ "ZISROOT" ∷ "ZHIDESUBTAGSNOTES"
    ∷ "ZSORTING" ∷ "ZSORTINGDIRECTION" ∷ "ZENCRYPTED" ∷ "ZVERSION" ∷ "ZMODIFICATIONDATE"
    ∷ "ZPINNEDDATE" ∷ "ZPINNEDNOTESDATE" ∷ "ZENCRYPTEDDATE" ∷ "ZHIDESUBTAGSNOTESDATE"
    ∷ "ZSORTINGDATE" ∷ "ZSORTINGDIRECTIONDATE" ∷ "ZTAGCONDATE" ∷ "ZTAGCON" ∷ []

abbrev pub bear_tag_values : BearTagRow → List Value
bear_tag_values x =
    integer x.zpk
    ∷ nullable x.zuniqueidentifier
    ∷ nullable x.ztitle
    ∷ nullable_int x.zpinned
    ∷ nullable_int x.zisroot
    ∷ nullable_int x.zhidesubtagsnotes
    ∷ nullable_int x.zsorting
    ∷ nullable_int x.zsortingdirection
    ∷ nullable_int x.zencrypted
    ∷ nullable_int x.zversion
    ∷ nullable_real x.zmodificationdate
    ∷ nullable_real x.zpinneddate
    ∷ nullable_real x.zpinnednotesdate
    ∷ nullable_real x.zencrypteddate
    ∷ nullable_real x.zhidesubtagsnotesdate
    ∷ nullable_real x.zsortingdate
    ∷ nullable_real x.zsortingdirectiondate
    ∷ nullable_real x.ztagcondate
    ∷ nullable x.ztagcon
    ∷ []

abbrev pub bear_tag_row : BearTagRow → Row → Row
bear_tag_row x = set_columns bear_tag_columns (bear_tag_values x)

-- x
pub scan_bear_tag_round : (x : BearTagRow) (other : Row) → scan_bear_tag (bear_tag_row x other) ≡ x
unfolding scan_bear_tag
scan_bear_tag_round x other =
    rw
      (
        nullable_round x.zuniqueidentifier,
        nullable_round x.ztitle,
        nullable_int_round x.zpinned,
        nullable_int_round x.zisroot,
        nullable_int_round x.zhidesubtagsnotes,
        nullable_int_round x.zsorting,
        nullable_int_round x.zsortingdirection,
        nullable_int_round x.zencrypted,
        nullable_int_round x.zversion,
        nullable_real_round x.zmodificationdate,
        nullable_real_round x.zpinneddate,
        nullable_real_round x.zpinnednotesdate,
        nullable_real_round x.zencrypteddate,
        nullable_real_round x.zhidesubtagsnotesdate,
        nullable_real_round x.zsortingdate,
        nullable_real_round x.zsortingdirectiondate,
        nullable_real_round x.ztagcondate,
        nullable_round x.ztagcon,
      )
      refl
