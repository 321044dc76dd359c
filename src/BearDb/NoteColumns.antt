-- ===== src/BearDb/NoteColumns.antt =====
-- How `Notes` of internal/beardb/sqlite.go selects and scans the columns of `ZSFNOTE`.
use bear_sync.Prelude.{String, List, [], ◌∷◌, ◌≡◌, refl}
use bear_sync.Mapper.BearRows.{BearNoteRow}
use bear_sync.Store.Scan.Values.{
  Value, integer, blob, nullable, nullable_int, nullable_real, int_of, nullable_of, nullable_int_of,
  real_of, bytes_of, Row, null_row, set_columns, read_columns, nullable_round, nullable_int_round,
  nullable_real_round,
}

abbrev pub note_columns : List String
note_columns =
    "Z_PK" ∷ "ZUNIQUEIDENTIFIER" ∷ "ZTITLE" ∷ "ZSUBTITLE" ∷ "ZTEXT" ∷ "ZARCHIVED" ∷ "ZENCRYPTED"
    ∷ "ZHASFILES" ∷ "ZHASIMAGES" ∷ "ZHASSOURCECODE" ∷ "ZLOCKED" ∷ "ZPINNED" ∷ "ZSHOWNINTODAYWIDGET"
    ∷ "ZTRASHED" ∷ "ZPERMANENTLYDELETED" ∷ "ZSKIPSYNC" ∷ "ZTODOCOMPLETED" ∷ "ZTODOINCOMPLETED"
    ∷ "ZVERSION" ∷ "ZCREATIONDATE" ∷ "ZMODIFICATIONDATE" ∷ "ZARCHIVEDDATE" ∷ "ZENCRYPTIONDATE"
    ∷ "ZLOCKEDDATE" ∷ "ZPINNEDDATE" ∷ "ZTRASHEDDATE" ∷ "ZORDERDATE"
    ∷ "ZCONFLICTUNIQUEIDENTIFIERDATE" ∷ "ZLASTEDITINGDEVICE" ∷ "ZCONFLICTUNIQUEIDENTIFIER"
    ∷ "ZENCRYPTIONUNIQUEIDENTIFIER" ∷ "ZENCRYPTEDDATA" ∷ []

-- The fields of the row in the order of `rows.Scan`.
abbrev pub bear_note_dest : List String
bear_note_dest =
    "ZPK" ∷ "ZUNIQUEIDENTIFIER" ∷ "ZTITLE" ∷ "ZSUBTITLE" ∷ "ZTEXT" ∷ "ZARCHIVED" ∷ "ZENCRYPTED"
    ∷ "ZHASFILES" ∷ "ZHASIMAGES" ∷ "ZHASSOURCECODE" ∷ "ZLOCKED" ∷ "ZPINNED" ∷ "ZSHOWNINTODAYWIDGET"
    ∷ "ZTRASHED" ∷ "ZPERMANENTLYDELETED" ∷ "ZSKIPSYNC" ∷ "ZTODOCOMPLETED" ∷ "ZTODOINCOMPLETED"
    ∷ "ZVERSION" ∷ "ZCREATIONDATE" ∷ "ZMODIFICATIONDATE" ∷ "ZARCHIVEDDATE" ∷ "ZENCRYPTIONDATE"
    ∷ "ZLOCKEDDATE" ∷ "ZPINNEDDATE" ∷ "ZTRASHEDDATE" ∷ "ZORDERDATE"
    ∷ "ZCONFLICTUNIQUEIDENTIFIERDATE" ∷ "ZLASTEDITINGDEVICE" ∷ "ZCONFLICTUNIQUEIDENTIFIER"
    ∷ "ZENCRYPTIONUNIQUEIDENTIFIER" ∷ "ZENCRYPTEDDATA" ∷ []

abbrev pub to_bear_note : Row → BearNoteRow
to_bear_note s = record {
  zpk = int_of (s "ZPK");
  zuniqueidentifier = nullable_of (s "ZUNIQUEIDENTIFIER");
  ztitle = nullable_of (s "ZTITLE");
  zsubtitle = nullable_of (s "ZSUBTITLE");
  ztext = nullable_of (s "ZTEXT");
  zarchived = nullable_int_of (s "ZARCHIVED");
  zencrypted = nullable_int_of (s "ZENCRYPTED");
  zhasfiles = nullable_int_of (s "ZHASFILES");
  zhasimages = nullable_int_of (s "ZHASIMAGES");
  zhassourcecode = nullable_int_of (s "ZHASSOURCECODE");
  zlocked = nullable_int_of (s "ZLOCKED");
  zpinned = nullable_int_of (s "ZPINNED");
  zshownintodaywidget = nullable_int_of (s "ZSHOWNINTODAYWIDGET");
  ztrashed = nullable_int_of (s "ZTRASHED");
  zpermanentlydeleted = nullable_int_of (s "ZPERMANENTLYDELETED");
  zskipsync = nullable_int_of (s "ZSKIPSYNC");
  ztodocompleted = nullable_int_of (s "ZTODOCOMPLETED");
  ztodoincompleted = nullable_int_of (s "ZTODOINCOMPLETED");
  zversion = nullable_int_of (s "ZVERSION");
  zcreationdate = real_of (s "ZCREATIONDATE");
  zmodificationdate = real_of (s "ZMODIFICATIONDATE");
  zarchiveddate = real_of (s "ZARCHIVEDDATE");
  zencryptiondate = real_of (s "ZENCRYPTIONDATE");
  zlockeddate = real_of (s "ZLOCKEDDATE");
  zpinneddate = real_of (s "ZPINNEDDATE");
  ztrasheddate = real_of (s "ZTRASHEDDATE");
  zorderdate = real_of (s "ZORDERDATE");
  zconflictuniqueidentifierdate = real_of (s "ZCONFLICTUNIQUEIDENTIFIERDATE");
  zlasteditingdevice = nullable_of (s "ZLASTEDITINGDEVICE");
  zconflictuniqueidentifier = nullable_of (s "ZCONFLICTUNIQUEIDENTIFIER");
  zencryptionuniqueidentifier = nullable_of (s "ZENCRYPTIONUNIQUEIDENTIFIER");
  zencrypteddata = bytes_of (s "ZENCRYPTEDDATA");
}

unfoldable pub scan_bear_note : Row → BearNoteRow
scan_bear_note row =
    to_bear_note (set_columns bear_note_dest (read_columns note_columns row) null_row)

-- The row of the table with these columns.
abbrev pub bear_note_columns : List String
bear_note_columns =
    "Z_PK" ∷ "ZUNIQUEIDENTIFIER" ∷ "ZTITLE" ∷ "ZSUBTITLE" ∷ "ZTEXT" ∷ "ZARCHIVED" ∷ "ZENCRYPTED"
    ∷ "ZHASFILES" ∷ "ZHASIMAGES" ∷ "ZHASSOURCECODE" ∷ "ZLOCKED" ∷ "ZPINNED" ∷ "ZSHOWNINTODAYWIDGET"
    ∷ "ZTRASHED" ∷ "ZPERMANENTLYDELETED" ∷ "ZSKIPSYNC" ∷ "ZTODOCOMPLETED" ∷ "ZTODOINCOMPLETED"
    ∷ "ZVERSION" ∷ "ZCREATIONDATE" ∷ "ZMODIFICATIONDATE" ∷ "ZARCHIVEDDATE" ∷ "ZENCRYPTIONDATE"
    ∷ "ZLOCKEDDATE" ∷ "ZPINNEDDATE" ∷ "ZTRASHEDDATE" ∷ "ZORDERDATE"
    ∷ "ZCONFLICTUNIQUEIDENTIFIERDATE" ∷ "ZLASTEDITINGDEVICE" ∷ "ZCONFLICTUNIQUEIDENTIFIER"
    ∷ "ZENCRYPTIONUNIQUEIDENTIFIER" ∷ "ZENCRYPTEDDATA" ∷ []

abbrev pub bear_note_values : BearNoteRow → List Value
bear_note_values x =
    integer x.zpk
    ∷ nullable x.zuniqueidentifier
    ∷ nullable x.ztitle
    ∷ nullable x.zsubtitle
    ∷ nullable x.ztext
    ∷ nullable_int x.zarchived
    ∷ nullable_int x.zencrypted
    ∷ nullable_int x.zhasfiles
    ∷ nullable_int x.zhasimages
    ∷ nullable_int x.zhassourcecode
    ∷ nullable_int x.zlocked
    ∷ nullable_int x.zpinned
    ∷ nullable_int x.zshownintodaywidget
    ∷ nullable_int x.ztrashed
    ∷ nullable_int x.zpermanentlydeleted
    ∷ nullable_int x.zskipsync
    ∷ nullable_int x.ztodocompleted
    ∷ nullable_int x.ztodoincompleted
    ∷ nullable_int x.zversion
    ∷ nullable_real x.zcreationdate
    ∷ nullable_real x.zmodificationdate
    ∷ nullable_real x.zarchiveddate
    ∷ nullable_real x.zencryptiondate
    ∷ nullable_real x.zlockeddate
    ∷ nullable_real x.zpinneddate
    ∷ nullable_real x.ztrasheddate
    ∷ nullable_real x.zorderdate
    ∷ nullable_real x.zconflictuniqueidentifierdate
    ∷ nullable x.zlasteditingdevice
    ∷ nullable x.zconflictuniqueidentifier
    ∷ nullable x.zencryptionuniqueidentifier
    ∷ blob x.zencrypteddata
    ∷ []

abbrev pub bear_note_row : BearNoteRow → Row → Row
bear_note_row x = set_columns bear_note_columns (bear_note_values x)

-- x
pub scan_bear_note_round :
    (x : BearNoteRow) (other : Row) → scan_bear_note (bear_note_row x other) ≡ x
unfolding scan_bear_note
scan_bear_note_round x other =
    rw
      (
        nullable_round x.zuniqueidentifier,
        nullable_round x.ztitle,
        nullable_round x.zsubtitle,
        nullable_round x.ztext,
        nullable_int_round x.zarchived,
        nullable_int_round x.zencrypted,
        nullable_int_round x.zhasfiles,
        nullable_int_round x.zhasimages,
        nullable_int_round x.zhassourcecode,
        nullable_int_round x.zlocked,
        nullable_int_round x.zpinned,
        nullable_int_round x.zshownintodaywidget,
        nullable_int_round x.ztrashed,
        nullable_int_round x.zpermanentlydeleted,
        nullable_int_round x.zskipsync,
        nullable_int_round x.ztodocompleted,
        nullable_int_round x.ztodoincompleted,
        nullable_int_round x.zversion,
        nullable_real_round x.zcreationdate,
        nullable_real_round x.zmodificationdate,
        nullable_real_round x.zarchiveddate,
        nullable_real_round x.zencryptiondate,
        nullable_real_round x.zlockeddate,
        nullable_real_round x.zpinneddate,
        nullable_real_round x.ztrasheddate,
        nullable_real_round x.zorderdate,
        nullable_real_round x.zconflictuniqueidentifierdate,
        nullable_round x.zlasteditingdevice,
        nullable_round x.zconflictuniqueidentifier,
        nullable_round x.zencryptionuniqueidentifier,
      )
      refl
