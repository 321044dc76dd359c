-- ===== src/BearDb/AttachmentColumns.antt =====
-- How `queryAttachments` of internal/beardb/sqlite.go selects and scans the columns of `ZSFNOTEFILE`.
use bear_sync.Prelude.{String, List, [], ◌∷◌, ◌≡◌, refl}
use bear_sync.Mapper.BearRows.{BearAttachmentRow}
use bear_sync.Store.Scan.Values.{
  Value, integer, blob, nullable, nullable_int, nullable_real, int_of, nullable_of, nullable_int_of,
  real_of, bytes_of, Row, null_row, set_columns, nullable_round, nullable_int_round,
  nullable_real_round,
}
use bear_sync.BearDb.Tables.{Joined, read_joined, beside}

abbrev pub attachment_columns : List (String × String)
attachment_columns =
    ("f", "Z_PK")
    ∷ ("f", "Z_ENT")
    ∷ ("f", "ZUNIQUEIDENTIFIER")
    ∷ ("n", "ZUNIQUEIDENTIFIER")
    ∷ ("f", "ZFILENAME")
    ∷ ("f", "ZNORMALIZEDFILEEXTENSION")
    ∷ ("f", "ZFILESIZE")
    ∷ ("f", "ZINDEX")
    ∷ ("f", "ZWIDTH")
    ∷ ("f", "ZHEIGHT")
    ∷ ("f", "ZANIMATED")
    ∷ ("f", "ZDURATION")
    ∷ ("f", "ZWIDTH1")
    ∷ ("f", "ZHEIGHT1")
    ∷ ("f", "ZDOWNLOADED")
    ∷ ("f", "ZENCRYPTED")
    ∷ ("f", "ZPERMANENTLYDELETED")
    ∷ ("f", "ZSKIPSYNC")
    ∷ ("f", "ZUNUSED")
    ∷ ("f", "ZUPLOADED")
    ∷ ("f", "ZVERSION")
    ∷ ("f", "ZCREATIONDATE")
    ∷ ("f", "ZMODIFICATIONDATE")
    ∷ ("f", "ZINSERTIONDATE")
    ∷ ("f", "ZENCRYPTIONDATE")
    ∷ ("f", "ZUNUSEDDATE")
    ∷ ("f", "ZUPLOADEDDATE")
    ∷ ("f", "ZSEARCHTEXTDATE")
    ∷ ("f", "ZLASTEDITINGDEVICE")
    ∷ ("f", "ZENCRYPTIONUNIQUEIDENTIFIER")
    ∷ ("f", "ZSEARCHTEXT")
    ∷ ("f", "ZENCRYPTEDDATA")
    ∷ []

-- The fields of the row in the order of `rows.Scan`.
abbrev pub bear_attachment_dest : List String
bear_attachment_dest =
    "ZPK" ∷ "ZENT" ∷ "ZUNIQUEIDENTIFIER" ∷ "ZNOTE" ∷ "ZFILENAME" ∷ "ZNORMALIZEDFILEEXTENSION"
    ∷ "ZFILESIZE" ∷ "ZINDEX" ∷ "ZWIDTH" ∷ "ZHEIGHT" ∷ "ZANIMATED" ∷ "ZDURATION" ∷ "ZWIDTH1"
    ∷ "ZHEIGHT1" ∷ "ZDOWNLOADED" ∷ "ZENCRYPTED" ∷ "ZPERMANENTLYDELETED" ∷ "ZSKIPSYNC" ∷ "ZUNUSED"
    ∷ "ZUPLOADED" ∷ "ZVERSION" ∷ "ZCREATIONDATE" ∷ "ZMODIFICATIONDATE" ∷ "ZINSERTIONDATE"
    ∷ "ZENCRYPTIONDATE" ∷ "ZUNUSEDDATE" ∷ "ZUPLOADEDDATE" ∷ "ZSEARCHTEXTDATE" ∷ "ZLASTEDITINGDEVICE"
    ∷ "ZENCRYPTIONUNIQUEIDENTIFIER" ∷ "ZSEARCHTEXT" ∷ "ZENCRYPTEDDATA" ∷ []

abbrev pub to_bear_attachment : Row → BearAttachmentRow
to_bear_attachment s = record {
  zpk = int_of (s "ZPK");
  zent = int_of (s "ZENT");
  zuniqueidentifier = nullable_of (s "ZUNIQUEIDENTIFIER");
  znote = nullable_of (s "ZNOTE");
  zfilename = nullable_of (s "ZFILENAME");
  znormalizedfileextension = nullable_of (s "ZNORMALIZEDFILEEXTENSION");
  zfilesize = nullable_int_of (s "ZFILESIZE");
  zindex = nullable_int_of (s "ZINDEX");
  zwidth = nullable_int_of (s "ZWIDTH");
  zheight = nullable_int_of (s "ZHEIGHT");
  zanimated = nullable_int_of (s "ZANIMATED");
  zduration = nullable_int_of (s "ZDURATION");
  zwidth1 = nullable_int_of (s "ZWIDTH1");
  zheight1 = nullable_int_of (s "ZHEIGHT1");
  zdownloaded = nullable_int_of (s "ZDOWNLOADED");
  zencrypted = nullable_int_of (s "ZENCRYPTED");
  zpermanentlydeleted = nullable_int_of (s "ZPERMANENTLYDELETED");
  zskipsync = nullable_int_of (s "ZSKIPSYNC");
  zunused = nullable_int_of (s "ZUNUSED");
  zuploaded = nullable_int_of (s "ZUPLOADED");
  zversion = nullable_int_of (s "ZVERSION");
  zcreationdate = real_of (s "ZCREATIONDATE");
  zmodificationdate = real_of (s "ZMODIFICATIONDATE");
  zinsertiondate = real_of (s "ZINSERTIONDATE");
  zencryptiondate = real_of (s "ZENCRYPTIONDATE");
  zunuseddate = real_of (s "ZUNUSEDDATE");
  zuploadeddate = real_of (s "ZUPLOADEDDATE");
  zsearchtextdate = real_of (s "ZSEARCHTEXTDATE");
  zlasteditingdevice = nullable_of (s "ZLASTEDITINGDEVICE");
  zencryptionuniqueidentifier = nullable_of (s "ZENCRYPTIONUNIQUEIDENTIFIER");
  zsearchtext = nullable_of (s "ZSEARCHTEXT");
  zencrypteddata = bytes_of (s "ZENCRYPTEDDATA");
}

unfoldable pub scan_bear_attachment : Joined → BearAttachmentRow
scan_bear_attachment row =
    to_bear_attachment
      (set_columns bear_attachment_dest (read_joined attachment_columns row) null_row)

-- The row of the table with these columns, which `other` completes.
abbrev pub bear_attachment_columns : List String
bear_attachment_columns =
    "Z_PK" ∷ "Z_ENT" ∷ "ZUNIQUEIDENTIFIER" ∷ "ZFILENAME" ∷ "ZNORMALIZEDFILEEXTENSION" ∷ "ZFILESIZE"
    ∷ "ZINDEX" ∷ "ZWIDTH" ∷ "ZHEIGHT" ∷ "ZANIMATED" ∷ "ZDURATION" ∷ "ZWIDTH1" ∷ "ZHEIGHT1"
    ∷ "ZDOWNLOADED" ∷ "ZENCRYPTED" ∷ "ZPERMANENTLYDELETED" ∷ "ZSKIPSYNC" ∷ "ZUNUSED" ∷ "ZUPLOADED"
    ∷ "ZVERSION" ∷ "ZCREATIONDATE" ∷ "ZMODIFICATIONDATE" ∷ "ZINSERTIONDATE" ∷ "ZENCRYPTIONDATE"
    ∷ "ZUNUSEDDATE" ∷ "ZUPLOADEDDATE" ∷ "ZSEARCHTEXTDATE" ∷ "ZLASTEDITINGDEVICE"
    ∷ "ZENCRYPTIONUNIQUEIDENTIFIER" ∷ "ZSEARCHTEXT" ∷ "ZENCRYPTEDDATA" ∷ []

abbrev pub bear_attachment_values : BearAttachmentRow → List Value
bear_attachment_values x =
    integer x.zpk
    ∷ integer x.zent
    ∷ nullable x.zuniqueidentifier
    ∷ nullable x.zfilename
    ∷ nullable x.znormalizedfileextension
    ∷ nullable_int x.zfilesize
    ∷ nullable_int x.zindex
    ∷ nullable_int x.zwidth
    ∷ nullable_int x.zheight
    ∷ nullable_int x.zanimated
    ∷ nullable_int x.zduration
    ∷ nullable_int x.zwidth1
    ∷ nullable_int x.zheight1
    ∷ nullable_int x.zdownloaded
    ∷ nullable_int x.zencrypted
    ∷ nullable_int x.zpermanentlydeleted
    ∷ nullable_int x.zskipsync
    ∷ nullable_int x.zunused
    ∷ nullable_int x.zuploaded
    ∷ nullable_int x.zversion
    ∷ nullable_real x.zcreationdate
    ∷ nullable_real x.zmodificationdate
    ∷ nullable_real x.zinsertiondate
    ∷ nullable_real x.zencryptiondate
    ∷ nullable_real x.zunuseddate
    ∷ nullable_real x.zuploadeddate
    ∷ nullable_real x.zsearchtextdate
    ∷ nullable x.zlasteditingdevice
    ∷ nullable x.zencryptionuniqueidentifier
    ∷ nullable x.zsearchtext
    ∷ blob x.zencrypteddata
    ∷ []

abbrev pub bear_attachment_row : BearAttachmentRow → Row → Row
bear_attachment_row x = set_columns bear_attachment_columns (bear_attachment_values x)

-- x
pub scan_bear_attachment_round :
    (x : BearAttachmentRow) (other : Row) (n : Row)
    → scan_bear_attachment (beside (("f", bear_attachment_row x other) ∷ ("n", n) ∷ []))
      ≡ record x { znote = nullable_of (n "ZUNIQUEIDENTIFIER") }
unfolding scan_bear_attachment
scan_bear_attachment_round x other n =
    rw
      (
        nullable_round x.zuniqueidentifier,
        nullable_round x.zfilename,
        nullable_round x.znormalizedfileextension,
        nullable_int_round x.zfilesize,
        nullable_int_round x.zindex,
        nullable_int_round x.zwidth,
        nullable_int_round x.zheight,
        nullable_int_round x.zanimated,
        nullable_int_round x.zduration,
        nullable_int_round x.zwidth1,
        nullable_int_round x.zheight1,
        nullable_int_round x.zdownloaded,
        nullable_int_round x.zencrypted,
        nullable_int_round x.zpermanentlydeleted,
        nullable_int_round x.zskipsync,
        nullable_int_round x.zunused,
        nullable_int_round x.zuploaded,
        nullable_int_round x.zversion,
        nullable_real_round x.zcreationdate,
        nullable_real_round x.zmodificationdate,
        nullable_real_round x.zinsertiondate,
        nullable_real_round x.zencryptiondate,
        nullable_real_round x.zunuseddate,
        nullable_real_round x.zuploadeddate,
        nullable_real_round x.zsearchtextdate,
        nullable_round x.zlasteditingdevice,
        nullable_round x.zencryptionuniqueidentifier,
        nullable_round x.zsearchtext,
      )
      refl
