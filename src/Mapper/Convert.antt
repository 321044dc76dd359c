-- ===== src/Mapper/Convert.antt =====
-- `MapBearNote`, `MapBearTag`, `MapBearAttachment` and `MapBearBacklink` of
-- internal/mapper/mapper.go. `id` is the id that `GenerateID` draws, whose errors are left out,
-- `raw` stands for `json.Marshal` of the row, and `rfc3339` for Go's `time`.
use bear_sync.Prelude.{ℕ, String, Option, none, some, nat_eq, if◌then◌else◌}
use bear_sync.Models.Note.{Note, synced}
use bear_sync.Models.Tag.{Tag}
use bear_sync.Models.Attachment.{Attachment}
use bear_sync.Models.Backlink.{Backlink}
use bear_sync.Mapper.Date.{CoreDate, convert_core_data_date}
use bear_sync.Mapper.BearRows.{BearNoteRow, BearTagRow, BearAttachmentRow, BearBacklinkRow}

abbrev pub deref_str : Option String → String
deref_str none = ""
deref_str (some s) = s

abbrev pub deref_int : Option ℕ → ℕ
deref_int none = 0
deref_int (some i) = i

abbrev pub convert_attachment_type : ℕ → String
convert_attachment_type z =
    if nat_eq z 8
    then "file"
    else if nat_eq z 9
    then "image"
    else if nat_eq z 10
    then "video"
    else "file"

module _ (rfc3339 : ℕ → String) where
  abbrev pub date : Option CoreDate → String
  unfolding convert_core_data_date
  date = convert_core_data_date rfc3339

  unfoldable pub map_bear_note : (BearNoteRow → String) → String → BearNoteRow → Note
  map_bear_note raw id row = record {
    id = id;
    bear_id = row.zuniqueidentifier;
    title = deref_str row.ztitle;
    subtitle = deref_str row.zsubtitle;
    body = deref_str row.ztext;
    flags = record {
      archived = deref_int row.zarchived;
      encrypted = deref_int row.zencrypted;
      has_files = deref_int row.zhasfiles;
      has_images = deref_int row.zhasimages;
      has_source_code = deref_int row.zhassourcecode;
      locked = deref_int row.zlocked;
      pinned = deref_int row.zpinned;
      shown_in_today = deref_int row.zshownintodaywidget;
      trashed = deref_int row.ztrashed;
      permanently_deleted = deref_int row.zpermanentlydeleted;
      skip_sync = deref_int row.zskipsync;
      todo_completed = deref_int row.ztodocompleted;
      todo_incompleted = deref_int row.ztodoincompleted;
      version = deref_int row.zversion;
    };
    dates = record {
      created_at = date row.zcreationdate;
      modified_at = date row.zmodificationdate;
      archived_at = date row.zarchiveddate;
      encrypted_at = date row.zencryptiondate;
      locked_at = date row.zlockeddate;
      pinned_at = date row.zpinneddate;
      trashed_at = date row.ztrasheddate;
      order_date = date row.zorderdate;
      conflict_id_date = date row.zconflictuniqueidentifierdate;
    };
    info = record {
      last_editing_device = deref_str row.zlasteditingdevice;
      conflict_id = deref_str row.zconflictuniqueidentifier;
      encryption_id = deref_str row.zencryptionuniqueidentifier;
      encrypted_data = row.zencrypteddata;
    };
    sync_status = synced;
    hub_modified_at = "";
    bear_raw = raw row;
    pending_bear_title = none;
    pending_bear_body = none;
    expected_bear_modified_at = none;
  }

  unfoldable pub map_bear_tag : (BearTagRow → String) → String → BearTagRow → Tag
  map_bear_tag raw id row = record {
    id = id;
    bear_id = row.zuniqueidentifier;
    title = deref_str row.ztitle;
    info = record {
      pinned = deref_int row.zpinned;
      is_root = deref_int row.zisroot;
      hide_subtags_notes = deref_int row.zhidesubtagsnotes;
      sorting = deref_int row.zsorting;
      sorting_direction = deref_int row.zsortingdirection;
      encrypted = deref_int row.zencrypted;
      version = deref_int row.zversion;
      modified_at = date row.zmodificationdate;
      pinned_at = date row.zpinneddate;
      pinned_notes_at = date row.zpinnednotesdate;
      encrypted_at = date row.zencrypteddate;
      hide_subtags_notes_at = date row.zhidesubtagsnotesdate;
      sorting_at = date row.zsortingdate;
      sorting_direction_at = date row.zsortingdirectiondate;
      tag_con_date = date row.ztagcondate;
      tag_con = deref_str row.ztagcon;
    };
    bear_raw = raw row;
  }

  unfoldable pub map_bear_attachment :
      (BearAttachmentRow → String) → String → BearAttachmentRow → Attachment
  map_bear_attachment raw id row = record {
    id = id;
    bear_id = row.zuniqueidentifier;
    note_id = deref_str row.znote;
    type = convert_attachment_type row.zent;
    filename = deref_str row.zfilename;
    encrypted = deref_int row.zencrypted;
    permanently_deleted = deref_int row.zpermanentlydeleted;
    info = record {
      normalized_extension = deref_str row.znormalizedfileextension;
      file_size = deref_int row.zfilesize;
      file_index = deref_int row.zindex;
      width = deref_int row.zwidth;
      height = deref_int row.zheight;
      animated = deref_int row.zanimated;
      duration = deref_int row.zduration;
      width1 = deref_int row.zwidth1;
      height1 = deref_int row.zheight1;
      downloaded = deref_int row.zdownloaded;
      skip_sync = deref_int row.zskipsync;
      unused = deref_int row.zunused;
      uploaded = deref_int row.zuploaded;
      version = deref_int row.zversion;
      created_at = date row.zcreationdate;
      modified_at = date row.zmodificationdate;
      inserted_at = date row.zinsertiondate;
      encrypted_at = date row.zencryptiondate;
      unused_at = date row.zunuseddate;
      uploaded_at = date row.zuploadeddate;
      search_text_at = date row.zsearchtextdate;
      last_editing_device = deref_str row.zlasteditingdevice;
      encryption_id = deref_str row.zencryptionuniqueidentifier;
      search_text = deref_str row.zsearchtext;
      encrypted_data = row.zencrypteddata;
    };
    file_path = "";
    bear_raw = raw row;
  }

  unfoldable pub map_bear_backlink :
      (BearBacklinkRow → String) → String → BearBacklinkRow → Backlink
  map_bear_backlink raw id row = record {
    id = id;
    bear_id = row.zuniqueidentifier;
    linked_by_id = deref_str row.zlinkedby;
    linking_to_id = deref_str row.zlinkingto;
    title = deref_str row.ztitle;
    location = deref_int row.zlocation;
    version = deref_int row.zversion;
    modified_at = date row.zmodificationdate;
    bear_raw = raw row;
  }
