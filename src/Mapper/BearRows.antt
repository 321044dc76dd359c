-- ===== src/Mapper/BearRows.antt =====
-- The row types of internal/mapper/mapper.go: rows of Bear's tables as its database returns them. A
-- field has the name of the column in lower case. NULL is `none`; an integer that the bridge only
-- copies is a natural number.
use bear_sync.Prelude.{ℕ, String, Option, List}
use bear_sync.Mapper.Date.{CoreDate}

pub record BearNoteRow : Type 0 where
  pub zpk : ℕ
  pub zuniqueidentifier : Option String
  pub ztitle : Option String
  pub zsubtitle : Option String
  pub ztext : Option String
  pub zarchived : Option ℕ
  pub zencrypted : Option ℕ
  pub zhasfiles : Option ℕ
  pub zhasimages : Option ℕ
  pub zhassourcecode : Option ℕ
  pub zlocked : Option ℕ
  pub zpinned : Option ℕ
  pub zshownintodaywidget : Option ℕ
  pub ztrashed : Option ℕ
  pub zpermanentlydeleted : Option ℕ
  pub zskipsync : Option ℕ
  pub ztodocompleted : Option ℕ
  pub ztodoincompleted : Option ℕ
  pub zversion : Option ℕ
  pub zcreationdate : Option CoreDate
  pub zmodificationdate : Option CoreDate
  pub zarchiveddate : Option CoreDate
  pub zencryptiondate : Option CoreDate
  pub zlockeddate : Option CoreDate
  pub zpinneddate : Option CoreDate
  pub ztrasheddate : Option CoreDate
  pub zorderdate : Option CoreDate
  pub zconflictuniqueidentifierdate : Option CoreDate
  pub zlasteditingdevice : Option String
  pub zconflictuniqueidentifier : Option String
  pub zencryptionuniqueidentifier : Option String
  pub zencrypteddata : List ℕ

pub record BearTagRow : Type 0 where
  pub zpk : ℕ
  pub zuniqueidentifier : Option String
  pub ztitle : Option String
  pub zpinned : Option ℕ
  pub zisroot : Option ℕ
  pub zhidesubtagsnotes : Option ℕ
  pub zsorting : Option ℕ
  pub zsortingdirection : Option ℕ
  pub zencrypted : Option ℕ
  pub zversion : Option ℕ
  pub zmodificationdate : Option CoreDate
  pub zpinneddate : Option CoreDate
  pub zpinnednotesdate : Option CoreDate
  pub zencrypteddate : Option CoreDate
  pub zhidesubtagsnotesdate : Option CoreDate
  pub zsortingdate : Option CoreDate
  pub zsortingdirectiondate : Option CoreDate
  pub ztagcondate : Option CoreDate
  pub ztagcon : Option String

pub record BearAttachmentRow : Type 0 where
  pub zpk : ℕ
  pub zent : ℕ
  pub zuniqueidentifier : Option String
  pub znote : Option String
  pub zfilename : Option String
  pub znormalizedfileextension : Option String
  pub zfilesize : Option ℕ
  pub zindex : Option ℕ
  pub zwidth : Option ℕ
  pub zheight : Option ℕ
  pub zanimated : Option ℕ
  pub zduration : Option ℕ
  pub zwidth1 : Option ℕ
  pub zheight1 : Option ℕ
  pub zdownloaded : Option ℕ
  pub zencrypted : Option ℕ
  pub zpermanentlydeleted : Option ℕ
  pub zskipsync : Option ℕ
  pub zunused : Option ℕ
  pub zuploaded : Option ℕ
  pub zversion : Option ℕ
  pub zcreationdate : Option CoreDate
  pub zmodificationdate : Option CoreDate
  pub zinsertiondate : Option CoreDate
  pub zencryptiondate : Option CoreDate
  pub zunuseddate : Option CoreDate
  pub zuploadeddate : Option CoreDate
  pub zsearchtextdate : Option CoreDate
  pub zlasteditingdevice : Option String
  pub zencryptionuniqueidentifier : Option String
  pub zsearchtext : Option String
  pub zencrypteddata : List ℕ

pub record BearBacklinkRow : Type 0 where
  pub zpk : ℕ
  pub zuniqueidentifier : Option String
  pub zlinkedby : Option String
  pub zlinkingto : Option String
  pub ztitle : Option String
  pub zlocation : Option ℕ
  pub zversion : Option ℕ
  pub zmodificationdate : Option CoreDate
