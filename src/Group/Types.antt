-- ===== src/Group/Types.antt =====
-- core/group_manager.go and emodel/chatmodel/group.go: the data of groups. States and roles are
-- int8 with named values, as in the source; a Go map is an association list of Base.Maps.
use sdim.Base.Ints.{ℤ}
use sdim.Base.{ℕ, String, List, Bool, Option}

abbrev pub owner : ℕ
owner = 1

abbrev pub ordinary_meb : ℕ
ordinary_meb = 3

abbrev pub grp_normal : ℕ
grp_normal = 1

abbrev pub grp_frozen : ℕ
grp_frozen = 2

abbrev pub grp_dismissed : ℕ
grp_dismissed = 3

abbrev pub grp_meb_normal : ℕ
grp_meb_normal = 1

abbrev pub grp_meb_kicked : ℕ
grp_meb_kicked = 2

-- `forbidden_at` is the second until which a member is silenced; chatpojo documents 0 for a member
-- who is not, and -1 for one who is for good.
pub record GroupMebItem : Type 0 where
  pub role : ℕ
  pub state : ℕ
  pub forbidden_sec : ℕ
  pub forbidden_at : ℤ
  pub cts : ℕ
  pub uts : ℕ

pub record GroupInfo : Type 0 where
  pub group_no : String
  pub state : ℕ
  pub creator : String
  pub owner_uid : String
  pub meb2item : List (String × GroupMebItem)
  pub cts : ℕ
  pub uts : ℕ

pub record CanSendInfo : Type 0 where
  pub grp_state : ℕ
  pub meb_not_in_grp : Bool
  pub grp_meb_state : ℕ
  pub forbidden_sec : ℕ
  pub forbidden_at : ℤ
  pub client_msg_id : String
  pub conv_id : String
  pub forward_members : List String

-- The rows of the database: chatpojo.Group and chatpojo.GroupItem, as far as they are read.
pub record GroupRow : Type 0 where
  pub group_name : String
  pub state : ℕ
  pub creator : String
  pub cts : ℕ
  pub uts : ℕ

pub record GroupItemRow : Type 0 where
  pub uid : String
  pub role : ℕ
  pub state : ℕ
  pub forbidden_dur : ℕ
  pub forbidden_at : ℤ
  pub cts : ℕ
  pub uts : ℕ

-- The part of grouprepo.GroupRepository that the managers call; `none` is an error.
pub record GroupRepository : Type 0 where
  pub find_group_info : String → Option GroupRow
  pub find_group_items : String → Option (List GroupItemRow)

abbrev pub Groups : Type 0
Groups = List (String × GroupInfo)
