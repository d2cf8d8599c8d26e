-- ===== src/Topic/Types.antt =====
-- core/conversation_manager.go and the payloads that it refers to: the data of conversations. The
-- values of an `any` map are its JSON text, and an int64 that counts, identifies or times is ℕ.
use sdim.Base.Ints.{ℤ}
use sdim.Base.{ℕ, String, List, Option, Bool, if◌then◌else◌, ◌==◌}

pub record MsgContent : Type 0 where
  pub type : ℕ
  pub content : String
  pub custom : String
  pub extra : String

pub record SenderInfo : Type 0 where
  pub sender_type : ℕ
  pub nickname : String
  pub avatar : String

pub record LastMsg : Type 0 where
  pub msg_id : ℕ
  pub sender_info : SenderInfo
  pub content : MsgContent

pub record MsgItemInMem : Type 0 where
  pub msg_id : ℕ
  pub conv_id : String
  pub sender : String
  pub receiver : String
  pub chat_type : ℕ
  pub msg_type : ℕ
  pub content : MsgContent
  pub sender_info : SenderInfo
  pub meg_seq : ℕ
  pub cts : ℕ

pub record Msg : Type 0 where
  pub sender_info : SenderInfo
  pub content : MsgContent

pub record MsgSendReceivePayload : Type 0 where
  pub conv_id : String
  pub conv_type : ℕ
  pub msg_id : ℕ
  pub conv_last_active_ts : ℕ
  pub client_unique_id : String
  pub msg_seq : ℕ
  pub chat_type : ℕ
  pub sender : String
  pub sender_type : ℕ
  pub receiver : String
  pub members : List String
  pub req_id : String
  pub send_ts : ℕ
  pub ttl : ℤ
  pub msg_content : MsgContent

pub record MsgForwardPayload : Type 0 where
  pub req_id : String
  pub conv_id : String
  pub conv_type : ℕ
  pub conv_last_active_ts : ℕ
  pub msg_id : ℕ
  pub client_unique_id : String
  pub msg_seq : ℕ
  pub chat_type : ℕ
  pub sender : String
  pub receiver : String
  pub members : List String
  pub send_ts : ℕ
  pub ttl : ℤ
  pub msg : Msg
  pub cts : ℕ

abbrev pub p2p_chat : ℕ
p2p_chat = 1

abbrev pub p2p_conv : ℕ
p2p_conv = 1

abbrev pub group_conv : ℕ
group_conv = 2

-- Customer chats have conversations of their own; any other chat type, as Danmaku, maps to 0.
unfoldable pub get_conv_type_with_chat_type : ℕ → ℕ
get_conv_type_with_chat_type ct =
    if ct == 1 then 1 else if ct == 2 then 2 else if ct == 3 then 3 else 0

pub record MsgComingParam : Type 0 where
  pub conv_id : String
  pub sender : String
  pub receiver : String
  pub chat_type : ℕ
  pub req_id : String
  pub ttl : ℤ
  pub client_unique_id : String
  pub msg_content : MsgContent
  pub is_conv_type : Bool

-- `members` is the key set of a Go map; `recently_msgs` is a deque, front first.
pub record Conversation : Type 0 where
  pub id : String
  pub type : ℕ
  pub last_active_ts : ℕ
  pub members : List String
  pub msg_seq : ℕ
  pub last_msg_id : ℕ
  pub last_msg : Option LastMsg
  pub recently_msgs : List MsgItemInMem

pub record MemberConv : Type 0 where
  pub id : String
  pub type : ℕ
  pub icon : String
  pub title : String
  pub relation_id : String
  pub remark : String
  pub pin_top : Bool
  pub no_disturb : Bool
  pub browse_msg_seq : ℕ
  pub unread_count : ℕ
  pub cts : ℕ
  pub uts : ℕ

-- A MemberConvWrap holds the same cells twice: `ConvItems` in order of arrival and `ConvId2Item` by
-- id. Every write adds to both or changes a shared cell, so one list of keyed cells in order of
-- arrival is both: its values are `ConvItems`, and a lookup is one of `ConvId2Item`.
abbrev pub MemberConvWrap : Type 0
MemberConvWrap = List (String × MemberConv)

pub record ConvListItem : Type 0 where
  pub conv_id : String
  pub conv_type : ℕ
  pub icon : String
  pub title : String
  pub relation_id : String
  pub remark : String
  pub pin_top : Bool
  pub no_disturb : Bool
  pub msg_seq : ℕ
  pub last_msg : Option LastMsg
  pub browse_msg_seq : ℕ
  pub unread_count : ℕ
  pub cts : ℕ
  pub uts : ℕ
  pub recently_msgs : List MsgItemInMem

pub record MsgStoredResult : Type 0 where
  pub last_msg : Option LastMsg
  pub uid2unread_count : List (String × ℕ)
  pub last_active_ts : ℕ

pub record OnGroupDataChangedParam : Type 0 where
  pub group_no : String
  pub uids : List String
  pub group_name : Option String
  pub group_icon : Option String
  pub remark : Option String

-- convrepo.ConvItem and convrepo.Conv.
pub record ConvItem : Type 0 where
  pub conv_id : String
  pub owner_uid : String
  pub relation_id : String
  pub conv_type : ℕ
  pub icon : String
  pub title : String
  pub remark : String
  pub browse_msg_seq : ℕ
  pub pin_top : Bool
  pub no_disturb : Bool
  pub cts : ℕ
  pub uts : ℕ

pub record Conv : Type 0 where
  pub conv_id : String
  pub msg_seq : ℕ
  pub last_msg_id : ℕ
  pub last_active_ts : ℕ
  pub conv_type : ℕ
  pub cts : ℕ
  pub items : List ConvItem

-- The two maps of convManager, and the capacity of the queues.
pub record ConvManager : Type 0 where
  pub conv_id2items : List (String × Conversation)
  pub uid2conv_items : List (String × MemberConvWrap)
  pub msg_cap : ℕ
