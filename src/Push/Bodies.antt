-- ===== src/Push/Bodies.antt =====
-- The payloads of the queue handlers of the engine server, and the frame bodies of
-- fcodec/pre_include.go that they are turned into. An `any` of a body's map is one of the values
-- that a handler puts there.
use sdim.Topic.Types.{MsgContent, SenderInfo, LastMsg, MsgForwardPayload}
use sdim.Topic.Load.{ConvAddEventPayload, MemberUnitInfo}
use sdim.Base.Maps.{lookup, insert}
use sdim.Base.{ℕ, String, List, [], ◌∷◌, Bool, not, Option, none, some, if◌then◌else◌, str_eq, ◌≡◌}

pub record ForwardFrameBody : Type 0 where
  pub conv_id : String
  pub conv_last_active_ts : ℕ
  pub msg_id : ℕ
  pub client_unique_id : String
  pub msg_seq : ℕ
  pub chat_type : ℕ
  pub sender : String
  pub receiver : String
  pub to_uid : String
  pub send_ts : ℕ
  pub msg_content : MsgContent
  pub sender_info : SenderInfo

pub data DataValue : Type 0 where
  text : String → DataValue
  number : ℕ → DataValue
  flag : Bool → DataValue
  message : Option LastMsg → DataValue

pub record ConvUpdateFrame : Type 0 where
  pub conv_id : String
  pub type : String
  pub data_map : List (String × DataValue)

-- `D` is the type of a notification's data, which goes through as it came.
pub record NotifyFrame (D : Type 0) : Type 0 where
  pub notify_type : String
  pub sub_type : String
  pub data_map : D

pub record NotifyPayload (D : Type 0) : Type 0 where
  pub notify_type : String
  pub sub_type : String
  pub members : List String
  pub data_map : D

pub record ConvLastMsgUpdateEventPayload : Type 0 where
  pub conv_id : String
  pub conv_type : ℕ
  pub members : List String
  pub last_msg : Option LastMsg
  pub last_active_ts : ℕ
  pub uid2unread_count : List (String × ℕ)

pub record ConvUnitDataUpdatePayload : Type 0 where
  pub conv_id : String
  pub icon : Option String
  pub update_reason : String
  pub title : Option String
  pub pin_top : Option Bool
  pub no_disturb : Option Bool
  pub members : List String
  pub uts : ℕ

-- usli.FindFirstIf, of a package that is not in the repository: the first that passes the test.
pub record FindFirst : Type 0 where
  pub find_first_if : List String → (String → Bool) → Option String
  pub find_first_if-nil : (p : String → Bool) → find_first_if [] p ≡ none
  pub find_first_if-cons :
      (x : String) (xs : List String) (p : String → Bool)
      → find_first_if (x ∷ xs) p ≡ (if p x then some x else find_first_if xs p)

unfoldable pub forward_body : MsgForwardPayload → String → ForwardFrameBody
forward_body msp meb_uid = record {
  conv_id = msp.conv_id;
  conv_last_active_ts = msp.conv_last_active_ts;
  msg_id = msp.msg_id;
  client_unique_id = msp.client_unique_id;
  msg_seq = msp.msg_seq;
  chat_type = msp.chat_type;
  sender = msp.sender;
  receiver = msp.receiver;
  to_uid = meb_uid;
  send_ts = msp.send_ts;
  msg_content = msp.msg.content;
  sender_info = msp.msg.sender_info;
}

-- A member that the map does not know has the count 0.
unfoldable pub last_msg_body : ConvLastMsgUpdateEventPayload → String → ConvUpdateFrame
last_msg_body cup meb_uid = record {
  conv_id = cup.conv_id;
  type = "ConvLastMsgUpdated";
  data_map =
      ("lastActiveTs", number cup.last_active_ts)
      ∷ ("lastMsg", message cup.last_msg)
      ∷ (
        "unreadCount",
        number (elim (lookup meb_uid cup.uid2unread_count) [ none ↦ 0 | some n ↦ n ]),
      )
      ∷ [];
}

-- One of the optional fields: its entry in the map, and the type of the update that it stands for.
unfoldable pub set_field :
    {A : Type 0}
    → String
    → String
    → (A → DataValue)
    → Option A
    → String × List (String × DataValue)
    → String × List (String × DataValue)
set_field key type val none u = u
set_field key type val (some a) u = (type, insert key (val a) u.1)

-- The type of the update is that of the last field that is set.
unfoldable pub unit_data_body : ConvUnitDataUpdatePayload → ConvUpdateFrame
unfolding set_field
unit_data_body pd =
    let u0 : String × List (String × DataValue) =
      ("", ("updateReason", text pd.update_reason) ∷ []) in
    let u1 = set_field "title" "ConvTitleChanged" text pd.title u0 in
    let u2 = set_field "icon" "ConvIconChanged" text pd.icon u1 in
    let u3 = set_field "pinTop" "ConvPinTopChanged" flag pd.pin_top u2 in
    let u4 = set_field "noDisturb" "ConvNoDisturbChanged" flag pd.no_disturb u3 in
    record { conv_id = pd.conv_id; type = u4.0; data_map = u4.1 }

unfoldable pub notify_body : {D : Type 0} → NotifyPayload D → NotifyFrame D
notify_body pd = record {
  notify_type = pd.notify_type;
  sub_type = pd.sub_type;
  data_map = pd.data_map;
}

-- The text for all members, or the member's own; a missing unit info is the zero value.
unfoldable pub own_or_shared : (MemberUnitInfo → String) → String → Option MemberUnitInfo → String
own_or_shared field shared own =
    if str_eq shared "" then (elim own [ none ↦ "" | some info ↦ field info ]) else shared

-- Who the conversation is with: the payload's relation, or the first other member.
unfoldable pub relation_of : FindFirst → ConvAddEventPayload → String → Option String
relation_of ff pd meb_uid =
    if str_eq pd.relation_id ""
    then ff.find_first_if pd.members (λ val. not (str_eq val meb_uid))
    else some pd.relation_id

unfoldable pub conv_add_body : ConvAddEventPayload → String → String → ConvUpdateFrame
unfolding own_or_shared
conv_add_body pd meb_uid relation_id =
    let info = lookup meb_uid pd.meb_id2unit_info in
    record {
      conv_id = pd.conv_id;
      type = "ConvAdded";
      data_map =
          ("icon", text (own_or_shared (λ i. i.icon) pd.icon info))
          ∷ ("title", text (own_or_shared (λ i. i.title) pd.title info))
          ∷ ("ts", number pd.ts)
          ∷ ("convType", number pd.conv_type)
          ∷ ("chatType", number pd.chat_type)
          ∷ ("sender", text pd.sender)
          ∷ ("receiver", text pd.receiver)
          ∷ ("relationId", text relation_id)
          ∷ [];
    }
