-- ===== src/Topic/Merge.antt =====
-- The parts of p2pConvHandle and groupConvHandle that have no effects: ids, what the store's hash
-- changes in memory, and the payloads.
use sdim.Base.Ints.{pos}
use sdim.Base.Maps.{insert}
use sdim.Topic.Load.{MemberUnitInfo, ConvAddEventPayload}
use sdim.Topic.Types.{
  Conversation, ConvItem, MsgComingParam, MemberConv, ConvManager, MsgSendReceivePayload,
}
use sdim.Topic.Groups.{upsert_members}
use sdim.Topic.Deliver.{unread}
use sdim.Base.{
  ℕ, String, List, Bool, text_compare, false, text_append, if◌then◌else◌, ◌∷◌, leb, map, str_eq, [],
  ◌||◌,
}
use Prim.Native.Nat.{Ordering}

abbrev pub user_sender : ℕ
user_sender = 1

unfoldable pub is_key : String → List String → Bool
is_key k [] = false
is_key k (x ∷ xs) = str_eq x k || is_key k xs

unfoldable pub generate_p2p_conv_id : String → String → String
generate_p2p_conv_id sender receiver = elim (text_compare sender receiver) [
  | Ordering.gt ↦ text_append "p2p:" (text_append receiver (text_append ":" sender))
  | _ ↦ text_append "p2p:" (text_append sender (text_append ":" receiver))
]

-- What the tree says of a conversation, unless memory is ahead of it. The direct handler leaves the
-- last message's id, and the group handler takes it over.
unfoldable pub adopt_tree_p2p : ℕ → ℕ → Conversation → Conversation
adopt_tree_p2p msg_seq last_active_ts conv =
    if leb conv.msg_seq msg_seq
    then record conv { msg_seq = msg_seq; last_active_ts = last_active_ts }
    else conv

unfoldable pub adopt_tree_group : ℕ → ℕ → ℕ → Conversation → Conversation
adopt_tree_group msg_seq last_msg_id last_active_ts conv =
    if leb conv.msg_seq msg_seq
    then record conv {
      msg_seq = msg_seq;
      last_msg_id = last_msg_id;
      last_active_ts = last_active_ts;
    }
    else conv

-- A cell of a user's list, updated from the record, and made from it.
unfoldable pub update_conv_fields :
    ℕ → (ConvItem → String) → (ConvItem → ℕ) → ConvItem → MemberConv → MemberConv
unfolding unread
update_conv_fields msg_seq title browse_seq ci mv = record mv {
  title = title ci;
  icon = ci.icon;
  browse_msg_seq = browse_seq ci;
  unread_count = unread msg_seq (browse_seq ci);
}

unfoldable pub member_conv_of :
    String → ℕ → ℕ → (ConvItem → String) → (ConvItem → ℕ) → ConvItem → MemberConv
unfolding unread
member_conv_of conv_id conv_type msg_seq title browse_seq ci = record {
  id = conv_id;
  type = conv_type;
  icon = ci.icon;
  title = title ci;
  relation_id = ci.relation_id;
  remark = ci.remark;
  pin_top = ci.pin_top;
  no_disturb = ci.no_disturb;
  browse_msg_seq = browse_seq ci;
  unread_count = unread msg_seq (browse_seq ci);
  cts = ci.cts;
  uts = ci.uts;
}

unfoldable pub sync_members :
    String
    → ℕ
    → ℕ
    → (ConvItem → String)
    → (ConvItem → ℕ)
    → List ConvItem
    → ConvManager
    → ConvManager
unfolding upsert_members update_conv_fields member_conv_of
sync_members conv_id conv_type msg_seq title browse_seq items cm = record cm {
  uid2conv_items =
      upsert_members (λ ci. ci.owner_uid) (update_conv_fields msg_seq title browse_seq)
        (member_conv_of conv_id conv_type msg_seq title browse_seq) conv_id items cm.uid2conv_items;
}

unfoldable pub unit_infos :
    List ConvItem → List (String × MemberUnitInfo) → List (String × MemberUnitInfo)
unit_infos [] acc = acc
unit_infos (item ∷ items) acc =
    unit_infos items (insert item.owner_uid (record { icon = item.icon; title = item.title }) acc)

unfoldable pub conv_add_event :
    String → ℕ → MsgComingParam → List ConvItem → ℕ → ConvAddEventPayload
unfolding unit_infos
conv_add_event conv_id conv_type pa items now = record {
  conv_id = conv_id;
  conv_type = conv_type;
  chat_type = pa.chat_type;
  icon = "";
  title = "";
  ts = now;
  sender = pa.sender;
  receiver = pa.receiver;
  relation_id = "";
  members = map (λ item. item.owner_uid) items;
  meb_id2unit_info = unit_infos items [];
}

-- The source leaves the time to live out.
unfoldable pub send_receive_payload :
    String → ℕ → ℕ → MsgComingParam → ℕ → ℕ → List String → ℕ → MsgSendReceivePayload
send_receive_payload conv_id msg_id conv_type pa seq last_ts members now = record {
  conv_id = conv_id;
  conv_type = conv_type;
  msg_id = msg_id;
  conv_last_active_ts = last_ts;
  client_unique_id = pa.client_unique_id;
  msg_seq = seq;
  chat_type = pa.chat_type;
  sender = pa.sender;
  sender_type = user_sender;
  receiver = pa.receiver;
  members = members;
  req_id = pa.req_id;
  send_ts = now;
  ttl = pos 0;
  msg_content = pa.msg_content;
}
