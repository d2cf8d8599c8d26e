-- ===== src/Topic/Deliver.antt =====
-- conv_manager.go once a message is on its way: the answer of the queue (receiveMqSendAsyncResult),
-- its storage (OnMsgStored), and the reading of it (ClearUnread).
use sdim.Base.Maps.{lookup, insert}
use sdim.Topic.Types.{
  Conversation, MemberConv, ConvManager, MsgForwardPayload, MsgItemInMem, LastMsg, MsgStoredResult,
}
use sdim.Base.{
  ℕ, String, List, Option, ◌∷◌, Bool, if◌then◌else◌, ltb, str_eq, ◌++◌, leb, [], false, suc, some,
  none, ◌-◌, length, true, zero,
}

-- The unread count that the source computes: below 0 it is 0.
unfoldable pub unread : ℕ → ℕ → ℕ
unread msg_seq browse_seq = if ltb msg_seq browse_seq then 0 else msg_seq - browse_seq

-- A write under the lock of a conversation, or of one conversation of a user.
unfoldable pub update_conv : (Conversation → Conversation) → String → ConvManager → ConvManager
update_conv f conv_id cm = elim (lookup conv_id cm.conv_id2items) [
  | none ↦ cm
  | some conv ↦ record cm { conv_id2items = insert conv_id (f conv) cm.conv_id2items }
]

unfoldable pub update_item : (MemberConv → MemberConv) → String → String → ConvManager → ConvManager
update_item f uid conv_id cm = elim (lookup uid cm.uid2conv_items) [
  | none ↦ cm
  | some wrap ↦ elim (lookup conv_id wrap) [
    | none ↦ cm
    | some item ↦ record cm {
      uid2conv_items = insert uid (insert conv_id (f item) wrap) cm.uid2conv_items;
    }
  ]
]

-- The arguments that SendMsg puts into the transaction.
pub record SendArgs : Type 0 where
  pub conv_id : String
  pub msg_seq : ℕ
  pub msg_id : ℕ
  pub last_ts : ℕ
  pub send_uid : String
  pub members : List String

unfoldable pub advance : SendArgs → Conversation → Conversation
advance args conv = record conv {
  last_msg_id = if ltb conv.last_msg_id args.msg_id then args.msg_id else conv.last_msg_id;
  msg_seq = if ltb conv.msg_seq args.msg_seq then args.msg_seq else conv.msg_seq;
  last_active_ts =
      if ltb conv.last_active_ts args.last_ts then args.last_ts else conv.last_active_ts;
}

unfoldable pub note_sent : SendArgs → String → MemberConv → MemberConv
unfolding unread
note_sent args uid item =
    if str_eq uid args.send_uid
    then record item {
      uts = args.last_ts;
      browse_msg_seq =
          if ltb item.browse_msg_seq args.msg_seq then args.msg_seq else item.browse_msg_seq;
      unread_count = 0;
    }
    else record item { uts = args.last_ts; unread_count = unread args.msg_seq item.browse_msg_seq }

unfoldable pub note_members : SendArgs → List String → ConvManager → ConvManager
unfolding note_sent update_item
note_members args [] cm = cm
note_members args (uid ∷ uids) cm =
    note_members args uids (update_item (note_sent args uid) uid args.conv_id cm)

-- One round of the loop. A transaction whose arguments have other types is passed over, and SendMsg
-- makes none.
unfoldable pub receive_mq_send_async_result : ConvManager → SendArgs → Bool → ConvManager
unfolding update_conv advance note_members
receive_mq_send_async_result cm args failed =
    if failed
    then cm
    else note_members args (args.members ++ args.send_uid ∷ [])
        (update_conv (advance args) args.conv_id cm)

unfoldable pub msg_item_of : MsgForwardPayload → MsgItemInMem
msg_item_of pd = record {
  msg_id = pd.msg_id;
  conv_id = pd.conv_id;
  sender = pd.sender;
  receiver = pd.receiver;
  chat_type = pd.chat_type;
  msg_type = pd.msg.content.type;
  content = pd.msg.content;
  sender_info = pd.msg.sender_info;
  meg_seq = pd.msg_seq;
  cts = pd.cts;
}

-- The loop over PopFront. A round shortens the queue by one, so its length is fuel enough.
unfoldable pub pop_while_full : ℕ → ℕ → List MsgItemInMem → List MsgItemInMem
pop_while_full zero msg_cap queue = queue
pop_while_full (suc fuel) msg_cap [] = []
pop_while_full (suc fuel) msg_cap (x ∷ queue) =
    let rest = pop_while_full fuel msg_cap queue in
    if ltb msg_cap (length (x ∷ queue)) then rest else x ∷ queue

unfoldable pub push_recent : ℕ → MsgItemInMem → List MsgItemInMem → List MsgItemInMem
unfolding pop_while_full
push_recent msg_cap item queue =
    let pushed = queue ++ item ∷ [] in pop_while_full (length pushed) msg_cap pushed

unfoldable pub last_msg_of : MsgForwardPayload → LastMsg
last_msg_of pd = record {
  msg_id = pd.msg_id;
  sender_info = pd.msg.sender_info;
  content = pd.msg.content;
}

unfoldable pub store_msg : ℕ → MsgForwardPayload → Conversation → Conversation
unfolding push_recent msg_item_of last_msg_of
store_msg msg_cap pd conv =
    let kept = push_recent msg_cap (msg_item_of pd) conv.recently_msgs in
    if leb conv.last_msg_id pd.msg_id
    then record conv {
      last_msg_id = pd.msg_id;
      last_msg = some (last_msg_of pd);
      recently_msgs = kept;
    }
    else record conv { recently_msgs = kept }

-- The unread counts of those that have the conversation in memory.
unfoldable pub collect_unread :
    ConvManager → String → List String → List (String × ℕ) → List (String × ℕ)
collect_unread cm conv_id [] acc = acc
collect_unread cm conv_id (uid ∷ uids) acc =
    collect_unread cm conv_id uids (elim (lookup uid cm.uid2conv_items) [
      | none ↦ acc
      | some wrap ↦ elim (lookup conv_id wrap) [
        | none ↦ acc
        | some item ↦ insert uid item.unread_count acc
      ]
    ])

-- The last message of the answer is set when the stored one is not older than the known one.
unfoldable pub stored_result :
    Option Conversation → MsgForwardPayload → List (String × ℕ) → MsgStoredResult
unfolding last_msg_of
stored_result none pd counts = record {
  last_msg = none;
  uid2unread_count = counts;
  last_active_ts = 0;
}
stored_result (some conv) pd counts =
    if leb conv.last_msg_id pd.msg_id
    then record {
      last_msg = some (last_msg_of pd);
      uid2unread_count = counts;
      last_active_ts = conv.last_active_ts;
    }
    else record { last_msg = none; uid2unread_count = counts; last_active_ts = 0 }

unfoldable pub on_msg_stored : ConvManager → MsgForwardPayload → ConvManager × MsgStoredResult
unfolding update_conv store_msg collect_unread stored_result
on_msg_stored cm pd =
    let cm' = update_conv (store_msg cm.msg_cap pd) pd.conv_id cm in
    (
      cm',
      stored_result (lookup pd.conv_id cm.conv_id2items) pd
          (collect_unread cm' pd.conv_id (pd.sender ∷ pd.members) []),
    )

-- `seq` is what the repository's ClearUnread returns, `none` for an error, which is returned.
unfoldable pub clear_unread : ConvManager → String → String → Option ℕ → ConvManager × Bool
unfolding update_item
clear_unread cm conv_id uid none = (cm, false)
clear_unread cm conv_id uid (some seq) = (
  update_item (λ item. record item { browse_msg_seq = seq; unread_count = 0 }) uid conv_id cm,
  true,
)
