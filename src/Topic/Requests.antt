-- ===== src/Topic/Requests.antt =====
-- micros/topicsrv/internal/handlers: the RPC request of the engine server (topic_handler.go), the
-- requests of clients on conversations (conv_handler.go), and the forwarded messages of the queue
-- (msg_forward.go), with the conversions of core/conversation_manager.go.
use sdim.Topic.Types.{MsgComingParam, MsgForwardPayload, MsgStoredResult, ConvManager}
use sdim.Topic.Load.{Services, World, Handled, HandleError, handled, failed, panicked}
use sdim.Topic.Incoming.{on_msg_coming, conv_id_of}
use sdim.Topic.Deliver.{on_msg_stored, clear_unread}
use sdim.Handler.Types.{MsgComingReq, MsgComingResp}
use sdim.Push.Bodies.{ConvLastMsgUpdateEventPayload}
use sdim.Base.{
  ℕ, String, List, ◌∷◌, Option, none, some, Bool, false, not, ◌||◌, ◌&&◌, ◌==◌, str_eq,
  if◌then◌else◌,
}

abbrev pub group_chat : ℕ
group_chat = 2

abbrev pub danmaku : ℕ
danmaku = 4

unfoldable pub is_valid_conv_type : ℕ → Bool
is_valid_conv_type ct = ct == 1 || (ct == 2 || ct == 3)

unfoldable pub is_danmaku_type : ℕ → Bool
is_danmaku_type chat_type = chat_type == danmaku

unfoldable pub msg_coming_param_from : MsgComingReq → String → Bool → MsgComingParam
msg_coming_param_from req req_id is_conv = record {
  conv_id = req.conv_id;
  sender = req.sender;
  receiver = req.receiver;
  chat_type = req.chat_type;
  req_id = req_id;
  ttl = req.ttl;
  client_unique_id = req.client_unique_id;
  msg_content = req.msg_content;
  is_conv_type = is_conv;
}

unfoldable pub msg_coming_result_to : ℕ → String → ℕ → String → ℕ → MsgComingResp
msg_coming_result_to msg_id conv_id msg_seq client_unique_id now = record {
  msg_id = msg_id;
  client_unique_id = client_unique_id;
  conv_id = conv_id;
  msg_seq = msg_seq;
  send_ts = now;
}

-- What the RPC handler returns.
pub data Coming : Type 0 where
  came : MsgComingResp → Coming
  param_invalid : Coming
  not_handled : HandleError → Coming
  crashed : Coming

unfoldable pub coming_of : ℕ → String → String → ℕ → Handled → Coming
unfolding msg_coming_result_to
coming_of msg_id conv_id client_unique_id now (handled seq) =
    came (msg_coming_result_to msg_id conv_id seq client_unique_id now)
coming_of msg_id conv_id client_unique_id now (failed e) = not_handled e
coming_of msg_id conv_id client_unique_id now panicked = crashed

module _ {D : Type 0} (sv : Services D) where
  -- `is_conv` says whether the chat type has conversations.
  unfoldable pub coming_with : MsgComingReq → String → Bool → ℕ → ℕ → ℕ → World D → World D × Coming
  unfolding coming_of msg_coming_param_from
  coming_with rr req_id is_conv msg_id now secs w =
      let pa = msg_coming_param_from rr req_id is_conv in
      let (w', result) = on_msg_coming sv pa msg_id now secs w in
      (w', coming_of msg_id (conv_id_of sv pa) pa.client_unique_id now result)

  unfoldable pub handle_msg_coming : MsgComingReq → String → ℕ → ℕ → ℕ → World D → World D × Coming
  unfolding is_valid_conv_type is_danmaku_type coming_with
  handle_msg_coming rr req_id msg_id now secs w =
      if not (is_valid_conv_type rr.chat_type || is_danmaku_type rr.chat_type)
      then (w, param_invalid)
      else if rr.chat_type == group_chat && str_eq rr.conv_id ""
      then (w, param_invalid)
      else coming_with rr req_id (is_valid_conv_type rr.chat_type) msg_id now secs w

unfoldable pub last_msg_event : MsgForwardPayload → MsgStoredResult → ConvLastMsgUpdateEventPayload
last_msg_event msp msr = record {
  conv_id = msp.conv_id;
  conv_type = msp.conv_type;
  members = msp.sender ∷ msp.members;
  last_msg = msr.last_msg;
  last_active_ts = msr.last_active_ts;
  uid2unread_count = msr.uid2unread_count;
}

-- A forwarded message at the topic server. `publish` says whether the event can be formatted and is
-- taken by the queue; a body that json.Parse refuses is `none`.
unfoldable pub handle_stored_msg :
    (ConvLastMsgUpdateEventPayload → Bool)
    → Option MsgForwardPayload
    → ConvManager × List ConvLastMsgUpdateEventPayload
    → ConvManager × List ConvLastMsgUpdateEventPayload
unfolding on_msg_stored last_msg_event
handle_stored_msg publish none (cm, sent) = (cm, sent)
handle_stored_msg publish (some msp) (cm, sent) =
    let (cm', msr) = on_msg_stored cm msp in
    let pd = last_msg_event msp msr in (cm', if publish pd then pd ∷ sent else sent)

-- HandleClearUnreadCount: false for an error. `store` is ClearUnread of the repository.
unfoldable pub handle_clear_unread_count :
    (String → String → Option ℕ) → String → String → ConvManager → ConvManager × Bool
unfolding clear_unread
handle_clear_unread_count store conv_id uid cm =
    if str_eq conv_id ""
    then (cm, false)
    else if str_eq uid ""
    then (cm, false)
    else clear_unread cm conv_id uid (store conv_id uid)

-- convList, over one of the two lists of the manager; `none` is an error.
unfoldable pub conv_list_of : {A : Type 0} → (String → A) → String → Option A
conv_list_of list_func uid = if str_eq uid "" then none else some (list_func uid)
