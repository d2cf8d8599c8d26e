-- ===== src/Stored/Receive.antt =====
-- msgreceive/msg_receive.go, and ReceivePd2forwardPd of payload/msgpd.
use sdim.Topic.Types.{SenderInfo, Msg, MsgSendReceivePayload, MsgForwardPayload}
use sdim.Topic.Load.{UnitInfo}
use sdim.Handler.Types.{RpcAnswer, call_failed, not_ok, answered}
use sdim.Base.Ints.{ℤ, pos, negsuc}
use sdim.Base.{
  ℕ, ◌+◌, String, List, [], ◌∷◌, Option, none, some, Bool, true, false, ◌||◌, leb, ◌==◌,
  if◌then◌else◌, str_eq,
}

-- msgpojo.Msg, a row of the table of messages.
pub record MsgRow : Type 0 where
  pub id : ℕ
  pub conv_id : String
  pub chat_type : ℕ
  pub msg_type : ℕ
  pub sender : String
  pub receiver : String
  pub seq : ℕ
  pub msg_body : String
  pub expired_at : ℤ
  pub cts : ℕ
  pub uts : ℕ

-- What the queue is told of a message: that it is done, or to bring it again after a time.
pub data Reply : Type 0 where
  finish : Reply
  requeue : ℕ → Reply

-- What the handler calls: the user server, the repository, the queue, JSON, and the pool, which may
-- refuse. `fmt_msg` is json.Fmt, whose error is ignored.
pub record Env (D : Type 0) : Type 0 where
  pub user_unit_info : String → String → RpcAnswer UnitInfo
  pub upsert_msg : D → MsgRow → D × Bool
  pub publish : MsgForwardPayload → Bool
  pub fmt_msg : Msg → Option String
  pub submit : Bool
  pub now : ℕ
  pub now_sec : ℕ

-- The database, and what has been published, latest first.
pub record Store (D : Type 0) : Type 0 where
  pub db : D
  pub published : List MsgForwardPayload

abbrev pub max_retry_times : ℕ
max_retry_times = 1

-- chatmodel.IsUserSend
unfoldable pub is_user_send : ℕ → Bool
is_user_send st = st == 0 || st == 1

-- -1 is read once, 0 never expires.
unfoldable pub expire_at : ℤ → ℕ → ℤ
expire_at (pos n) now_sec = if n == 0 then pos 0 else pos (now_sec + n)
expire_at (negsuc n) now_sec = negsuc 0

unfoldable pub msg_pd2pojo : MsgSendReceivePayload → String → ℕ → ℕ → MsgRow
unfolding expire_at
msg_pd2pojo pd bodies now now_sec = record {
  id = pd.msg_id;
  conv_id = pd.conv_id;
  chat_type = pd.chat_type;
  msg_type = pd.msg_content.type;
  sender = pd.sender;
  receiver = pd.receiver;
  seq = pd.msg_seq;
  msg_body = bodies;
  expired_at = expire_at pd.ttl now_sec;
  cts = now;
  uts = now;
}

unfoldable pub receive_pd2forward_pd : MsgSendReceivePayload → Msg → ℕ → MsgForwardPayload
receive_pd2forward_pd rpd msg mills = record {
  req_id = rpd.req_id;
  conv_id = rpd.conv_id;
  conv_type = rpd.conv_type;
  conv_last_active_ts = rpd.conv_last_active_ts;
  msg_id = rpd.msg_id;
  client_unique_id = rpd.client_unique_id;
  msg_seq = rpd.msg_seq;
  chat_type = rpd.chat_type;
  sender = rpd.sender;
  receiver = rpd.receiver;
  members = rpd.members;
  send_ts = rpd.send_ts;
  ttl = rpd.ttl;
  msg = msg;
  cts = mills;
}

-- The sender's info, or the replies with which the task returns.
pub data Found : Type 0 where
  found : SenderInfo → Found
  given_up : List Reply → Found

unfoldable pub sender_info_of : ℕ → RpcAnswer UnitInfo → Found
sender_info_of sender_type (call_failed e) = given_up (requeue 500 ∷ [])
sender_info_of sender_type (not_ok code msg) = given_up (requeue 100 ∷ [])
sender_info_of sender_type (answered info) =
    if str_eq info.uid ""
    then given_up []
    else found
        (record { sender_type = sender_type; nickname = info.nickname; avatar = info.avatar })

module _ {D : Type 0} (env : Env D) where
  unfoldable pub find_sender : MsgSendReceivePayload → Found
  unfolding is_user_send sender_info_of
  find_sender pd =
      if is_user_send pd.sender_type
      then sender_info_of pd.sender_type (env.user_unit_info pd.req_id pd.sender)
      else found (record { sender_type = pd.sender_type; nickname = ""; avatar = "" })

  unfoldable pub bodies_of : Msg → String
  bodies_of msg = elim (env.fmt_msg msg) [ none ↦ "" | some bodies ↦ bodies ]

  -- The end of the task, on what UpsertMsg answers.
  unfoldable pub upsert_done : MsgForwardPayload → Store D → D × Bool → Store D × List Reply
  upsert_done fpd w (db, false) = (record w { db = db }, requeue 100 ∷ [])
  upsert_done fpd w (db, true) =
      if env.publish fpd
      then (record { db = db; published = fpd ∷ w.published }, finish ∷ [])
      else (record w { db = db }, requeue 100 ∷ finish ∷ [])

  unfoldable pub with_sender : MsgSendReceivePayload → Store D → Found → Store D × List Reply
  unfolding bodies_of msg_pd2pojo receive_pd2forward_pd upsert_done
  with_sender pd w (given_up replies) = (w, replies)
  with_sender pd w (found sender_info) =
      let msg : Msg = record { sender_info = sender_info; content = pd.msg_content } in
      upsert_done (receive_pd2forward_pd pd msg env.now) w
        (env.upsert_msg w.db (msg_pd2pojo pd (bodies_of msg) env.now env.now_sec))

  -- The handling of a delivery, with the replies that the queue gets, in order. A body that
  -- json.Parse refuses is `none`; `attempts` is what the queue counts.
  unfoldable pub handle_message : ℕ → Option MsgSendReceivePayload → Store D → Store D × List Reply
  unfolding with_sender find_sender
  handle_message attempts none w = (w, finish ∷ [])
  handle_message attempts (some pd) w =
      if leb (max_retry_times + 1) attempts
      then (w, finish ∷ [])
      else if env.submit
      then with_sender pd w (find_sender pd)
      else (w, requeue 500 ∷ [])
