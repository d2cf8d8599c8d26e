-- ===== src/Handler/Types.antt =====
-- The frame bodies and error codes of fcodec/pre_include.go that the frame handler reads and
-- writes, the request and response of the topic server, and what the handler calls.
use sdim.Base.Ints.{ℤ}
use sdim.Base.{ℕ, String, List, Option, Bool, if◌then◌else◌, ◌==◌}
use sdim.Topic.Types.{MsgContent}
use sdim.Conn.Types.{ConnManager}
use sdim.Codec.Frame.{Frame}

pub record ConnFrame : Type 0 where
  pub uid : String
  pub ctype : ℕ
  pub ts_mills : ℕ

pub record ConnAckFrame : Type 0 where
  pub resp_code : ℕ
  pub err_code : String
  pub err_msg : String
  pub time_diff : ℤ
  pub sign_key : String

pub record SendFrame : Type 0 where
  pub conv_id : String
  pub sender : String
  pub receiver : String
  pub chat_type : ℕ
  pub send_mills : ℕ
  pub sign : String
  pub ttl : ℤ
  pub client_unique_id : String
  pub msg_content : Option MsgContent

pub record SendFrameAckBody : Type 0 where
  pub client_unique_id : String
  pub msg_id : ℕ
  pub conv_id : String
  pub msg_seq : ℕ
  pub send_ts : ℕ

pub record SendFrameAck : Type 0 where
  pub resp_code : ℕ
  pub err_code : String
  pub err_msg : String
  pub data_body : SendFrameAckBody

abbrev pub no_error : ℕ
no_error = 0

abbrev pub rpc_call_err : ℕ
rpc_call_err = 2000

abbrev pub rpc_resp_err : ℕ
rpc_resp_err = 3000

-- A code that the map does not know has the empty text.
unfoldable pub transfer_desc : ℕ → String
transfer_desc ec =
    if ec == rpc_call_err
    then "Server Internal Error"
    else if ec == rpc_resp_err
    then "Inner Response Error"
    else ""

pub record MsgComingReq : Type 0 where
  pub conv_id : String
  pub sender : String
  pub receiver : String
  pub chat_type : ℕ
  pub ttl : ℤ
  pub client_unique_id : String
  pub msg_content : MsgContent

pub record MsgComingResp : Type 0 where
  pub msg_id : ℕ
  pub client_unique_id : String
  pub conv_id : String
  pub msg_seq : ℕ
  pub send_ts : ℕ

-- What a remote call comes to: the call failed, the answer says an error, or it carries a result.
pub data RpcAnswer (A : Type 0) : Type 0 where
  call_failed : String → RpcAnswer A
  not_ok : String → String → RpcAnswer A
  answered : A → RpcAnswer A

-- What the handler calls that is not its own: the writes and the close of the client's gnet
-- connection, JSON, the ids of requests, the user server and the topic server, whose state is `T`.
-- AsyncWrite does not report a failure to the handler.
pub record Calls (S T : Type 0) : Type 0 where
  pub write : S → List ℕ → S × Bool
  pub async_write : S → List ℕ → S
  pub close : S → S
  pub parse_conn : List ℕ → Option ConnFrame
  pub parse_send : List ℕ → Option SendFrame
  pub fmt_conn_ack : ConnAckFrame → Option (List ℕ)
  pub fmt_send_ack : SendFrameAck → Option (List ℕ)
  pub uuid_from_bytes : List ℕ → Option String
  pub string_of : List ℕ → String
  pub user_state : String → String → RpcAnswer Unit
  pub msg_coming : T → String → MsgComingReq → T × RpcAnswer MsgComingResp
  pub is_prod : Bool

-- The connection, the connection manager and the topic server.
pub record Served (S U I T : Type 0) : Type 0 where
  pub io : S
  pub cm : ConnManager U I
  pub remote : T

-- What is left to the pool: the login of a connection, with the time of its frame, or a batch.
pub data Task : Type 0 where
  conn_task : Frame → ℕ → Task
  frames_task : List Frame → Task

-- How a frame of a task ends: the next one, the return of the task, or a panic, which ends it too.
pub data Flow : Type 0 where
  next_frame returned panicked : Flow
