-- ===== src/Handler/Tasks.antt =====
-- The tasks that the frame handler leaves to the pool: handleConnFrame, the loop over Send frames,
-- and the two writers of acknowledgements.
use sdim.Base.Ints.{minus}
use sdim.Handler.Types.{
  ConnAckFrame, SendFrameAck, SendFrame, ConnFrame, MsgComingReq, MsgComingResp, RpcAnswer, Calls,
  Served, Task, Flow, no_error, rpc_call_err, rpc_resp_err, transfer_desc, call_failed, not_ok,
  answered, conn_task, frames_task, next_frame, returned, panicked,
}
use sdim.Topic.Types.{MsgContent}
use sdim.Conn.Types.{Handle, ClientConn, ClientConnWrap, ConnManager}
use sdim.Conn.Ops.{modify_after_authed}
use sdim.Base.Maps.{MapOf}
use sdim.Base.Slices.{Usli}
use sdim.Codec.Frame.{
  Frame, new_s2c_frame, decode_payload, conn_ack, send_ack, send, Coded, coded, code_err, panics,
}
use sdim.Codec.Wire.{encode, ok, err}
use sdim.Base.{ℕ, String, List, [], ◌∷◌, Option, none, some, if◌then◌else◌, ◌==◌, Bool}

unfoldable pub extract_req_id : (List ℕ → Option String) → (List ℕ → String) → Frame → String
extract_req_id from_bytes string_of fr = elim (from_bytes fr.payload.req_id) [
  | none ↦ string_of fr.payload.req_id
  | some uuid ↦ uuid
]

-- The frames of an acknowledgement, and the writing of one: a frame that cannot be made or encoded
-- closes the connection instead.
unfoldable pub write_coded : {S : Type 0} → (S → List ℕ → S) → (S → S) → Coded Frame → S → S × Flow
write_coded async_write close code_err s = (close s, next_frame)
write_coded async_write close panics s = (s, panicked)
write_coded async_write close (coded fr) s = elim (encode fr) [
  | err e ↦ (close s, next_frame)
  | ok fr_bytes ↦ (async_write s fr_bytes, next_frame)
]

unfoldable pub coming_req : SendFrame → MsgContent → MsgComingReq
coming_req frb content = record {
  conv_id = frb.conv_id;
  sender = frb.sender;
  receiver = frb.receiver;
  chat_type = frb.chat_type;
  ttl = frb.ttl;
  client_unique_id = frb.client_unique_id;
  msg_content = content;
}

-- The acknowledgement of a Send frame, by what the topic server answers.
unfoldable pub send_ack_of : SendFrame → RpcAnswer MsgComingResp → SendFrameAck
send_ack_of frb (call_failed e) = record {
  resp_code = rpc_call_err;
  err_code = "";
  err_msg = transfer_desc rpc_call_err;
  data_body = record {
    client_unique_id = frb.client_unique_id;
    msg_id = 0;
    conv_id = frb.conv_id;
    msg_seq = 0;
    send_ts = 0;
  };
}
send_ack_of frb (not_ok code msg) = record {
  resp_code = rpc_resp_err;
  err_code = code;
  err_msg = msg;
  data_body = record {
    client_unique_id = frb.client_unique_id;
    msg_id = 0;
    conv_id = frb.conv_id;
    msg_seq = 0;
    send_ts = 0;
  };
}
send_ack_of frb (answered rd) = record {
  resp_code = no_error;
  err_code = "";
  err_msg = "";
  data_body = record {
    client_unique_id = rd.client_unique_id;
    msg_id = rd.msg_id;
    conv_id = rd.conv_id;
    msg_seq = rd.msg_seq;
    send_ts = rd.send_ts;
  };
}

-- An error returns from the task after its acknowledgement; a panic in the writer is one here.
unfoldable pub after_ack : {A : Type 0} → RpcAnswer A → Flow → Flow
after_ack (answered rd) flow = flow
after_ack (call_failed e) next_frame = returned
after_ack (call_failed e) flow = flow
after_ack (not_ok code msg) next_frame = returned
after_ack (not_ok code msg) flow = flow

unfoldable pub conn_ack_of : ConnFrame → ℕ → RpcAnswer Unit → ConnAckFrame
unfolding minus
conn_ack_of cf sn (call_failed e) = record {
  resp_code = rpc_call_err;
  err_code = "";
  err_msg = e;
  time_diff = minus sn cf.ts_mills;
  sign_key = "";
}
conn_ack_of cf sn (not_ok code msg) = record {
  resp_code = rpc_resp_err;
  err_code = code;
  err_msg = msg;
  time_diff = minus 0 0;
  sign_key = "";
}
conn_ack_of cf sn (answered u) = record {
  resp_code = no_error;
  err_code = "";
  err_msg = "";
  time_diff = minus sn cf.ts_mills;
  sign_key = "";
}

-- In production the text of an acknowledgement is that of its code.
unfoldable pub in_prod : Bool → SendFrameAck → SendFrameAck
unfolding transfer_desc
in_prod is_prod sfa = if is_prod then record sfa { err_msg = transfer_desc sfa.resp_code } else sfa

module _ {S T : Type 0} (calls : Calls S T) where
  unfoldable pub write_conn_ack_frame : ConnAckFrame → Frame → S → S × Flow
  unfolding write_coded
  write_conn_ack_frame caf fr io =
      write_coded calls.async_write calls.close
        (new_s2c_frame calls.fmt_conn_ack fr.payload conn_ack caf) io

  unfoldable pub write_send_ack_frame : SendFrameAck → Frame → S → S × Flow
  unfolding write_coded in_prod
  write_send_ack_frame sfa fr io =
      write_coded calls.async_write calls.close
        (new_s2c_frame calls.fmt_send_ack fr.payload send_ack (in_prod calls.is_prod sfa)) io

module _ {S U I T : Type 0} (calls : Calls S T) where
  -- A message without content panics before it is passed on: the log statement reads it.
  unfoldable pub pass_on :
      Frame → SendFrame → Option MsgContent → Served S U I T → Served S U I T × Flow
  unfolding extract_req_id coming_req send_ack_of after_ack write_send_ack_frame
  pass_on fr frb none s = (s, panicked)
  pass_on fr frb (some content) s =
      let req_id = extract_req_id calls.uuid_from_bytes calls.string_of fr in
      let (remote, answer) = calls.msg_coming s.remote req_id (coming_req frb content) in
      let (io, flow) = write_send_ack_frame calls (send_ack_of frb answer) fr s.io in
      (record s { io = io; remote = remote }, after_ack answer flow)

  -- What is done with a Send frame, on what DecodePayload answers.
  unfoldable pub send_decoded : Frame → Served S U I T → Coded SendFrame → Served S U I T × Flow
  unfolding pass_on
  send_decoded fr s code_err = (record s { io = calls.close s.io }, returned)
  send_decoded fr s panics = (s, panicked)
  send_decoded fr s (coded frb) = pass_on fr frb frb.msg_content s

  unfoldable pub handle_send_frame : Frame → Served S U I T → Served S U I T × Flow
  unfolding send_decoded
  handle_send_frame fr s = send_decoded fr s (decode_payload calls.parse_send fr.payload)

  -- The rest of the task, after one frame of it.
  unfoldable pub continue_task :
      (Served S U I T → Served S U I T × Flow) → Served S U I T × Flow → Served S U I T × Flow
  continue_task later (s, next_frame) = later s
  continue_task later (s, returned) = (s, returned)
  continue_task later (s, panicked) = (s, panicked)

  -- The loop of the task; a frame that is not a Send frame is passed over.
  unfoldable pub send_frames : List Frame → Served S U I T → Served S U I T × Flow
  unfolding handle_send_frame continue_task
  send_frames [] s = (s, next_frame)
  send_frames (fr ∷ frs) s =
      let later = send_frames frs in
      if fr.header.ftype == send then continue_task later (handle_send_frame fr s) else later s

  module _ (users : MapOf ClientConnWrap U) (ids : MapOf ClientConn I) (sl : Usli Handle) where
    -- `now` is the time at which the connection manager is called.
    unfoldable pub admitted :
        String → ConnFrame → ℕ → ConnManager U I → RpcAnswer Unit → ConnManager U I
    admitted conn_id cf now cm (call_failed e) = cm
    admitted conn_id cf now cm (not_ok code msg) = cm
    admitted conn_id cf now cm (answered u) =
        (modify_after_authed users ids sl cm
          (record { conn_id = conn_id; uid = cf.uid; ctype = cf.ctype }) now).0

    -- handleConnFrame, on what DecodePayload answers.
    unfoldable pub conn_decoded :
        String → Frame → ℕ → ℕ → Served S U I T → Coded ConnFrame → Served S U I T × Flow
    unfolding extract_req_id conn_ack_of write_conn_ack_frame admitted
    conn_decoded conn_id fr sn now s code_err = (record s { io = calls.close s.io }, returned)
    conn_decoded conn_id fr sn now s panics = (s, panicked)
    conn_decoded conn_id fr sn now s (coded cf) =
        let req_id = extract_req_id calls.uuid_from_bytes calls.string_of fr in
        let answer = calls.user_state req_id cf.uid in
        let (io, flow) = write_conn_ack_frame calls (conn_ack_of cf sn answer) fr s.io in
        (record s { io = io; cm = admitted conn_id cf now s.cm answer }, flow)

    unfoldable pub handle_conn_frame :
        String → Frame → ℕ → ℕ → Served S U I T → Served S U I T × Flow
    unfolding conn_decoded
    handle_conn_frame conn_id fr sn now s =
        conn_decoded conn_id fr sn now s (decode_payload calls.parse_conn fr.payload)

    unfoldable pub run_task : String → ℕ → Task → Served S U I T → Served S U I T × Flow
    unfolding handle_conn_frame send_frames
    run_task conn_id now (conn_task fr sn) s = handle_conn_frame conn_id fr sn now s
    run_task conn_id now (frames_task frs) s = send_frames frs s
