-- ===== src/Handler/Acks.antt =====
-- What one Send frame comes to, said without the handler's own steps: how it is read, what is asked
-- of the topic server, and what is acknowledged.
use sdim.Base.{
  none, some, List, ℕ, ◌≡◌, [], ◌++◌, ◌≢◌, ◌∷◌, String, ◌≤◌, ◌<◌, ◌⊎◌, ◌+◌, length, if◌then◌else◌,
}
use sdim.Codec.Frame.{Frame, send}
use sdim.Codec.Layout.{layout}
use sdim.Handler.Types.{
  next_frame, returned, panicked, Calls, SendFrameAck, Flow, SendFrame, MsgComingReq, MsgComingResp,
  RpcAnswer, answered, call_failed, not_ok,
}

-- The request for a message has the message's own fields.
pub record Asks (frb : SendFrame) (req : MsgComingReq) : Type 0 where
  pub same_conv_id : req.conv_id ≡ frb.conv_id
  pub same_sender : req.sender ≡ frb.sender
  pub same_receiver : req.receiver ≡ frb.receiver
  pub same_chat_type : req.chat_type ≡ frb.chat_type
  pub same_ttl : req.ttl ≡ frb.ttl
  pub same_client_unique_id : req.client_unique_id ≡ frb.client_unique_id
  pub same_msg_content : frb.msg_content ≡ some req.msg_content

-- AsyncWrite queues the bytes on the connection, and a close writes nothing.
pub record Queues {S T : Type 0} (calls : Calls S T) (queued : S → List (List ℕ)) : Type 0 where
  pub queued-async_write :
      (s : S) (b : List ℕ) → queued (calls.async_write s b) ≡ queued s ++ b ∷ []
  pub queued-close : (s : S) → queued (calls.close s) ≡ queued s

module _ {S T : Type 0} (calls : Calls S T) where
  -- The id of a request: that of the frame, read as a UUID or else as text.
  abbrev pub Named : Frame → String → Type 0
  Named fr id =
      (calls.uuid_from_bytes fr.payload.req_id ≡ some id)
      ⊎ ((calls.uuid_from_bytes fr.payload.req_id ≡ none)
          × (id ≡ calls.string_of fr.payload.req_id))

  -- What is acknowledged, and whether the task goes on, by the answer of the topic server. A
  -- message that is taken has the server's id, sequence and time; the others get an error code.
  abbrev pub Reports : SendFrame → RpcAnswer MsgComingResp → SendFrameAck → Flow → Type 0
  Reports frb (answered rd) ack flow =
      (flow ≡ next_frame)
      × (ack.resp_code ≡ 0)
      × (ack.err_code ≡ "")
      × (ack.err_msg ≡ "")
      × (ack.data_body.client_unique_id ≡ rd.client_unique_id)
      × (ack.data_body.msg_id ≡ rd.msg_id)
      × (ack.data_body.conv_id ≡ rd.conv_id)
      × (ack.data_body.msg_seq ≡ rd.msg_seq)
      × (ack.data_body.send_ts ≡ rd.send_ts)
  Reports frb (call_failed e) ack flow =
      (flow ≡ returned)
      × (ack.resp_code ≡ 2000)
      × (ack.err_code ≡ "")
      × (ack.err_msg ≡ "Server Internal Error")
      × (ack.data_body.client_unique_id ≡ frb.client_unique_id)
      × (ack.data_body.conv_id ≡ frb.conv_id)
      × (ack.data_body.msg_id ≡ 0)
      × (ack.data_body.msg_seq ≡ 0)
  Reports frb (not_ok code msg) ack flow =
      (flow ≡ returned)
      × (ack.resp_code ≡ 3000)
      × (ack.err_code ≡ code)
      × (ack.err_msg ≡ (if calls.is_prod then "Inner Response Error" else msg))
      × (ack.data_body.client_unique_id ≡ frb.client_unique_id)
      × (ack.data_body.conv_id ≡ frb.conv_id)
      × (ack.data_body.msg_id ≡ 0)
      × (ack.data_body.msg_seq ≡ 0)

  -- The bytes of an acknowledgement, if there are any: a frame of type 6 with the protocol and the
  -- request id of the Send frame, unless the acknowledgement cannot be formatted or is too large.
  pub data Sent (fr : Frame) (ack : SendFrameAck) : List (List ℕ) → Type 0 where
    sent :
        (body : List ℕ)
        → calls.fmt_send_ack ack ≡ some body
        → 17 + length body ≤ 1048576
        → Sent fr ack (layout 6 fr.payload.payload_protocol fr.payload.req_id body ∷ [])
    unformatted : calls.fmt_send_ack ack ≡ none → Sent fr ack []
    too_large :
        (body : List ℕ)
        → calls.fmt_send_ack ack ≡ some body
        → 1048576 < 17 + length body
        → Sent fr ack []

  -- What one Send frame comes to: the topic server before and after it, its acknowledgement, and
  -- whether the task goes on. The server is asked once for each message that can be read and has a
  -- content, and for no other.
  pub data Turn (fr : Frame) (t : T) : T → List (List ℕ) → Flow → Type 0 where
    unsupported : fr.payload.payload_protocol ≢ 1 → Turn fr t t [] panicked
    unparsed :
        fr.payload.payload_protocol ≡ 1
        → calls.parse_send fr.payload.body ≡ none
        → Turn fr t t [] returned
    empty :
        (frb : SendFrame)
        → fr.payload.payload_protocol ≡ 1
        → calls.parse_send fr.payload.body ≡ some frb
        → frb.msg_content ≡ none
        → Turn fr t t [] panicked
    asked :
        (frb : SendFrame) (id : String) (req : MsgComingReq) (t' : T)
        (answer : RpcAnswer MsgComingResp) (ack : SendFrameAck) (mine : List (List ℕ)) (flow : Flow)
        → fr.payload.payload_protocol ≡ 1
        → calls.parse_send fr.payload.body ≡ some frb
        → Named fr id
        → Asks frb req
        → calls.msg_coming t id req ≡ (t', answer)
        → Reports frb answer ack flow
        → Sent fr ack mine
        → Turn fr t t' mine flow

  -- How the topic server, the acknowledgements and the end of a task come of its frames.
  pub data Answers : List Frame → T → T → List (List ℕ) → Flow → Type 0 where
    done : (t : T) → Answers [] t t [] next_frame
    passed_over :
        (fr : Frame) (frs : List Frame) (t t' : T) (acks : List (List ℕ)) (flow : Flow)
        → fr.header.ftype ≢ send
        → Answers frs t t' acks flow
        → Answers (fr ∷ frs) t t' acks flow
    went_on :
        (fr : Frame) (frs : List Frame) (t t' t'' : T) (mine acks : List (List ℕ)) (flow : Flow)
        → fr.header.ftype ≡ send
        → Turn fr t t' mine next_frame
        → Answers frs t' t'' acks flow
        → Answers (fr ∷ frs) t t'' (mine ++ acks) flow
    stopped :
        (fr : Frame) (frs : List Frame) (t t' : T) (mine : List (List ℕ)) (flow : Flow)
        → fr.header.ftype ≡ send
        → flow ≢ next_frame
        → Turn fr t t' mine flow
        → Answers (fr ∷ frs) t t' mine flow
