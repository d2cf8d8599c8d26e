-- ===== src/Handler/Examples.antt =====
-- The frame handler on concrete batches: the connection is the list of what it was given, and the
-- topic server counts the messages that it takes.
use sdim.Base.Ints.{pos}
use sdim.Codec.Wire.{encode}
use sdim.Engine.Traffic.{Action}
use sdim.Conn.Types.{ClientConnWrap, ClientConn}
use sdim.Handler.Guard.{AllPermitted, handle-AllPermitted}
use sdim.Handler.Tasks.{
  send_frames, handle_send_frame, send_decoded, pass_on, continue_task, run_task, after_ack,
  write_send_ack_frame, write_coded,
}
use sdim.Handler.Pings.{Writes, Ponged, handle-Ponged}
use sdim.Handler.Acks.{Queues, Answers}
use sdim.Handler.Answers.{send_frames-Answered}
use sdim.Handler.Groups.{pings_of}
use sdim.Handler.Frames.{filter, GroupByIt, handle}
use sdim.Base.{true, false, List, ℕ, some, ◌++◌, String, ◌≡◌, refl, ◌∷◌, ◌==◌, [], suc, ◌+◌, Option}
use sdim.Base.Maps.{assoc_map}
use sdim.Base.Slices.{usli}
use sdim.Codec.Frame.{ping, send, Frame, zero_req_id, decode_payload, new_s2c_frame, encode_payload}
use sdim.Handler.Types.{answered, SendFrame, Calls, Served, Task, conn_task}

abbrev Log : Type 0
Log = List (List ℕ)

abbrev draft : SendFrame
draft = record {
  conv_id = "a:b";
  sender = "a";
  receiver = "b";
  chat_type = 1;
  send_mills = 1;
  sign = "";
  ttl = pos 0;
  client_unique_id = "x";
  msg_content = some (record { type = 1; content = "hi"; custom = ""; extra = "" });
}

abbrev calls : Calls Log ℕ
calls = record {
  write = λ s b. (s ++ b ∷ [], true);
  async_write = λ s b. s ++ b ∷ [];
  close = λ s. s;
  parse_conn = λ b. some (record { uid = "a"; ctype = 1; ts_mills = 5 });
  parse_send = λ b. some draft;
  fmt_conn_ack = λ ack. some (ack.resp_code ∷ []);
  fmt_send_ack = λ ack. some (ack.data_body.msg_seq ∷ []);
  uuid_from_bytes = λ id. some "id";
  string_of = λ id. "";
  user_state = λ req_id uid. answered tt;
  msg_coming = λ t req_id req. (
    suc t,
    answered (record {
      msg_id = 100 + t;
      client_unique_id = req.client_unique_id;
      conv_id = req.conv_id;
      msg_seq = suc t;
      send_ts = 7;
    }),
  );
  is_prod = true;
}

calls-Queues : Queues calls (λ log. log)
calls-Queues = record { queued-async_write = λ s b. refl; queued-close = λ s. refl }

calls-Writes : Writes calls (λ log. log)
calls-Writes = record {
  write-succeeds = λ s b. refl;
  written-write = λ s b. refl;
  written-close = λ s. refl;
}

abbrev frame : ℕ → Frame
frame ftype = record {
  header = record { magic = 0xcafe; version = 1; ftype = ftype; payload_len = 18; check_sum = 0 };
  payload = record { payload_protocol = 1; req_id = zero_req_id; body = 1 ∷ [] };
}

abbrev groups : GroupByIt Frame
groups = record {
  group_by_it = λ xs key k. filter (λ x. key x == k) xs;
  group_by_it-key = λ xs key k. refl;
}

abbrev server : Served Log (List (String × ClientConnWrap)) (List (String × ClientConn)) ℕ
server = record {
  io = [];
  cm = record {
    uid2conn = [];
    conn_id2conn = [];
    settings = record {
      master_types = 1 ∷ [];
      max_slave_conns = 1;
      auth_timeout = 10;
      ping_interval = 5;
      ping_lost_times = 3;
    };
    closed = false;
    offers = [];
    closes = [];
  };
  remote = 0;
}

abbrev batch : List Frame
batch = frame send ∷ frame ping ∷ frame send ∷ []

abbrev after :
    Served Log (List (String × ClientConnWrap)) (List (String × ClientConn)) ℕ
    × Action
    × Option Task
after = handle calls assoc_map assoc_map usli groups "c" 9 true batch 8 true server

send_frames-Answered_example :
    (acks : List (List ℕ)) × ((send_frames calls batch server).0.io ≡ [] ++ acks)
    × ((send_frames calls batch server).0.cm ≡ server.cm)
    × Answers calls batch 0
        (send_frames calls batch server).0.remote
        acks
        (send_frames calls batch server).1
send_frames-Answered_example = send_frames-Answered calls-Queues batch server

-- Both messages are taken, and the second acknowledgement comes after the first.
both_taken : (send_frames calls batch server).0.remote ≡ 2
unfolding send_frames handle_send_frame send_decoded pass_on continue_task decode_payload after_ack
    write_send_ack_frame write_coded new_s2c_frame encode_payload encode
both_taken = refl

handle-Ponged_example :
    Ponged calls-Writes assoc_map assoc_map usli groups "c" 9 (pings_of batch) server after.0
handle-Ponged_example =
    handle-Ponged calls-Writes assoc_map assoc_map usli groups "c" 9 batch 8 true server

handle-AllPermitted_example :
    AllPermitted calls assoc_map assoc_map usli groups "c" 9 true batch after.2
    × ((fr : Frame) (sn' : ℕ)
          (s' : Served Log (List (String × ClientConnWrap)) (List (String × ClientConn)) ℕ)
        → (run_task calls assoc_map assoc_map usli "c" 9 (conn_task fr sn') s').0.remote
          ≡ s'.remote)
handle-AllPermitted_example =
    handle-AllPermitted calls assoc_map assoc_map usli groups "c" 9 true batch 8 true server
