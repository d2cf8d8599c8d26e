-- ===== src/Push/Examples.antt =====
-- The queue handlers on concrete payloads: user "a" has the connections 7 and 9, of which 9 refuses
-- every write, and user "b" the connection 8.
use sdim.Base.Ints.{pos}
use sdim.Push.Reach.{copies, handle_forward-written}
use sdim.Push.Added.{introduce, handle_conv_add-written}
use sdim.Conn.Ops.{get_users_conns, get_user_conns}
use sdim.Topic.Load.{ConvAddEventPayload}
use sdim.Push.Handlers.{
  handle_forward, handle_conv_add, push_members, write_member, write_conns, and_then, forward_form,
  encoded,
}
use sdim.Topic.Types.{MsgForwardPayload}
use sdim.Conn.Types.{ConnManager, Handle, ClientConnWrap, ClientConn}
use sdim.Push.Bodies.{FindFirst, ForwardFrameBody, ConvUpdateFrame}
use sdim.Push.Delivery.{Delivers, flat_map}
use sdim.Base.Maps.{assoc_map, lookup, insert}
use sdim.Base.Slices.{usli}
use sdim.Base.{
  true, false, ℕ, List, String, Bool, ◌∷◌, Option, length, not, none, [], some, if◌then◌else◌, refl,
  ◌==◌, ◌++◌, str_eq, ◌≡◌, str_ne, map,
}

abbrev accepts : ℕ → Bool
accepts c = not (c == 9)

abbrev Log : Type 0
Log = List (ℕ × List ℕ)

abbrev answer : Bool → Log → ℕ → List ℕ → Log × Bool
answer true log c b = (log ++ (c, b) ∷ [], true)
answer false log c b = (log, false)

abbrev write : Log → ℕ → List ℕ → Log × Bool
write log c b = answer (accepts c) log c b

write-Delivers : Delivers write (λ log. log) accepts
write-Delivers = record {
  write-succeeds = λ log c b. succeeds (accepts c) log c b;
  written-write = λ log c b. appended (accepts c) log c b;
}
  where
    succeeds : (a : Bool) (log : Log) (c : ℕ) (b : List ℕ) → (answer a log c b).1 ≡ a
    succeeds true log c b = refl
    succeeds false log c b = refl

    appended :
        (a : Bool) (log : Log) (c : ℕ) (b : List ℕ)
        → (answer a log c b).0 ≡ (if a then log ++ (c, b) ∷ [] else log)
    appended true log c b = refl
    appended false log c b = refl

abbrev first : List String → (String → Bool) → Option String
first [] p = none
first (x ∷ xs) p = if p x then some x else first xs p

abbrev find_first : FindFirst
find_first = record {
  find_first_if = first;
  find_first_if-nil = λ p. refl;
  find_first_if-cons = λ x xs p. refl;
}

abbrev handle_of : String → ℕ → Handle
handle_of id c = record { conn_id = id; conn = c }

abbrev online : ConnManager (List (String × ClientConnWrap)) (List (String × ClientConn))
online = record {
  uid2conn =
      (
        "a",
        record {
          conns = handle_of "7" 7 ∷ handle_of "9" 9 ∷ [];
          masters = handle_of "7" 7 ∷ [];
          slaves = handle_of "9" 9 ∷ [];
        },
      )
      ∷ ("b", record { conns = handle_of "8" 8 ∷ []; masters = handle_of "8" 8 ∷ []; slaves = [] })
      ∷ [];
  conn_id2conn = [];
  settings = record {
    master_types = 1 ∷ [];
    max_slave_conns = 1;
    auth_timeout = 10;
    ping_interval = 5;
    ping_lost_times = 3;
  };
  closed = false;
  offers = [];
  closes = [];
}

abbrev hello_msg : MsgForwardPayload
hello_msg = record {
  req_id = "r";
  conv_id = "a:b";
  conv_type = 1;
  conv_last_active_ts = 5;
  msg_id = 100;
  client_unique_id = "u1";
  msg_seq = 3;
  chat_type = 1;
  sender = "b";
  receiver = "a";
  members = "a" ∷ "c" ∷ "b" ∷ [];
  send_ts = 4;
  ttl = pos 0;
  msg = record {
    sender_info = record { sender_type = 1; nickname = "B"; avatar = "" };
    content = record { type = 1; content = "hi"; custom = ""; extra = "" };
  };
  cts = 5;
}

abbrev no_uuid : String → Option (List ℕ)
no_uuid s = none

-- A body cannot be formatted for "c".
abbrev format : ForwardFrameBody → Option (List ℕ)
format body = if str_eq body.to_uid "c" then none else some (body.msg_id ∷ body.msg_seq ∷ [])

handle_forward-written_example :
    handle_forward write
      (get_users_conns assoc_map assoc_map usli online)
      no_uuid
      format
      (some hello_msg)
      []
    ≡ []
      ++ flat_map
          (copies accepts (get_user_conns assoc_map assoc_map usli online) no_uuid format hello_msg)
          ("a" ∷ "c" ∷ "b" ∷ [])
handle_forward-written_example =
    handle_forward-written assoc_map assoc_map usli online write-Delivers no_uuid format hello_msg
      []

-- The message reaches the connection 7 of "a" and the connection 8 of "b".
reached :
    map
      (λ w. w.0)
      (handle_forward write
        (get_users_conns assoc_map assoc_map usli online)
        no_uuid
        format
        (some hello_msg)
        [])
    ≡ 7 ∷ 8 ∷ []
unfolding handle_forward get_users_conns push_members write_member write_conns and_then lookup
    get_user_conns forward_form insert encoded
reached = refl

abbrev friends : ConvAddEventPayload
friends = record {
  conv_id = "a:b";
  conv_type = 1;
  chat_type = 1;
  icon = "";
  title = "";
  ts = 4;
  sender = "b";
  receiver = "a";
  relation_id = "";
  members = "a" ∷ "b" ∷ [];
  meb_id2unit_info = ("a", record { icon = "i"; title = "A" }) ∷ [];
}

abbrev flat : ConvUpdateFrame → List ℕ
flat body = length body.data_map ∷ []

handle_conv_add-written_example :
    handle_conv_add write
      (get_users_conns assoc_map assoc_map usli online)
      find_first
      (λ body. some (flat body))
      (some friends)
      []
    ≡ []
      ++ (introduce accepts (get_user_conns assoc_map assoc_map usli online) flat friends "a" "b"
          ++ introduce accepts
              (get_user_conns assoc_map assoc_map usli online)
              flat
              friends
              "b"
              "a")
handle_conv_add-written_example =
    handle_conv_add-written find_first friends "a" "b" (str_ne "a" "b" refl) refl refl
      write-Delivers assoc_map assoc_map usli online flat []
