-- ===== src/Stored/Examples.antt =====
-- The message server on concrete deliveries: the table is the list of the rows' ids.
use sdim.Base.Ints.{pos}
use sdim.Stored.Attempts.{deliveries, second_delivery_is_last}
use sdim.Stored.Outcome.{Outcome, handle_message-Outcome}
use sdim.Stored.Receive.{
  Store, handle_message, Env, find_sender, is_user_send, sender_info_of, with_sender, finish,
  upsert_done, bodies_of, msg_pd2pojo,
}
use sdim.Topic.Types.{MsgSendReceivePayload}
use sdim.Base.{true, false, Bool, ◌∷◌, List, some, ℕ, [], ◌≡◌, if◌then◌else◌, refl}
use sdim.Handler.Types.{answered, call_failed}

abbrev env : Bool → Env (List ℕ)
env known = record {
  user_unit_info = λ req_id uid.
      if known
      then answered (record { uid = uid; nickname = "A"; avatar = "" })
      else call_failed "timeout";
  upsert_msg = λ db row. (row.id ∷ db, true);
  publish = λ fpd. true;
  fmt_msg = λ msg. some "{}";
  submit = true;
  now = 9000;
  now_sec = 9;
}

abbrev queued : MsgSendReceivePayload
queued = record {
  conv_id = "a:b";
  conv_type = 1;
  msg_id = 100;
  conv_last_active_ts = 5;
  client_unique_id = "x";
  msg_seq = 3;
  chat_type = 1;
  sender = "a";
  sender_type = 1;
  receiver = "b";
  members = "b" ∷ [];
  req_id = "r";
  send_ts = 4;
  ttl = pos 0;
  msg_content = record { type = 1; content = "hi"; custom = ""; extra = "" };
}

abbrev store : Store (List ℕ)
store = record { db = []; published = [] }

handle_message-Outcome_example :
    Outcome (env true) queued 1 store (handle_message (env true) 1 (some queued) store)
handle_message-Outcome_example = handle_message-Outcome (env true) queued 1 store

-- The user server knows the sender, so the message is stored.
stored_once : (handle_message (env true) 1 (some queued) store).0.db ≡ 100 ∷ []
unfolding handle_message find_sender is_user_send sender_info_of with_sender upsert_done bodies_of
    msg_pd2pojo
stored_once = refl

-- The user server fails once; the message is gone, although it would answer the second time.
second_delivery_is_last_example :
    deliveries (some queued) 1 (env false ∷ env true ∷ env true ∷ []) (store, [])
    ≡ ((handle_message (env false) 1 (some queued) store).0, finish ∷ [])
second_delivery_is_last_example =
    second_delivery_is_last (some queued) (env false) (env true) (env true ∷ []) store []
