-- ===== src/Topic/Examples.antt =====
-- The conversations of the topic server, on concrete states.
use sdim.Base.Ints.{pos}
use sdim.Topic.Cleared.{cleared_then_sent}
use sdim.Topic.Places.{listed_ids, present, conv_list-present}
use sdim.Topic.Merge.{generate_p2p_conv_id}
use sdim.Topic.Recent.{stored_message}
use sdim.Topic.Hot.{Lists, sync_hot_conv_list-Lists}
use sdim.Topic.SelfChat.{self_chat_panics}
use sdim.Topic.Ids.{generate_p2p_conv_id_comm}
use sdim.Topic.Upsert.{upserted, upserted_conv}
use sdim.Topic.Sent.{others_untouched, sender_has_read, member_has_unread, conv_rises}
use sdim.Topic.Groups.{upsert_group_chat_conv}
use sdim.Topic.Listing.{sync_hot_conv_list, msg_seq_key, conv_list}
use sdim.Topic.Publish.{Queued, payload, on_msg_coming-Queued}
use sdim.Topic.Load.{ConvRepository, UnitInfo, Services, World, panicked}
use sdim.Topic.Incoming.{p2p_conv_handle, conv_id_of, on_msg_coming}
use sdim.Topic.Cells.{cell}
use sdim.Topic.Deliver.{
  SendArgs, receive_mq_send_async_result, on_msg_stored, msg_item_of, last_msg_of, clear_unread,
}
use sdim.Base.Maps.{lookup}
use sdim.Base.{
  ℕ, List, ◌∷◌, false, ◌≡◌, some, none, [], true, String, ◌≤◌, ◌-◌, drop, suc, map, refl, inr,
  str_ne, length, ◌<◌, inl, ◌≢◌,
}
use sdim.Topic.Types.{
  MsgContent, Conversation, ConvManager, MemberConv, MsgForwardPayload, MsgComingParam, ConvItem,
  get_conv_type_with_chat_type,
}

abbrev content : MsgContent
content = record { type = 1; content = "hi"; custom = ""; extra = "" }

abbrev conv : Conversation
conv = record {
  id = "p2p:ann:bob";
  type = 1;
  last_active_ts = 10;
  members = "ann" ∷ "bob" ∷ [];
  msg_seq = 4;
  last_msg_id = 40;
  last_msg = none;
  recently_msgs = [];
}

abbrev own : ℕ → MemberConv
own browsed = record {
  id = "p2p:ann:bob";
  type = 1;
  icon = "";
  title = "";
  relation_id = "";
  remark = "";
  pin_top = false;
  no_disturb = false;
  browse_msg_seq = browsed;
  unread_count = 0;
  cts = 0;
  uts = 0;
}

abbrev manager : ConvManager
manager = record {
  conv_id2items = ("p2p:ann:bob", conv) ∷ [];
  uid2conv_items = ("ann", ("p2p:ann:bob", own 4) ∷ []) ∷ ("bob", ("p2p:ann:bob", own 2) ∷ []) ∷ [];
  msg_cap = 2;
}

conv_known : lookup "p2p:ann:bob" manager.conv_id2items ≡ some conv
unfolding lookup
conv_known = refl

ann_cell : cell "ann" "p2p:ann:bob" manager ≡ some (own 4)
unfolding lookup
ann_cell = refl

bob_cell : cell "bob" "p2p:ann:bob" manager ≡ some (own 2)
unfolding lookup
bob_cell = refl

-- Ann's fifth message to Bob.
abbrev sent : SendArgs
sent = record {
  conv_id = "p2p:ann:bob";
  msg_seq = 5;
  msg_id = 50;
  last_ts = 11;
  send_uid = "ann";
  members = "bob" ∷ [];
}

abbrev after_sent : ConvManager
after_sent = receive_mq_send_async_result manager sent false

sender_has_read_example :
    (item' : MemberConv) × (cell "ann" "p2p:ann:bob" after_sent ≡ some item')
    × (item'.unread_count ≡ 0)
    × (5 ≤ item'.browse_msg_seq)
    × (4 ≤ item'.browse_msg_seq)
sender_has_read_example = sender_has_read manager sent (own 4) ann_cell

member_has_unread_example :
    (item' : MemberConv) × (cell "bob" "p2p:ann:bob" after_sent ≡ some item')
    × (item'.unread_count ≡ 5 - 2)
    × (item'.browse_msg_seq ≡ 2)
member_has_unread_example =
    member_has_unread manager sent "bob" (own 2) refl (str_ne "ann" "bob" refl) bob_cell

others_untouched_example : cell "bob" "grp:g" after_sent ≡ cell "bob" "grp:g" manager
others_untouched_example =
    others_untouched manager sent "bob" "grp:g" (inr (str_ne "p2p:ann:bob" "grp:g" refl))

conv_rises_example :
    (conv' : Conversation) × (lookup "p2p:ann:bob" after_sent.conv_id2items ≡ some conv')
    × (4 ≤ conv'.msg_seq)
    × (5 ≤ conv'.msg_seq)
    × (40 ≤ conv'.last_msg_id)
    × (50 ≤ conv'.last_msg_id)
    × (10 ≤ conv'.last_active_ts)
    × (11 ≤ conv'.last_active_ts)
conv_rises_example = conv_rises manager sent conv conv_known

abbrev stored : MsgForwardPayload
stored = record {
  req_id = "r";
  conv_id = "p2p:ann:bob";
  conv_type = 1;
  conv_last_active_ts = 11;
  msg_id = 50;
  client_unique_id = "x";
  msg_seq = 5;
  chat_type = 1;
  sender = "ann";
  receiver = "bob";
  members = "bob" ∷ [];
  send_ts = 11;
  ttl = pos 0;
  msg = record {
    sender_info = record { sender_type = 1; nickname = "Ann"; avatar = "" };
    content = content;
  };
  cts = 12;
}

stored_message_example :
    (conv' : Conversation) × (lookup "p2p:ann:bob" (on_msg_stored manager stored).0.conv_id2items
      ≡ some conv')
    × (conv'.recently_msgs ≡ drop (1 - 2) (msg_item_of stored ∷ []))
    × (length conv'.recently_msgs ≤ 2)
    × (40 ≤ conv'.last_msg_id)
    × ((40 ≤ 50)
        → (conv'.last_msg_id ≡ 50)
          × (conv'.last_msg ≡ some (last_msg_of stored))
          × ((on_msg_stored manager stored).1.last_msg ≡ some (last_msg_of stored)))
    × ((50 < 40) → (conv'.last_msg ≡ none) × ((on_msg_stored manager stored).1.last_msg ≡ none))
    × ((k : String) (other : Conversation)
        → "p2p:ann:bob" ≢ k
        → lookup k manager.conv_id2items ≡ some other
        → lookup k (on_msg_stored manager stored).0.conv_id2items ≡ some other)
stored_message_example = stored_message manager stored conv conv_known

upserted_conv_example :
    cell "bob" "grp:g"
      (upsert_group_chat_conv manager "grp:g" "g" "icon" "title" ("ann" ∷ "bob" ∷ [])).0
    ≡ some (upserted "grp:g" "g" "icon" "title" (cell "bob" "grp:g" manager))
upserted_conv_example =
    upserted_conv manager "grp:g" "g" "icon" "title" ("ann" ∷ "bob" ∷ []) "bob" "grp:g"

generate_p2p_conv_id_comm_example :
    generate_p2p_conv_id "ann" "bob" ≡ generate_p2p_conv_id "bob" "ann"
generate_p2p_conv_id_comm_example = generate_p2p_conv_id_comm "ann" "bob"

-- A repository that counts the messages of its one conversation, which it has no record of.
abbrev counting : ConvRepository ℕ
counting = record {
  find_conv_items = λ n id. some none;
  upsert_conv = λ n c. (n, true);
  get_conv_tree = λ n id. some [];
  modify_conv_tree = λ n sender id msg_id. (suc n, some (suc n, 11));
}

abbrev ann_info : UnitInfo
ann_info = record { uid = "ann"; nickname = "Ann"; avatar = "" }

abbrev pub services : Services ℕ
services = record {
  cr = counting;
  gr = record { find_group_info = λ g. none; find_group_items = λ g. none };
  parse = λ s. 0;
  users_unit_info = λ r uids. some (("ann", ann_info) ∷ []);
  publish = λ pd. true;
}

abbrev pub world : World ℕ
world = record { cm = manager; db = 4; groups = []; sent = [] }

abbrev pub to_bob : MsgComingParam
to_bob = record {
  conv_id = "";
  sender = "ann";
  receiver = "bob";
  chat_type = 1;
  req_id = "r";
  ttl = pos 0;
  client_unique_id = "x";
  msg_content = content;
  is_conv_type = true;
}

on_msg_coming-Queued_example :
    Queued
      (payload services (conv_id_of services to_bob) 50 (get_conv_type_with_chat_type 1) to_bob 11)
      world
      (on_msg_coming services to_bob 50 11 0 world)
on_msg_coming-Queued_example = on_msg_coming-Queued services to_bob 50 11 0 world refl (inl refl)

abbrev to_self : MsgComingParam
to_self = record to_bob { receiver = "ann" }

self_absent : lookup "p2p:ann:ann" manager.conv_id2items ≡ none
unfolding lookup
self_absent = refl

self_chat_panics_example :
    (p2p_conv_handle services "p2p:ann:ann" 50 1 to_self 11 world).1 ≡ panicked
self_chat_panics_example =
    self_chat_panics services "p2p:ann:ann" 50 1 to_self 11 world "ann" ann_info refl refl
      self_absent refl refl

abbrev hot : ConvItem
hot = record {
  conv_id = "grp:g";
  owner_uid = "ann";
  relation_id = "g";
  conv_type = 2;
  icon = "";
  title = "";
  remark = "";
  browse_msg_seq = 0;
  pin_top = false;
  no_disturb = false;
  cts = 0;
  uts = 0;
}

abbrev hot_trees : List (String × List (String × String))
hot_trees = ("grp:g", (msg_seq_key, "7") ∷ []) ∷ []

-- A conversation that the store has no tree for.
abbrev cold : ConvItem
cold = record hot { conv_id = "grp:h" }

-- The parser of this example reads every number as 7.
sync_hot_conv_list-Lists_example :
    Lists
      (λ s. 7)
      hot_trees
      []
      0
      0
      0
      (hot ∷ cold ∷ [])
      (sync_hot_conv_list
        (λ s. 7)
        (λ u. some (hot ∷ cold ∷ []))
        (λ u ids. some hot_trees)
        (λ ids. some [])
        "ann")
sync_hot_conv_list-Lists_example =
    sync_hot_conv_list-Lists (λ s. 7) (λ u. some (hot ∷ cold ∷ [])) (λ u ids. some hot_trees)
      (λ ids. some []) "ann" (hot ∷ cold ∷ []) hot_trees [] refl refl refl

cleared_then_sent_example :
    (item' : MemberConv) × (cell "bob" "p2p:ann:bob" (
        receive_mq_send_async_result
          (clear_unread manager "p2p:ann:bob" "bob" (some 4)).0
          sent
          false)
      ≡ some item')
    × (item'.unread_count ≡ 5 - 4)
    × (item'.browse_msg_seq ≡ 4)
cleared_then_sent_example =
    cleared_then_sent manager sent "bob" 4 (own 2) refl (str_ne "ann" "bob" refl) bob_cell

bob_listed : lookup "bob" manager.uid2conv_items ≡ some (("p2p:ann:bob", own 2) ∷ [])
unfolding lookup
bob_listed = refl

conv_list-present_example :
    listed_ids (conv_list (λ msgs. msgs) manager "bob" true).0
    ≡ map (present manager) (("p2p:ann:bob", own 2) ∷ [])
conv_list-present_example =
    conv_list-present (λ msgs. msgs) manager true "bob" (("p2p:ann:bob", own 2) ∷ []) bob_listed
