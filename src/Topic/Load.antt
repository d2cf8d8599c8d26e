-- ===== src/Topic/Load.antt =====
-- conv_manager.go: how a conversation gets into memory, from its records or as a new one. The
-- repository, the user server and the queue are parameters.
use sdim.Base.Maps.{insert, lookup}
use sdim.Topic.Groups.{blank_group_conv, add_key}
use sdim.Group.Ops.{SendError}
use sdim.Group.Types.{GroupRepository, Groups}
use sdim.Topic.Types.{
  MsgSendReceivePayload, ConvManager, Conversation, Conv, ConvItem, MsgComingParam,
}
use sdim.Base.{
  String, ℕ, List, Option, none, ◌∷◌, [], if◌then◌else◌, Bool, str_eq, not, some, false, length,
  ◌==◌, map, true,
}

-- `D` is what the repository keeps. `none` is an error; no record of a conversation is `some none`.
-- The last answers the new sequence and the time of the store.
pub record ConvRepository (D : Type 0) : Type 0 where
  pub find_conv_items : D → String → Option (Option Conv)
  pub upsert_conv : D → Conv → D × Bool
  pub get_conv_tree : D → String → Option (List (String × String))
  pub modify_conv_tree : D → String → String → ℕ → D × Option (ℕ × ℕ)

pub record UnitInfo : Type 0 where
  pub uid : String
  pub nickname : String
  pub avatar : String

pub record MemberUnitInfo : Type 0 where
  pub icon : String
  pub title : String

pub record ConvAddEventPayload : Type 0 where
  pub conv_id : String
  pub conv_type : ℕ
  pub chat_type : ℕ
  pub icon : String
  pub title : String
  pub ts : ℕ
  pub sender : String
  pub receiver : String
  pub relation_id : String
  pub members : List String
  pub meb_id2unit_info : List (String × MemberUnitInfo)

-- What is put on the queue.
pub data Outgoing : Type 0 where
  msg_receive : MsgSendReceivePayload → Outgoing
  conv_add : ConvAddEventPayload → Outgoing

-- `sent` are the calls of PublishAsync, latest first.
pub record World (D : Type 0) : Type 0 where
  pub cm : ConvManager
  pub db : D
  pub groups : Groups
  pub sent : List Outgoing

-- `publish` says whether SendMsg takes the message.
pub record Services (D : Type 0) : Type 0 where
  pub cr : ConvRepository D
  pub gr : GroupRepository
  pub parse : String → ℕ
  pub users_unit_info : String → List String → Option (List (String × UnitInfo))
  pub publish : MsgSendReceivePayload → Bool

pub data HandleError : Type 0 where
  store_err user_rpc_err users_missing no_receiver group_repo_err publish_err : HandleError
  not_allowed : SendError → HandleError

-- A handler returns the sequence of the message or an error, or it panics.
pub data Handled : Type 0 where
  handled : ℕ → Handled
  failed : HandleError → Handled
  panicked : Handled

-- convHandleResult, or how the locked part ended.
pub data Loaded : Type 0 where
  loaded : Conversation → List ConvItem → Bool → Loaded
  load_failed : HandleError → Loaded
  load_panicked : Loaded

-- The key set of a Go map made of two keys.
unfoldable pub two_keys : String → String → List String
two_keys a b = if str_eq a b then a ∷ [] else a ∷ b ∷ []

unfoldable pub db_conv2local : Conv → String → String → Conversation
unfolding two_keys
db_conv2local conv sender receiver = record {
  id = conv.conv_id;
  type = conv.conv_type;
  last_active_ts = conv.last_active_ts;
  members = two_keys sender receiver;
  msg_seq = conv.msg_seq;
  last_msg_id = conv.last_msg_id;
  last_msg = none;
  recently_msgs = [];
}

unfoldable pub owners : List ConvItem → List String → List String
unfolding add_key
owners [] acc = acc
owners (item ∷ items) acc = owners items (add_key item.owner_uid acc)

unfoldable pub db_conv2local_for_group : Conv → Conversation
unfolding owners
db_conv2local_for_group conv = record {
  id = conv.conv_id;
  type = conv.conv_type;
  last_active_ts = conv.last_active_ts;
  members = owners conv.items [];
  msg_seq = conv.msg_seq;
  last_msg_id = conv.last_msg_id;
  last_msg = none;
  recently_msgs = [];
}

unfoldable pub db_conv2local_empty_for_group : String → Conversation
unfolding blank_group_conv
db_conv2local_empty_for_group conv_id = blank_group_conv conv_id []

unfoldable pub other_info : String → List UnitInfo → Option UnitInfo
other_info meb [] = none
other_info meb (info ∷ infos) =
    let later = other_info meb infos in if not (str_eq info.uid meb) then some info else later

-- A member without a partner is a nil pointer that the source reads: `none` is that panic.
unfoldable pub local_items : List String → List UnitInfo → ℕ → Option (List ConvItem)
unfolding other_info
local_items [] infos now = some []
local_items (meb ∷ mebs) infos now =
    let rest = local_items mebs infos now in
    elim (other_info meb infos) [
      | none ↦ none
      | some info ↦ elim rest [
        | none ↦ none
        | some items ↦ some (
            record {
              conv_id = "";
              owner_uid = meb;
              relation_id = info.uid;
              conv_type = 0;
              icon = info.avatar;
              title = info.nickname;
              remark = "";
              browse_msg_seq = 0;
              pin_top = false;
              no_disturb = false;
              cts = now;
              uts = 0;
            }
            ∷ items)
      ]
    ]

unfoldable pub local_conv2db : Conversation → List UnitInfo → ℕ → Option Conv
unfolding local_items
local_conv2db c infos now = elim (local_items c.members infos now) [
  | none ↦ none
  | some items ↦ some (record {
    conv_id = c.id;
    msg_seq = 0;
    last_msg_id = 0;
    last_active_ts = 0;
    conv_type = c.type;
    cts = now;
    items = items;
  })
]

unfoldable pub blank_conv : String → ℕ → List String → Conversation
unfolding blank_group_conv
blank_conv conv_id conv_type members = record (blank_group_conv conv_id []) {
  type = conv_type;
  members = members;
}

module _ {D : Type 0} (sv : Services D) where
  unfoldable pub keep_conv : String → Conversation → World D → World D
  keep_conv conv_id c w = record w {
    cm = record w.cm { conv_id2items = insert conv_id c w.cm.conv_id2items };
  }

  -- The new conversation of a first message, with both users asked for.
  unfoldable pub create_p2p : String → ℕ → MsgComingParam → ℕ → World D → World D × Loaded
  unfolding blank_conv two_keys local_conv2db keep_conv
  create_p2p conv_id conv_type pa now w =
      let c = blank_conv conv_id conv_type (two_keys pa.sender pa.receiver) in
      elim (sv.users_unit_info pa.req_id (pa.sender ∷ pa.receiver ∷ [])) [
        | none ↦ (w, load_failed user_rpc_err)
        | some infos ↦
            if not (length infos == length c.members)
            then (w, load_failed users_missing)
            else (elim (local_conv2db c (map (λ e. e.1) infos) now) [
              | none ↦ (w, load_panicked)
              | some conv ↦
                  let (db, saved) = sv.cr.upsert_conv w.db conv in
                  if saved
                  then (keep_conv conv_id c (record w { db = db }), loaded c conv.items true)
                  else (record w { db = db }, load_failed store_err)
            ])
      ]

  -- The locked part of p2pConvHandle.
  unfoldable pub load_p2p : String → ℕ → MsgComingParam → ℕ → World D → World D × Loaded
  unfolding create_p2p db_conv2local keep_conv
  load_p2p conv_id conv_type pa now w = elim (lookup conv_id w.cm.conv_id2items) [
    | some c ↦ (w, loaded c [] false)
    | none ↦ elim (sv.cr.find_conv_items w.db conv_id) [
      | none ↦ (w, load_failed store_err)
      | some none ↦ create_p2p conv_id conv_type pa now w
      | some (some conv) ↦
          let c = db_conv2local conv pa.sender pa.receiver in
          (keep_conv conv_id c w, loaded c conv.items false)
    ]
  ]

  -- The locked part of groupConvHandle.
  unfoldable pub load_group : String → World D → World D × Loaded
  unfolding db_conv2local_for_group db_conv2local_empty_for_group keep_conv
  load_group conv_id w = elim (lookup conv_id w.cm.conv_id2items) [
    | some c ↦ (w, loaded c [] false)
    | none ↦ elim (sv.cr.find_conv_items w.db conv_id) [
      | none ↦ (w, load_failed store_err)
      | some none ↦
          let c = db_conv2local_empty_for_group conv_id in
          (keep_conv conv_id c w, loaded c [] false)
      | some (some conv) ↦
          let c = db_conv2local_for_group conv in (keep_conv conv_id c w, loaded c conv.items false)
    ]
  ]
