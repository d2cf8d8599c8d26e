-- ===== src/Roster/Requests.antt =====
-- group_handler.go: members added to a group and taken out of it, by the database, the memory of
-- the group manager and the events.
use sdim.Topic.Groups.{generate_group_chat_conv_id}
use sdim.Roster.Tables.{ItemRow, add_members, remove_members, get_role_in_group, find_group_items}
use sdim.Roster.Hints.{UidNickname, build_invite_info_fmt, build_remove_info_fmt}
use sdim.Group.Types.{Groups, GroupRow, GroupRepository}
use sdim.Group.Ops.{on_group_meb_added, on_group_meb_removed}
use sdim.Handler.Types.{RpcAnswer, call_failed, not_ok, answered}
use sdim.Topic.Load.{UnitInfo, ConvAddEventPayload}
use sdim.Topic.Types.{MsgContent, MsgSendReceivePayload}
use sdim.Push.Bodies.{NotifyPayload, ConvUnitDataUpdatePayload}
use sdim.Base.Ints.{pos}
use sdim.Base.{ℕ, String, List, [], ◌∷◌, Option, none, some, Bool, if◌then◌else◌, ltb, map}

pub record AddRemMembersReq : Type 0 where
  pub uid : String
  pub group_no : String
  pub members : List String

-- The content of a command message, before it is JSON.
pub data CmdContent : Type 0 where
  group_invited : List UidNickname → ℕ → String → CmdContent
  group_removed : List UidNickname → String → CmdContent
  group_setting : List UidNickname → String → CmdContent

-- The data of a notification: the conversation, the group, and who was added or removed, or who
-- has which nickname in the group.
pub data GroupNotice : Type 0 where
  added_uids removed_uids : String → String → List String → GroupNotice
  new_nickname : String → String → String → String → GroupNotice

pub data Event : Type 0 where
  conv_added : ConvAddEventPayload → Event
  received : MsgSendReceivePayload → Event
  notified : NotifyPayload GroupNotice → Event
  unit_data : ConvUnitDataUpdatePayload → Event

-- The rows of the members, the groups in memory, and what has been published, latest first.
pub record Roster : Type 0 where
  pub items : List ItemRow
  pub groups : Groups
  pub sent : List Event

-- What a handler calls: the user server, the table of groups, the queue, the pool, and the id
-- generator. `commits` says whether the statements of a transaction run, `reads` whether one that
-- reads the members does.
pub record Desk : Type 0 where
  pub users_unit_info : List String → RpcAnswer (List (String × UnitInfo))
  pub find_group_info : String → Option GroupRow
  pub commits : Bool
  pub reads : Bool
  pub submit : Bool
  pub publishes : Event → Bool
  pub new_state : ℕ
  pub decimal : ℕ → String
  pub fmt_cmd : CmdContent → String
  pub msg_id : ℕ
  pub mills : ℕ

pub data Verdict : Type 0 where
  accepted param_invalid no_permission rpc_failed store_failed : Verdict

abbrev pub manager : ℕ
manager = 2

abbrev pub sys_auto_send : String
sys_auto_send = "sys:auto:send"

-- BuildGroupInvitedCmdMsg and BuildGroupRemoveCmdMsg.
unfoldable pub cmd_msg : (CmdContent → String) → CmdContent → MsgContent
cmd_msg fmt_cmd c = record { type = 1000; content = fmt_cmd c; custom = ""; extra = "" }

-- Publishing: an event that the queue refuses is not on it.
unfoldable pub publish : Desk → Event → Roster → Roster
publish desk e r = if desk.publishes e then record r { sent = e ∷ r.sent } else r

-- The command message of a group to some members, which the system sends.
unfoldable pub cmd_payload : Desk → String → List String → CmdContent → MsgSendReceivePayload
unfolding cmd_msg generate_group_chat_conv_id
cmd_payload desk grp_no members c = record {
  conv_id = generate_group_chat_conv_id grp_no;
  conv_type = 0;
  msg_id = desk.msg_id;
  conv_last_active_ts = desk.mills;
  client_unique_id = "";
  msg_seq = 0;
  chat_type = 2;
  sender = sys_auto_send;
  sender_type = 10;
  receiver = grp_no;
  members = members;
  req_id = "";
  send_ts = desk.mills;
  ttl = pos 0;
  msg_content = cmd_msg desk.fmt_cmd c;
}

unfoldable pub group_added_event : Desk → String → String → List String → ConvAddEventPayload
unfolding generate_group_chat_conv_id
group_added_event desk grp_no group_name members = record {
  conv_id = generate_group_chat_conv_id grp_no;
  conv_type = 2;
  chat_type = 2;
  icon = "";
  title = group_name;
  ts = desk.mills;
  sender = sys_auto_send;
  receiver = grp_no;
  relation_id = grp_no;
  members = members;
  meb_id2unit_info = [];
}

unfoldable pub group_notice : String → List String → GroupNotice → NotifyPayload GroupNotice
group_notice sub_type members d = record {
  notify_type = "GroupEventNotify";
  sub_type = sub_type;
  members = members;
  data_map = d;
}

module _ (desk : Desk) where
  -- The group repository as the group manager reads it.
  abbrev pub repository : List ItemRow → GroupRepository
  repository rows = record {
    find_group_info = desk.find_group_info;
    find_group_items = λ g. if desk.reads then some (find_group_items g rows) else none;
  }

  -- The task after members were added.
  unfoldable pub tell_added :
      AddRemMembersReq → List (String × UnitInfo) → String → ℕ → Roster → Roster
  unfolding publish cmd_payload group_added_event group_notice build_invite_info_fmt
      generate_group_chat_conv_id
  tell_added req uid2info group_name count r =
      let new_mebs = req.uid ∷ req.members in
      let hint = build_invite_info_fmt desk.decimal uid2info new_mebs in
      let r1 =
        publish desk (conv_added (group_added_event desk req.group_no group_name new_mebs)) r in
      let r2 =
        publish desk
          (received (cmd_payload desk req.group_no new_mebs (group_invited hint.1 count hint.0)))
          r1 in
      publish desk
        (notified (
          group_notice "GroupAddMembers" new_mebs
            (added_uids (generate_group_chat_conv_id req.group_no) req.group_no req.members)))
        r2

  -- After OnGroupMebAdded, whose error is returned.
  unfoldable pub enlisted :
      AddRemMembersReq
      → List (String × UnitInfo)
      → String
      → List ItemRow
      → Roster
      → Groups × Option ℕ
      → Roster × Verdict
  unfolding tell_added
  enlisted req uid2info group_name rows r (groups, none) =
      (record r { items = rows; groups = groups }, store_failed)
  enlisted req uid2info group_name rows r (groups, some count) =
      let r' : Roster = record r { items = rows; groups = groups } in
      (if desk.submit then tell_added req uid2info group_name count r' else r', accepted)

  -- After the transaction of HandleAddMembers.
  unfoldable pub added_in_store :
      AddRemMembersReq
      → List (String × UnitInfo)
      → String
      → List ItemRow
      → Roster
      → Roster × Verdict
  unfolding enlisted
  added_in_store req uid2info group_name rows r = enlisted req uid2info group_name rows r (
      on_group_meb_added (repository rows) r.groups req.group_no (map (λ kv. kv.1.uid) uid2info)
        desk.mills)

  -- The transaction of HandleAddMembers: an error leaves the table as it was.
  unfoldable pub add_in_tx :
      AddRemMembersReq → List (String × UnitInfo) → Roster → Option ℕ → Roster × Verdict
  unfolding added_in_store
  add_in_tx req uid2info r none = (r, no_permission)
  add_in_tx req uid2info r (some role) =
      if ltb manager role
      then (r, no_permission)
      else (elim (add_members desk.new_state req.group_no desk.mills (map (λ kv. kv.1) uid2info)
          r.items) [
            | none ↦ (r, store_failed)
            | some rows ↦ elim (desk.find_group_info req.group_no) [
              | none ↦ (r, store_failed)
              | some grp ↦ added_in_store req uid2info grp.group_name rows r
            ]
          ])

  unfoldable pub add_known :
      AddRemMembersReq → Roster → RpcAnswer (List (String × UnitInfo)) → Roster × Verdict
  unfolding add_in_tx
  add_known req r (call_failed e) = (r, rpc_failed)
  add_known req r (not_ok code msg) = (r, rpc_failed)
  add_known req r (answered uid2info) =
      if desk.commits
      then add_in_tx req uid2info r (get_role_in_group req.group_no req.uid r.items)
      else (r, store_failed)

  -- HandleAddMembers, on the members of the request.
  unfoldable pub handle_add_members : AddRemMembersReq → Roster → Roster × Verdict
  unfolding add_known
  handle_add_members req r = elim req.members [
    | [] ↦ (r, param_invalid)
    | _ ∷ _ ↦ add_known req r (desk.users_unit_info (req.uid ∷ req.members))
  ]

  -- The task after members were removed. An unknown user panics it, a refused event ends it.
  unfoldable pub tell_removed :
      AddRemMembersReq → List String → RpcAnswer (List (String × UnitInfo)) → Roster → Roster
  unfolding publish cmd_payload group_notice build_remove_info_fmt generate_group_chat_conv_id
  tell_removed req rem_uids (call_failed e) r = r
  tell_removed req rem_uids (not_ok code msg) r = r
  tell_removed req rem_uids (answered uid2info) r =
      let new_mebs = req.uid ∷ req.members in
      elim (build_remove_info_fmt desk.decimal uid2info new_mebs) [
        | none ↦ r
        | some hint ↦
            let e : Event =
              received (cmd_payload desk req.group_no new_mebs (group_removed hint.1 hint.0)) in
            if desk.publishes e
            then publish desk
                (notified (
                  group_notice "GroupRemoveMembers" new_mebs (
                    removed_uids (generate_group_chat_conv_id req.group_no) req.group_no rem_uids)))
                (publish desk e r)
            else r
      ]

  -- After the transaction of HandleRemoveMembers.
  unfoldable pub removed_in_store :
      AddRemMembersReq → List ItemRow × List String → Roster → Roster × Verdict
  unfolding tell_removed
  removed_in_store req (rows, []) r = (record r { items = rows }, accepted)
  removed_in_store req (rows, uid ∷ uids) r =
      let r' : Roster = record r {
        items = rows;
        groups = on_group_meb_removed r.groups req.group_no (uid ∷ uids);
      } in
      if desk.submit
      then (
        tell_removed req (uid ∷ uids) (desk.users_unit_info (req.uid ∷ req.members)) r',
        accepted,
      )
      else (r', store_failed)

  unfoldable pub remove_in_tx : AddRemMembersReq → Roster → Option ℕ → Roster × Verdict
  unfolding removed_in_store
  remove_in_tx req r none = (r, store_failed)
  remove_in_tx req r (some role) =
      if ltb manager role
      then (r, no_permission)
      else removed_in_store req (remove_members req.group_no req.members r.items) r

  unfoldable pub handle_remove_members : AddRemMembersReq → Roster → Roster × Verdict
  unfolding remove_in_tx
  handle_remove_members req r =
      if desk.commits
      then remove_in_tx req r (get_role_in_group req.group_no req.uid r.items)
      else (r, store_failed)
