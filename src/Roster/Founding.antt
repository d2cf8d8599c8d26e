-- ===== src/Roster/Founding.antt =====
-- group_handler.go: a group chat that is started.
use sdim.Roster.Requests.{
  Roster, Desk, Event, Verdict, accepted, param_invalid, rpc_failed, store_failed, conv_added,
  received, publish, cmd_payload, group_added_event, group_invited,
}
use sdim.Roster.Tables.{create_items, create_roles, is_normal_in, where_rows, ItemRow}
use sdim.Roster.Hints.{build_invite_info_fmt}
use sdim.Group.Ops.{on_group_created}
use sdim.Handler.Types.{RpcAnswer, call_failed, not_ok, answered}
use sdim.Topic.Groups.{
  upsert_group_chat_conv, generate_group_chat_conv_id, update_group_chat_after_created_event_sent,
}
use sdim.Topic.Load.{UnitInfo}
use sdim.Topic.Types.{ConvManager}
use sdim.Base.{
  ℕ, String, List, [], ◌∷◌, Bool, true, false, ◌&&◌, ltb, if◌then◌else◌, str_eq, length, map,
  Option, not,
}

-- A limit that is not positive is no limit, as 0.
pub record StartGroupChatReq : Type 0 where
  pub group_name : String
  pub avatar : String
  pub owner_uid : String
  pub limited_num : ℕ
  pub members : List String

-- The members and groups, and the conversations in memory.
pub record Hall : Type 0 where
  pub roster : Roster
  pub cm : ConvManager

-- What these requests call besides those on members: usli.Distinct, the random number of a group,
-- whether Redis takes the hash of a new group, which is written after the rows are committed,
-- the statements of the repository that set a name, a note or a nickname (`none` is an error, and
-- false a success that changed no row), and one user of the user server.
pub record Office : Type 0 where
  pub desk : Desk
  pub distinct : List String → List String
  pub grp_no : String
  pub caches : Bool
  pub setting_group_name : String → String → Bool
  pub setting_group_bak : String → String → String → Option Bool
  pub setting_group_nickname : String → String → String → Option Bool
  pub user_unit_info : String → RpcAnswer UnitInfo

unfoldable pub alone : String → List String → Bool
alone owner_uid [] = false
alone owner_uid (uid ∷ []) = str_eq uid owner_uid
alone owner_uid (uid ∷ uid' ∷ uids) = false

module _ (office : Office) where
  -- The events of a new group; a message that is not sent is an error.
  unfoldable pub tell_founded :
      StartGroupChatReq → List String → List (String × UnitInfo) → ℕ → Hall → Hall × Verdict
  unfolding publish cmd_payload group_added_event build_invite_info_fmt
  tell_founded req new_mebs uid2info count h =
      let desk = office.desk in
      let hint = build_invite_info_fmt desk.decimal uid2info new_mebs in
      let r1 =
        publish desk (conv_added (group_added_event desk office.grp_no req.group_name new_mebs))
          h.roster in
      let e : Event =
        received (cmd_payload desk office.grp_no new_mebs (group_invited hint.1 count hint.0)) in
      (record h { roster = publish desk e r1 }, if desk.publishes e then accepted else store_failed)

  -- The rows of the members after CreateGroupChat.
  unfoldable pub founded_rows : StartGroupChatReq → List (String × UnitInfo) → Hall → List ItemRow
  unfolding create_items
  founded_rows req uid2info h =
      create_items office.desk.new_state office.grp_no req.owner_uid office.desk.mills
        (map (λ kv. kv.1) uid2info) h.roster.items

  -- What follows CreateGroupChat.
  unfoldable pub found_group :
      StartGroupChatReq → List String → List (String × UnitInfo) → Hall → Hall × Verdict
  unfolding tell_founded founded_rows create_roles upsert_group_chat_conv on_group_created
      generate_group_chat_conv_id
  found_group req new_mebs uid2info h =
      let desk = office.desk in
      let infos = map (λ kv. kv.1) uid2info in
      let rows = founded_rows req uid2info h in
      let (cm, _) =
        upsert_group_chat_conv h.cm (generate_group_chat_conv_id office.grp_no) office.grp_no
          req.avatar req.avatar new_mebs in
      let groups =
        on_group_created h.roster.groups office.grp_no req.owner_uid
          (create_roles req.owner_uid infos []) desk.mills in
      tell_founded req new_mebs uid2info (length (where_rows (is_normal_in office.grp_no) rows))
        (record { roster = record h.roster { items = rows; groups = groups }; cm = cm })

  unfoldable pub found_known :
      StartGroupChatReq → List String → Hall → RpcAnswer (List (String × UnitInfo)) → Hall × Verdict
  unfolding found_group
  found_known req new_mebs h (call_failed e) = (h, rpc_failed)
  found_known req new_mebs h (not_ok code msg) = (h, rpc_failed)
  found_known req new_mebs h (answered uid2info) =
      if not office.desk.commits
      then (h, store_failed)
      else if office.caches
      then found_group req new_mebs uid2info h
      else (
        record h { roster = record h.roster { items = founded_rows req uid2info h } },
        store_failed,
      )

  -- The members of the request without repetition.
  unfoldable pub start_with : StartGroupChatReq → List String → Hall → Hall × Verdict
  unfolding alone found_known
  start_with req distinct_mebs h =
      let new_mebs = req.owner_uid ∷ distinct_mebs in
      if alone req.owner_uid distinct_mebs
      then (h, param_invalid)
      else if ltb 0 req.limited_num && ltb req.limited_num (length new_mebs)
      then (h, param_invalid)
      else found_known req new_mebs h (office.desk.users_unit_info new_mebs)

  unfoldable pub handle_start_group_chat : StartGroupChatReq → Hall → Hall × Verdict
  unfolding start_with
  handle_start_group_chat req h = elim req.members [
    | [] ↦ (h, param_invalid)
    | _ ∷ _ ↦ start_with req (office.distinct req.members) h
  ]

  -- receiveMqSendAsyncResult, for the answer of the queue to one message of a group.
  unfoldable pub group_event_sent : String → ℕ → ℕ → Bool → Hall → Hall
  unfolding update_group_chat_after_created_event_sent
  group_event_sent conv_id msg_id last_ts false h = h
  group_event_sent conv_id msg_id last_ts true h = record h {
    cm = update_group_chat_after_created_event_sent h.cm conv_id msg_id last_ts;
  }
