-- ===== src/Roster/Settings.antt =====
-- group_handler.go: the name of a group, its notes and its nicknames.
use sdim.Group.Ops.{get_group_meb_uids}
use sdim.Push.Bodies.{ConvUnitDataUpdatePayload}
use sdim.Roster.Hints.{UidNickname}
use sdim.Roster.Tables.{find_group_meb_uids}
use sdim.Topic.Groups.{generate_group_chat_conv_id, on_group_data_changed}
use sdim.Topic.Load.{UnitInfo}
use sdim.Roster.Founding.{Office, Hall}
use sdim.Roster.Requests.{
  accepted, param_invalid, store_failed, received, notified, unit_data, group_setting, new_nickname,
  publish, Desk, cmd_payload, Verdict, group_notice, Roster, Event, repository,
}
use sdim.Handler.Types.{call_failed, not_ok, answered, RpcAnswer}
use sdim.Base.{
  true, false, none, some, Bool, String, List, Option, ◌∷◌, if◌then◌else◌, text_append, str_eq, [],
  not,
}

-- `{0}` stands for the one who changes the name.
unfoldable pub build_group_setting_info_fmt : UnitInfo → String → String × List UidNickname
build_group_setting_info_fmt info group_name =
    (text_append "{0}修改群名称为 " group_name, record { uid = info.uid; nickname = info.nickname } ∷ [])

-- The event of a changed title: the name of the group, or a member's own note.
unfoldable pub title_event :
    Desk → String → String → String → List String → ConvUnitDataUpdatePayload
unfolding generate_group_chat_conv_id
title_event desk grp_no reason title members = record {
  conv_id = generate_group_chat_conv_id grp_no;
  icon = none;
  update_reason = reason;
  title = some title;
  pin_top = none;
  no_disturb = none;
  members = members;
  uts = desk.mills;
}

module _ (office : Office) where
  -- The task after a group has a new name: the message of the system, then the event.
  unfoldable pub tell_name : String → String → List String → RpcAnswer UnitInfo → Roster → Roster
  unfolding publish cmd_payload build_group_setting_info_fmt title_event
  tell_name grp_no group_name uids (call_failed e) r = r
  tell_name grp_no group_name uids (not_ok code msg) r = r
  tell_name grp_no group_name uids (answered info) r =
      let hint = build_group_setting_info_fmt info group_name in
      let e : Event =
        received (cmd_payload office.desk grp_no uids (group_setting hint.1 hint.0)) in
      if str_eq info.uid ""
      then r
      else if office.desk.publishes e
      then publish office.desk
          (unit_data (title_event office.desk grp_no "SomeOneModifyGroupName" group_name uids))
          (publish office.desk e r)
      else r

  -- The name of a group, as any user sets it. The uids are those of all rows of the group.
  unfoldable pub handle_setting_group_name : String → String → String → Hall → Hall × Verdict
  unfolding tell_name find_group_meb_uids on_group_data_changed
  handle_setting_group_name grp_no group_name uid h =
      if str_eq grp_no ""
      then (h, param_invalid)
      else if str_eq group_name ""
      then (h, param_invalid)
      else if str_eq uid ""
      then (h, param_invalid)
      else if not (office.setting_group_name grp_no group_name)
      then (h, store_failed)
      else if not office.desk.reads
      then (h, store_failed)
      else let uids = find_group_meb_uids grp_no h.roster.items in
        let (cm, _) = on_group_data_changed h.cm (record {
          group_no = grp_no;
          uids = uids;
          group_name = some group_name;
          group_icon = none;
          remark = none;
        }) in
        let roster =
          if office.desk.submit
          then tell_name grp_no group_name uids (office.user_unit_info uid) h.roster
          else h.roster in
        (record { roster = roster; cm = cm }, accepted)

  -- The answer to a request whose statement has succeeded.
  unfoldable pub changed : Bool → Verdict
  changed true = accepted
  changed false = store_failed

  -- A member's own note on a group, which becomes the title of the conversation.
  unfoldable pub note_set : String → String → String → Hall → Option Bool → Hall × Verdict
  unfolding publish title_event on_group_data_changed changed
  note_set grp_no group_bak uid h none = (h, store_failed)
  note_set grp_no group_bak uid h (some suc) =
      let (cm, _) = on_group_data_changed h.cm (record {
        group_no = grp_no;
        uids = uid ∷ [];
        group_name = none;
        group_icon = none;
        remark = some group_bak;
      }) in
      let e : Event =
        unit_data
          (title_event office.desk grp_no "UserActiveSettingGroupBak" group_bak (uid ∷ [])) in
      let roster = if office.desk.submit then publish office.desk e h.roster else h.roster in
      (record { roster = roster; cm = cm }, changed suc)

  unfoldable pub handle_setting_group_bak : String → String → String → Hall → Hall × Verdict
  unfolding note_set
  handle_setting_group_bak grp_no group_bak uid h =
      if str_eq grp_no ""
      then (h, param_invalid)
      else if str_eq group_bak ""
      then (h, param_invalid)
      else if str_eq uid ""
      then (h, param_invalid)
      else note_set grp_no group_bak uid h (office.setting_group_bak uid grp_no group_bak)

  -- The task after a nickname was set; it loads the group when it is not in memory.
  unfoldable pub tell_nickname : String → String → String → Roster → Roster
  unfolding publish group_notice get_group_meb_uids generate_group_chat_conv_id
  tell_nickname grp_no nickname uid r =
      let (groups, uids) = get_group_meb_uids (repository office.desk r.items) r.groups grp_no in
      let r' : Roster = record r { groups = groups } in
      elim uids [
        | [] ↦ r'
        | meb ∷ mebs ↦
            publish office.desk
              (notified (
                group_notice "SettingNicknameInGroup" (meb ∷ mebs)
                  (new_nickname (generate_group_chat_conv_id grp_no) grp_no uid nickname)))
              r'
      ]

  unfoldable pub nickname_set : String → String → String → Hall → Option Bool → Hall × Verdict
  unfolding tell_nickname changed
  nickname_set grp_no nickname uid h none = (h, store_failed)
  nickname_set grp_no nickname uid h (some suc) =
      let roster : Roster =
        if office.desk.submit then tell_nickname grp_no nickname uid h.roster else h.roster in
      (record h { roster = roster }, changed suc)

  unfoldable pub handle_setting_group_nickname : String → String → String → Hall → Hall × Verdict
  unfolding nickname_set
  handle_setting_group_nickname grp_no nickname uid h =
      if str_eq grp_no ""
      then (h, param_invalid)
      else if str_eq uid ""
      then (h, param_invalid)
      else nickname_set grp_no nickname uid h (office.setting_group_nickname uid grp_no nickname)
