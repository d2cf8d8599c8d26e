-- ===== src/Topic/Incoming.antt =====
-- conv_manager.go: a message that comes in (OnMsgComing, p2pConvHandle, groupConvHandle).
use sdim.Topic.Merge.{
  adopt_tree_p2p, send_receive_payload, adopt_tree_group, generate_p2p_conv_id, sync_members,
  is_key, conv_add_event,
}
use sdim.Base.Maps.{lookup}
use sdim.Group.Ops.{on_send_msg_in_group, can_send_msg_in_group}
use sdim.Group.Types.{GroupRow}
use sdim.Topic.Listing.{
  transfer_conv_tree_for_origin, extract, pkg_browse_seq_key, msg_seq_key, last_msg_id_key,
  last_active_ts_key,
}
use sdim.Topic.Types.{
  Conversation, ConvItem, MsgComingParam, MsgSendReceivePayload, get_conv_type_with_chat_type,
  p2p_chat, p2p_conv, group_conv,
}
use sdim.Topic.Load.{
  Services, load_p2p, load_group, World, Handled, msg_receive, failed, load_failed, handled,
  store_err, panicked, HandleError, group_repo_err, Outgoing, publish_err, no_receiver, not_allowed,
  loaded, conv_add, load_panicked,
}
use sdim.Topic.Deliver.{update_conv}
use sdim.Base.{
  ℕ, String, List, Bool, false, if◌then◌else◌, ◌∷◌, map, str_eq, ◌==◌, none, [], Option, not, some,
  ◌&&◌, true,
}

module _ {D : Type 0} (sv : Services D) where
  unfoldable pub sync_p2p :
      String → ℕ → MsgComingParam → List ConvItem → Bool → ℕ → World D → World D × Bool
  unfolding transfer_conv_tree_for_origin update_conv adopt_tree_p2p sync_members conv_add_event
  sync_p2p conv_id conv_type pa items added now w = elim (sv.cr.get_conv_tree w.db conv_id) [
    | none ↦ (w, false)
    | some tree ↦
        let (msg_seq, _, last_active_ts, seqs) =
          transfer_conv_tree_for_origin sv.parse tree (map (λ item. item.owner_uid) items) in
        let cm =
          sync_members conv_id conv_type msg_seq (λ ci. ci.title)
            (λ ci. elim (lookup ci.owner_uid seqs) [ none ↦ 0 | some seq ↦ seq ]) items
            (update_conv (adopt_tree_p2p msg_seq last_active_ts) conv_id w.cm) in
        let sent : List Outgoing =
          if added
          then conv_add (conv_add_event conv_id conv_type pa items now) ∷ w.sent
          else w.sent in
        (record w { cm = cm; sent = sent }, true)
  ]

  -- SendMsg, with the sequence as the answer.
  unfoldable pub send_msg : MsgSendReceivePayload → World D → World D × Handled
  send_msg pd w =
      if sv.publish pd
      then (record w { sent = msg_receive pd ∷ w.sent }, handled pd.msg_seq)
      else (w, failed publish_err)

  unfoldable pub finish_p2p :
      String → ℕ → ℕ → MsgComingParam → ℕ → Conversation → World D → World D × Handled
  unfolding send_msg send_receive_payload is_key
  finish_p2p conv_id msg_id conv_type pa now c w =
      let (db, stored) = sv.cr.modify_conv_tree w.db pa.sender conv_id msg_id in
      let w' = record w { db = db } in
      elim stored [
        | none ↦ (w', failed store_err)
        | some (seq, last_ts) ↦
            if is_key pa.receiver c.members
            then send_msg
                (send_receive_payload conv_id msg_id conv_type pa seq last_ts (pa.receiver ∷ [])
                  now)
                w'
            else (w', failed no_receiver)
      ]

  unfoldable pub p2p_conv_handle : String → ℕ → ℕ → MsgComingParam → ℕ → World D → World D × Handled
  unfolding load_p2p sync_p2p finish_p2p
  p2p_conv_handle conv_id msg_id conv_type pa now w =
      let (w1, l) = load_p2p sv conv_id conv_type pa now w in
      elim l [
        | load_failed e ↦ (w1, failed e)
        | load_panicked ↦ (w1, panicked)
        | loaded c [] added ↦ finish_p2p conv_id msg_id conv_type pa now c w1
        | loaded c (item ∷ items) added ↦
            let (w2, synced) = sync_p2p conv_id conv_type pa (item ∷ items) added now w1 in
            if synced
            then finish_p2p conv_id msg_id conv_type pa now c w2
            else (w2, failed store_err)
      ]

  unfoldable pub group_title : GroupRow → ConvItem → String
  group_title row ci = if str_eq ci.remark "" then row.group_name else ci.remark

  unfoldable pub sync_group :
      String → ℕ → String → List ConvItem → World D → World D × Option HandleError
  unfolding extract update_conv adopt_tree_group sync_members group_title pkg_browse_seq_key
  sync_group conv_id conv_type grp_no items w = elim (sv.cr.get_conv_tree w.db conv_id) [
    | none ↦ (w, some store_err)
    | some tree ↦
        let msg_seq = extract sv.parse tree msg_seq_key in
        let cm =
          update_conv
            (adopt_tree_group msg_seq (extract sv.parse tree last_msg_id_key)
              (extract sv.parse tree last_active_ts_key))
            conv_id w.cm in
        elim (sv.gr.find_group_info grp_no) [
          | none ↦ (record w { cm = cm }, some group_repo_err)
          | some row ↦ (
            record w {
              cm =
                  sync_members conv_id conv_type msg_seq (group_title row)
                    (λ ci. extract sv.parse tree (pkg_browse_seq_key ci.owner_uid)) items cm;
            },
            none,
          )
        ]
  ]

  unfoldable pub finish_group :
      String → ℕ → ℕ → MsgComingParam → ℕ → ℕ → World D → World D × Handled
  unfolding on_send_msg_in_group can_send_msg_in_group send_msg send_receive_payload
  finish_group conv_id msg_id conv_type pa now secs w =
      let (groups, info) =
        on_send_msg_in_group sv.gr w.groups pa.receiver pa.sender conv_id pa.client_unique_id in
      let w1 = record w { groups = groups } in
      elim info [
        | none ↦ (w1, failed group_repo_err)
        | some can ↦ elim (can_send_msg_in_group can secs) [
          | some e ↦ (w1, failed (not_allowed e))
          | none ↦
              let (db, stored) = sv.cr.modify_conv_tree w1.db pa.sender conv_id msg_id in
              let w2 = record w1 { db = db } in
              elim stored [
                | none ↦ (w2, failed store_err)
                | some (seq, last_ts) ↦
                    send_msg
                      (send_receive_payload conv_id msg_id conv_type pa seq last_ts
                        can.forward_members now)
                      w2
              ]
        ]
      ]

  -- A time `now` is in milliseconds, `secs` in seconds.
  unfoldable pub group_conv_handle :
      String → ℕ → ℕ → MsgComingParam → ℕ → ℕ → World D → World D × Handled
  unfolding load_group sync_group finish_group
  group_conv_handle conv_id msg_id conv_type pa now secs w =
      let (w1, l) = load_group sv conv_id w in
      elim l [
        | load_failed e ↦ (w1, failed e)
        | load_panicked ↦ (w1, panicked)
        | loaded c [] _ ↦ finish_group conv_id msg_id conv_type pa now secs w1
        | loaded c (item ∷ items) _ ↦
            let (w2, e) = sync_group conv_id conv_type pa.receiver (item ∷ items) w1 in
            elim e [
              | some err ↦ (w2, failed err)
              | none ↦ finish_group conv_id msg_id conv_type pa now secs w2
            ]
      ]

  unfoldable pub conv_id_of : MsgComingParam → String
  unfolding generate_p2p_conv_id
  conv_id_of pa =
      if pa.chat_type == p2p_chat && str_eq pa.conv_id ""
      then generate_p2p_conv_id pa.sender pa.receiver
      else pa.conv_id

  -- `msg_id` is the next id of the sequence generator. ValidateMsgContent accepts every content.
  unfoldable pub on_msg_coming : MsgComingParam → ℕ → ℕ → ℕ → World D → World D × Handled
  unfolding conv_id_of get_conv_type_with_chat_type p2p_conv_handle group_conv_handle
  on_msg_coming pa msg_id now secs w =
      let conv_id = conv_id_of pa in
      let conv_type = get_conv_type_with_chat_type pa.chat_type in
      if not pa.is_conv_type
      then (w, handled 0)
      else if conv_type == p2p_conv
      then p2p_conv_handle conv_id msg_id conv_type pa now w
      else if conv_type == group_conv
      then group_conv_handle conv_id msg_id conv_type pa now secs w
      else (w, handled 0)
