-- ===== src/Topic/Groups.antt =====
-- conv_manager.go on group conversations made outside a message: UpsertGroupChatConv,
-- UpdateGroupChatAfterCreatedEventSent and OnGroupDataChanged.
use sdim.Base.Maps.{lookup, insert}
use sdim.Topic.Deliver.{update_conv, update_item}
use sdim.Topic.Types.{
  MemberConv, ConvManager, OnGroupDataChangedParam, group_conv, Conversation, MemberConvWrap,
}
use sdim.Base.{
  String, List, Option, ℕ, text_append, Bool, none, false, ◌∷◌, if◌then◌else◌, some, [], ltb, true,
  str_eq,
}

-- The keys of a Go map whose values say nothing: each of them once.
unfoldable pub add_key : String → List String → List String
add_key k [] = k ∷ []
add_key k (x ∷ xs) = let rest = add_key k xs in if str_eq x k then x ∷ xs else x ∷ rest

-- The key set that usli.ToMapAir makes of a slice.
unfoldable pub to_map_air : List String → List String → List String
unfolding add_key
to_map_air [] acc = acc
to_map_air (x ∷ xs) acc = to_map_air xs (add_key x acc)

unfoldable pub blank_group_conv : String → List String → Conversation
unfolding to_map_air
blank_group_conv conv_id members = record {
  id = conv_id;
  type = group_conv;
  last_active_ts = 0;
  members = to_map_air members [];
  msg_seq = 0;
  last_msg_id = 0;
  last_msg = none;
  recently_msgs = [];
}

unfoldable pub group_member_conv : String → String → String → String → MemberConv
group_member_conv conv_id group_no icon title = record {
  id = conv_id;
  type = group_conv;
  icon = icon;
  title = title;
  relation_id = group_no;
  remark = "";
  pin_top = false;
  no_disturb = false;
  browse_msg_seq = 0;
  unread_count = 0;
  cts = 0;
  uts = 0;
}

-- A user's conversation list with the cell of one conversation changed, or added at the end.
unfoldable pub upsert_item :
    (MemberConv → MemberConv) → MemberConv → String → Option MemberConvWrap → MemberConvWrap
upsert_item f fresh conv_id none = (conv_id, fresh) ∷ []
upsert_item f fresh conv_id (some wrap) = elim (lookup conv_id wrap) [
  | none ↦ insert conv_id fresh wrap
  | some item ↦ insert conv_id (f item) wrap
]

-- One cell for each entry, in the list of the user that it names.
unfoldable pub upsert_members :
    {E : Type 0}
    → (E → String)
    → (E → MemberConv → MemberConv)
    → (E → MemberConv)
    → String
    → List E
    → List (String × MemberConvWrap)
    → List (String × MemberConvWrap)
unfolding upsert_item
upsert_members uid f fresh conv_id [] users = users
upsert_members uid f fresh conv_id (e ∷ es) users =
    upsert_members uid f fresh conv_id es
      (insert (uid e) (upsert_item (f e) (fresh e) conv_id (lookup (uid e) users)) users)

-- The source always answers false.
unfoldable pub upsert_group_chat_conv :
    ConvManager → String → String → String → String → List String → ConvManager × Bool
unfolding blank_group_conv upsert_members group_member_conv
upsert_group_chat_conv cm conv_id group_no icon title members =
    let convs : List (String × Conversation) = elim (lookup conv_id cm.conv_id2items) [
      | some _ ↦ cm.conv_id2items
      | none ↦ insert conv_id (blank_group_conv conv_id members) cm.conv_id2items
    ] in
    let users =
      upsert_members (λ uid. uid) (λ _ item. record item { icon = icon; title = title })
        (λ _. group_member_conv conv_id group_no icon title) conv_id members cm.uid2conv_items in
    (record cm { conv_id2items = convs; uid2conv_items = users }, false)

unfoldable pub update_group_chat_after_created_event_sent :
    ConvManager → String → ℕ → ℕ → ConvManager
unfolding update_conv
update_group_chat_after_created_event_sent cm conv_id msg_id active_ts =
    update_conv
      (λ conv. record conv {
        last_msg_id = if ltb conv.last_msg_id msg_id then msg_id else conv.last_msg_id;
        last_active_ts =
            if ltb conv.last_active_ts active_ts then active_ts else conv.last_active_ts;
      })
      conv_id cm

unfoldable pub generate_group_chat_conv_id : String → String
generate_group_chat_conv_id grp_no = text_append "grp:" grp_no

unfoldable pub changed_data : OnGroupDataChangedParam → MemberConv → MemberConv
changed_data param item = record item {
  title = elim param.group_name [ none ↦ item.title | some name ↦ name ];
  icon = elim param.group_icon [ none ↦ item.icon | some icon ↦ icon ];
  remark = elim param.remark [ none ↦ item.remark | some remark ↦ remark ];
}

unfoldable pub change_members :
    OnGroupDataChangedParam → String → List String → ConvManager → ConvManager
unfolding changed_data update_item
change_members param conv_id [] cm = cm
change_members param conv_id (uid ∷ uids) cm =
    change_members param conv_id uids (update_item (changed_data param) uid conv_id cm)

unfoldable pub on_group_data_changed : ConvManager → OnGroupDataChangedParam → ConvManager × Bool
unfolding change_members generate_group_chat_conv_id
on_group_data_changed cm param = elim param.uids [
  | [] ↦ (cm, false)
  | _ ∷ _ ↦ (change_members param (generate_group_chat_conv_id param.group_no) param.uids cm, true)
]
