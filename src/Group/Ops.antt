-- ===== src/Group/Ops.antt =====
-- grp_manager.go, and the check of canSendMsgInGroup. A method returns the groups it leaves.
use mathlib.Core.Option
use sdim.Base.Maps.{insert, lookup}
use sdim.Group.Types.{
  Groups, GroupItemRow, GroupRepository, GroupInfo, CanSendInfo, GroupMebItem, GroupRow, grp_normal,
  grp_meb_normal, grp_meb_kicked, ordinary_meb, owner, grp_frozen, grp_dismissed,
}
use sdim.Base.Ints.{ℤ, pos, above}
use sdim.Base.{
  ℕ, List, String, Option, false, none, ◌∷◌, [], some, if◌then◌else◌, ◌==◌, str_eq, not, map,
  length, true, ◌&&◌,
}

unfoldable pub created_mebs :
    ℕ → List (String × ℕ) → List (String × GroupMebItem) → List (String × GroupMebItem)
created_mebs mills [] acc = acc
created_mebs mills ((uid, role) ∷ rest) acc = created_mebs mills rest (
    insert uid
      (record {
        role = role;
        state = grp_meb_normal;
        forbidden_sec = 0;
        forbidden_at = pos 0;
        cts = mills;
        uts = mills;
      })
      acc)

-- The source leaves Creator empty.
unfoldable pub on_group_created : Groups → String → String → List (String × ℕ) → ℕ → Groups
unfolding created_mebs
on_group_created gs grp_no creator uid2role mills =
    insert grp_no
      (record {
        group_no = grp_no;
        state = grp_normal;
        creator = "";
        owner_uid = creator;
        meb2item = created_mebs mills uid2role [];
        cts = mills;
        uts = mills;
      })
      gs

abbrev pub item_of : GroupItemRow → GroupMebItem
item_of row = record {
  role = row.role;
  state = row.state;
  forbidden_sec = row.forbidden_dur;
  forbidden_at = row.forbidden_at;
  cts = row.cts;
  uts = row.uts;
}

-- The loop of initGroupInfoLazy: the first owner's uid, and the members.
unfoldable pub load_items :
    List GroupItemRow
    → String
    → List (String × GroupMebItem)
    → String × List (String × GroupMebItem)
load_items [] owner_uid items = (owner_uid, items)
load_items (row ∷ rows) owner_uid items =
    load_items rows (if row.role == owner && str_eq owner_uid "" then row.uid else owner_uid)
      (insert row.uid (item_of row) items)

unfoldable pub loaded_group : String → GroupRow → List GroupItemRow → GroupInfo
unfolding load_items
loaded_group grp_no row rows =
    let loaded = load_items rows "" [] in
    record {
      group_no = grp_no;
      state = row.state;
      creator = row.creator;
      owner_uid = loaded.0;
      meb2item = loaded.1;
      cts = row.cts;
      uts = row.uts;
    }

module _ (gr : GroupRepository) where
  -- `none` is an error of the repository; the groups are then as before.
  unfoldable pub init_group_info_lazy : Groups → String → Groups × Option GroupInfo
  unfolding loaded_group
  init_group_info_lazy gs grp_no = elim (lookup grp_no gs) [
    | some info ↦ (gs, some info)
    | none ↦ elim (gr.find_group_info grp_no) [
      | none ↦ (gs, none)
      | some row ↦ elim (gr.find_group_items grp_no) [
        | none ↦ (gs, none)
        | some rows ↦ let info = loaded_group grp_no row rows in (insert grp_no info gs, some info)
      ]
    ]
  ]

-- The uids that a message goes to: the sender and those not in the normal state are left out.
unfoldable pub forward_members : String → List (String × GroupMebItem) → List String
forward_members sender [] = []
forward_members sender ((uid, item) ∷ rest) =
    let others = forward_members sender rest in
    if str_eq uid sender
    then others
    else if not (item.state == grp_meb_normal)
    then others
    else uid ∷ others

unfoldable pub group_info2can_send_info : GroupInfo → String → String → String → CanSendInfo
unfolding forward_members
group_info2can_send_info info sender conv_id msg_client_id =
    let blank : CanSendInfo = record {
      grp_state = 0;
      meb_not_in_grp = false;
      grp_meb_state = 0;
      forbidden_sec = 0;
      forbidden_at = pos 0;
      client_msg_id = msg_client_id;
      conv_id = conv_id;
      forward_members = [];
    } in
    if not (info.state == grp_normal)
    then record blank { grp_state = info.state }
    else (elim (lookup sender info.meb2item) [
      | none ↦ record blank { meb_not_in_grp = true }
      | some item ↦ record blank {
        grp_state = info.state;
        grp_meb_state = item.state;
        forbidden_sec = item.forbidden_sec;
        forbidden_at = item.forbidden_at;
        forward_members = forward_members sender info.meb2item;
      }
    ])

module _ (gr : GroupRepository) where
  unfoldable pub on_send_msg_in_group :
      Groups → String → String → String → String → Groups × Option CanSendInfo
  unfolding init_group_info_lazy group_info2can_send_info
  on_send_msg_in_group gs grp_no sender conv_id msg_client_id =
      let r = init_group_info_lazy gr gs grp_no in
      (r.0, Option.map (λ info. group_info2can_send_info info sender conv_id msg_client_id) r.1)

  unfoldable pub get_group_meb_uids : Groups → String → Groups × List String
  unfolding init_group_info_lazy
  get_group_meb_uids gs grp_no =
      let r = init_group_info_lazy gr gs grp_no in
      elim r.1 [
        | none ↦ (r.0, [])
        | some _ ↦ elim (lookup grp_no r.0) [
          | none ↦ (r.0, [])
          | some info ↦ (r.0, map (λ e. e.0) info.meb2item)
        ]
      ]

unfoldable pub kick : List String → List (String × GroupMebItem) → List (String × GroupMebItem)
kick [] items = items
kick (uid ∷ uids) items = kick uids (elim (lookup uid items) [
  | none ↦ items
  | some item ↦ insert uid (record item { state = grp_meb_kicked }) items
])

unfoldable pub on_group_meb_removed : Groups → String → List String → Groups
unfolding kick
on_group_meb_removed gs grp_no rem_uids = elim (lookup grp_no gs) [
  | none ↦ gs
  | some info ↦ insert grp_no (record info { meb2item = kick rem_uids info.meb2item }) gs
]

unfoldable pub enrol : ℕ → List String → List (String × GroupMebItem) → List (String × GroupMebItem)
enrol mills [] items = items
enrol mills (uid ∷ uids) items = enrol mills uids (
    insert uid
      (record {
        role = ordinary_meb;
        state = grp_meb_normal;
        forbidden_sec = 0;
        forbidden_at = pos 0;
        cts = mills;
        uts = mills;
      })
      items)

module _ (gr : GroupRepository) where
  -- The number of members afterwards; `none` is an error of the repository.
  unfoldable pub on_group_meb_added : Groups → String → List String → ℕ → Groups × Option ℕ
  unfolding init_group_info_lazy enrol
  on_group_meb_added gs grp_no uids mills =
      let r = init_group_info_lazy gr gs grp_no in
      elim r.1 [
        | none ↦ (r.0, none)
        | some _ ↦ elim (lookup grp_no r.0) [
          | none ↦ (r.0, some 0)
          | some info ↦
              let items = enrol mills uids info.meb2item in
              (insert grp_no (record info { meb2item = items }) r.0, some (length items))
        ]
      ]

-- The errors of erespcode that a send in a group can meet. The last carries the time.
pub data SendError : Type 0 where
  group_forbidden group_dismissed meb_not_in_group meb_be_kicked : SendError
  group_frozen : ℤ → SendError

-- `none` means that the message may be sent. `now` is in seconds.
unfoldable pub can_send_msg_in_group : CanSendInfo → ℕ → Option SendError
unfolding above
can_send_msg_in_group info now =
    if not (info.grp_state == grp_normal)
    then (if info.grp_state == grp_frozen
        then some group_forbidden
        else if info.grp_state == grp_dismissed
        then some group_dismissed
        else none)
    else if info.meb_not_in_grp
    then some meb_not_in_group
    else if not (info.grp_meb_state == grp_meb_normal)
    then (if info.grp_meb_state == grp_meb_kicked then some meb_be_kicked else none)
    else if above info.forbidden_at now
    then some (group_frozen info.forbidden_at)
    else none
