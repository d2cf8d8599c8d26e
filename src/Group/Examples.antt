-- ===== src/Group/Examples.antt =====
-- The group manager on a group of two.
use sdim.Base.Ints.{pos}
use sdim.Group.Removal.{mem, removed_member}
use sdim.Group.Permission.{
  stranger_may_send, member_may_send, closed_group_refuses, NotSilenced, SilencedUntil,
}
use sdim.Group.Ops.{
  can_send_msg_in_group, group_info2can_send_info, on_group_meb_removed, forward_members,
  group_forbidden, meb_be_kicked, group_dismissed, group_frozen,
}
use sdim.Base.Maps.{lookup}
use sdim.Group.Members.{DistinctKeys, Has, IsReceiver, forward_members_iff}
use sdim.Group.Types.{
  GroupInfo, grp_frozen, GroupMebItem, grp_normal, grp_meb_normal, owner, ordinary_meb,
  grp_dismissed, grp_meb_kicked,
}
use sdim.Base.{ℕ, str_ne, ◌≡◌, ◌≢◌, ◌∷◌, some, none, [], ◌↔◌, true, String, refl, inl, false}

abbrev member : ℕ → GroupMebItem
member role = record {
  role = role;
  state = grp_meb_normal;
  forbidden_sec = 0;
  forbidden_at = pos 0;
  cts = 0;
  uts = 0;
}

abbrev group : GroupInfo
group = record {
  group_no = "g";
  state = grp_normal;
  creator = "";
  owner_uid = "ann";
  meb2item = ("ann", member owner) ∷ ("bob", member ordinary_meb) ∷ [];
  cts = 0;
  uts = 0;
}

group-DistinctKeys : DistinctKeys group.meb2item
group-DistinctKeys = ((str_ne "bob" "ann" refl, tt), (tt, tt))

bob_listed : lookup "bob" group.meb2item ≡ some (member ordinary_meb)
unfolding lookup
bob_listed = refl

eve_absent : lookup "eve" group.meb2item ≡ none
unfolding lookup
eve_absent = refl

group_known : lookup "g" (("g", group) ∷ []) ≡ some group
unfolding lookup
group_known = refl

removed_member_example :
    (info' : GroupInfo) × (lookup "g" (on_group_meb_removed (("g", group) ∷ []) "g" ("bob" ∷ []))
      ≡ some info')
    × ((conv_id msg_client_id : String) (now : ℕ)
        → can_send_msg_in_group (group_info2can_send_info info' "bob" conv_id msg_client_id) now
          ≡ some meb_be_kicked)
    × ((sender : String) → ¬ Has "bob" (forward_members sender info'.meb2item))
    × ((v : String)
        → mem ("bob" ∷ []) v ≡ false
        → lookup v info'.meb2item ≡ lookup v group.meb2item)
removed_member_example =
    removed_member (("g", group) ∷ []) "g" ("bob" ∷ []) group "bob" (member ordinary_meb)
      group_known refl group-DistinctKeys bob_listed refl

forward_members_iff_example :
    Has "bob" (forward_members "ann" group.meb2item) ↔ IsReceiver "ann" group.meb2item "bob"
forward_members_iff_example = forward_members_iff "ann" "bob" group.meb2item group-DistinctKeys

member_may_send_example :
    ((can_send_msg_in_group (group_info2can_send_info group "bob" "c" "m") 5 ≡ none)
      ↔ ((grp_meb_normal ≡ grp_meb_normal) × NotSilenced (member ordinary_meb).forbidden_at 5))
    × ((can_send_msg_in_group (group_info2can_send_info group "bob" "c" "m") 5 ≡ some meb_be_kicked)
        ↔ (grp_meb_normal ≡ grp_meb_kicked))
    × ((can_send_msg_in_group (group_info2can_send_info group "bob" "c" "m") 5
          ≡ some (group_frozen (pos 0)))
        ↔ ((grp_meb_normal ≡ grp_meb_normal) × SilencedUntil (member ordinary_meb).forbidden_at 5))
member_may_send_example =
    member_may_send group "bob" "c" "m" 5 (member ordinary_meb) refl bob_listed (inl refl)

abbrev frozen_group : GroupInfo
frozen_group = record group { state = grp_frozen }

closed_group_refuses_example :
    ((can_send_msg_in_group (group_info2can_send_info frozen_group "bob" "c" "m") 5
        ≡ some group_forbidden)
      ↔ (grp_frozen ≡ grp_frozen))
    × ((can_send_msg_in_group (group_info2can_send_info frozen_group "bob" "c" "m") 5
          ≡ some group_dismissed)
        ↔ (grp_frozen ≡ grp_dismissed))
    × (can_send_msg_in_group (group_info2can_send_info frozen_group "bob" "c" "m") 5
        ≢ some (group_frozen (pos 7)))
closed_group_refuses_example = closed_group_refuses frozen_group "bob" "c" "m" 5 (pos 7) (inl refl)

stranger_may_send_example :
    ((group_info2can_send_info group "eve" "c" "m").meb_not_in_grp ≡ true)
    × (can_send_msg_in_group (group_info2can_send_info group "eve" "c" "m") 5 ≡ none)
    × ((group_info2can_send_info group "eve" "c" "m").forward_members ≡ [])
stranger_may_send_example = stranger_may_send group "eve" "c" "m" 5 refl eve_absent
