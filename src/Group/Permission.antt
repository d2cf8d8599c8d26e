-- ===== src/Group/Permission.antt =====
-- Who may send a message to a group.
use sdim.Base.Maps.{lookup}
use sdim.Base.Ints.{ℤ, pos, negsuc}
use sdim.Base.{String, ℕ, ◌≡◌, ◌≢◌, some, none, ◌⊎◌, true, [], ◌↔◌, arith, ◌≤◌, ◌<◌, Option, refl}
use sdim.Group.Types.{
  GroupInfo, GroupMebItem, grp_normal, grp_frozen, grp_meb_normal, grp_dismissed, grp_meb_kicked,
}
use sdim.Group.Ops.{
  SendError, group_frozen, can_send_msg_in_group, group_info2can_send_info, group_forbidden,
  group_dismissed, meb_be_kicked,
}

-- The order of the integers, against a time.
abbrev pub SilencedUntil : ℤ → ℕ → Type 0
SilencedUntil (pos t) now = now < t
SilencedUntil (negsuc t) now = ⊥

abbrev pub NotSilenced : ℤ → ℕ → Type 0
NotSilenced (pos t) now = t ≤ now
NotSilenced (negsuc t) now = Unit

-- A member of a normal group is let through exactly when in the normal state with a forbidden_at
-- that is no later than now; states are those that the constants name. Who was taken out is refused
-- as kicked and nobody else is; a member whose forbidden_at is later is refused with the error of a
-- frozen group and this time, and nobody else is. The bug: a negative forbidden_at, which stands for
-- a member who is silenced for good, is no later than now, so this member is let through.
pub member_may_send :
    (info : GroupInfo) (sender conv_id msg_client_id : String) (now : ℕ) (item : GroupMebItem)
    → info.state ≡ grp_normal
    → lookup sender info.meb2item ≡ some item
    → (item.state ≡ grp_meb_normal) ⊎ (item.state ≡ grp_meb_kicked)
    → ((can_send_msg_in_group (group_info2can_send_info info sender conv_id msg_client_id) now
          ≡ none)
        ↔ ((item.state ≡ grp_meb_normal) × NotSilenced item.forbidden_at now))
      × ((can_send_msg_in_group (group_info2can_send_info info sender conv_id msg_client_id) now
            ≡ some meb_be_kicked)
          ↔ (item.state ≡ grp_meb_kicked))
      × ((can_send_msg_in_group (group_info2can_send_info info sender conv_id msg_client_id) now
            ≡ some (group_frozen item.forbidden_at))
          ↔ ((item.state ≡ grp_meb_normal) × SilencedUntil item.forbidden_at now))
unfolding can_send_msg_in_group group_info2can_send_info
member_may_send info sender conv_id msg_client_id now item n e s = go item.forbidden_at refl
  where
    answer : Option SendError
    answer = can_send_msg_in_group (group_info2can_send_info info sender conv_id msg_client_id) now

    go :
        (z : ℤ)
        → item.forbidden_at ≡ z
        → ((answer ≡ none) ↔ ((item.state ≡ grp_meb_normal) × NotSilenced z now))
          × ((answer ≡ some meb_be_kicked) ↔ (item.state ≡ grp_meb_kicked))
          × ((answer ≡ some (group_frozen z))
              ↔ ((item.state ≡ grp_meb_normal) × SilencedUntil z now))
    go (pos t) q = (
      (λ h. ground arith, λ h. ground arith),
      (λ h. ground arith, λ h. ground arith),
      (λ h. ground arith, λ h. ground arith),
    )
    go (negsuc t) q = (
      (λ h. ground arith, λ h. ground arith),
      (λ h. ground arith, λ h. ground arith),
      (λ h. ground arith, λ h. absurd h.1),
    )

-- A group that is frozen or dismissed refuses everybody, member or not: with the dismissed error
-- exactly when it is dismissed. The bug: a frozen group is refused with the error that erespcode
-- has for a silenced group, and never with the one that it has for a frozen group, whatever time
-- that would carry.
pub closed_group_refuses :
    (info : GroupInfo) (sender conv_id msg_client_id : String) (now : ℕ) (until : ℤ)
    → (info.state ≡ grp_frozen) ⊎ (info.state ≡ grp_dismissed)
    → ((can_send_msg_in_group (group_info2can_send_info info sender conv_id msg_client_id) now
          ≡ some group_forbidden)
        ↔ (info.state ≡ grp_frozen))
      × ((can_send_msg_in_group (group_info2can_send_info info sender conv_id msg_client_id) now
            ≡ some group_dismissed)
          ↔ (info.state ≡ grp_dismissed))
      × (can_send_msg_in_group (group_info2can_send_info info sender conv_id msg_client_id) now
          ≢ some (group_frozen until))
unfolding can_send_msg_in_group group_info2can_send_info
closed_group_refuses info sender conv_id msg_client_id now until s = (
  (λ h. ground arith, λ h. ground arith),
  (λ h. ground arith, λ h. ground arith),
  λ h. ground arith,
)

-- The bug: who is no member of a normal group is let through, because the answer for a non-member
-- leaves the group's state at its zero value, which the check takes for an unnamed state of the
-- group before it asks for membership. The message then has no receivers.
pub stranger_may_send :
    (info : GroupInfo) (sender conv_id msg_client_id : String) (now : ℕ)
    → info.state ≡ grp_normal
    → lookup sender info.meb2item ≡ none
    → let answer = group_info2can_send_info info sender conv_id msg_client_id in
      (answer.meb_not_in_grp ≡ true)
      × (can_send_msg_in_group answer now ≡ none)
      × (answer.forward_members ≡ [])
unfolding can_send_msg_in_group group_info2can_send_info
stranger_may_send info sender conv_id msg_client_id now n e = ground arith
