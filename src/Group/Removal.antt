-- ===== src/Group/Removal.antt =====
-- Members taken out of a group, and let in again.
use sdim.Base.Ints.{pos}
use sdim.Group.Permission.{member_may_send}
use sdim.Group.Members.{DistinctKeys, Has, DistinctKeys-insert, IsReceiver, forward_members_iff}
use sdim.Group.Ops.{
  on_group_meb_removed, can_send_msg_in_group, group_info2can_send_info, meb_be_kicked,
  forward_members, kick, enrol,
}
use sdim.Base.Maps.{lookup, insert, lookup-insert}
use sdim.Group.Types.{
  GroupMebItem, grp_meb_kicked, ordinary_meb, Groups, grp_meb_normal, GroupInfo, grp_normal,
}
use sdim.Base.{
  List, String, Bool, false, ◌≡◌, none, ◌∷◌, some, if◌then◌else◌, str_eq, ◌||◌, arith, eq_iff, [],
  Option-cases, Option, ℕ, inl, refl, inr, true, Bool-cases, subst, ap, ◌∙◌, sym,
}
use mathlib.Core.Option

abbrev pub mem : List String → String → Bool
mem [] u = false
mem (x ∷ xs) u = str_eq x u || mem xs u

abbrev pub kicked : GroupMebItem → GroupMebItem
kicked item = record item { state = grp_meb_kicked }

abbrev kick_one : String → List (String × GroupMebItem) → List (String × GroupMebItem)
kick_one uid items = elim (lookup uid items) [
  | none ↦ items
  | some item ↦ insert uid (kicked item) items
]

lookup-kick_one :
    (uid u : String) (items : List (String × GroupMebItem))
    → lookup u (kick_one uid items)
      ≡ (if str_eq uid u then Option.map kicked (lookup u items) else lookup u items)
lookup-kick_one uid u items = elim (Option-cases (lookup uid items)) [
  | inl e ↦
      ap (λ o. lookup u (elim o [ none ↦ items | some item ↦ insert uid (kicked item) items ])) e
      ∙ unchanged e
  | inr (item, e) ↦
      ap (λ o. lookup u (elim o [ none ↦ items | some item ↦ insert uid (kicked item) items ])) e
      ∙ lookup-insert uid u (kicked item) items
      ∙ changed item e
]
  where
    unchanged :
        lookup uid items ≡ none
        → lookup u items
          ≡ (if str_eq uid u then Option.map kicked (lookup u items) else lookup u items)
    unchanged e = elim (Bool-cases (str_eq uid u)) [
      | inl same ↦ rw same (
          let gone : lookup u items ≡ none =
            subst (λ k. lookup k items ≡ none) ((eq_iff _ _).0 same) e in
          rw gone refl)
      | inr other ↦ rw other refl
    ]

    changed :
        (item : GroupMebItem)
        → lookup uid items ≡ some item
        → (if str_eq uid u then some (kicked item) else lookup u items)
          ≡ (if str_eq uid u then Option.map kicked (lookup u items) else lookup u items)
    changed item e = elim (Bool-cases (str_eq uid u)) [
      | inl same ↦ rw same (
          let found : lookup u items ≡ some item =
            subst (λ k. lookup k items ≡ some item) ((eq_iff _ _).0 same) e in
          rw found refl)
      | inr other ↦ rw other refl
    ]

map-kicked_twice :
    (o : Option GroupMebItem) → Option.map kicked (Option.map kicked o) ≡ Option.map kicked o
map-kicked_twice none = refl
map-kicked_twice (some item) = refl

pub lookup-kick :
    (uids : List String) (u : String) (items : List (String × GroupMebItem))
    → lookup u (kick uids items)
      ≡ (if mem uids u then Option.map kicked (lookup u items) else lookup u items)
unfolding kick
lookup-kick [] u items = refl
lookup-kick (uid ∷ uids) u items =
    rw (lookup-kick uids u (kick_one uid items), lookup-kick_one uid u items)
      (ground (arith, map-kicked_twice (lookup u items)))

DistinctKeys-kick :
    (uids : List String) (items : List (String × GroupMebItem))
    → DistinctKeys items
    → DistinctKeys (kick uids items)
unfolding kick
DistinctKeys-kick [] items d = d
DistinctKeys-kick (uid ∷ uids) items d =
    DistinctKeys-kick uids (kick_one uid items) (one (lookup uid items))
  where
    one :
        (o : Option GroupMebItem)
        → DistinctKeys (elim o [ none ↦ items | some item ↦ insert uid (kicked item) items ])
    one none = d
    one (some item) = DistinctKeys-insert uid (kicked item) items d

DistinctKeys-enrol :
    (mills : ℕ) (uids : List String) (items : List (String × GroupMebItem))
    → DistinctKeys items
    → DistinctKeys (enrol mills uids items)
unfolding enrol
DistinctKeys-enrol mills [] items d = d
DistinctKeys-enrol mills (uid ∷ uids) items d =
    DistinctKeys-enrol mills uids _ (DistinctKeys-insert uid _ items d)

abbrev pub fresh_item : ℕ → GroupMebItem
fresh_item mills = record {
  role = ordinary_meb;
  state = grp_meb_normal;
  forbidden_sec = 0;
  forbidden_at = pos 0;
  cts = mills;
  uts = mills;
}

pub lookup-enrol :
    (mills : ℕ) (uids : List String) (u : String) (items : List (String × GroupMebItem))
    → lookup u (enrol mills uids items)
      ≡ (if mem uids u then some (fresh_item mills) else lookup u items)
unfolding enrol
lookup-enrol mills [] u items = refl
lookup-enrol mills (uid ∷ uids) u items =
    rw
      (
        lookup-enrol mills uids u (insert uid (fresh_item mills) items),
        lookup-insert uid u (fresh_item mills) items,
      )
      (ground arith)

not_normal : (item it : GroupMebItem) → some (kicked item) ≡ some it → ¬ (it.state ≡ grp_meb_normal)
not_normal item it q s = let same : grp_meb_kicked ≡ it.state = cc in omega (arith, same, s)

-- Who is taken out of a group in memory stays listed there: a send of his is refused as kicked,
-- nobody's message is forwarded to him, and whoever is not on the list keeps his entry. The group
-- is in memory and normal, he is a member on the list, and the map of members has distinct keys.
pub removed_member :
    (gs : Groups) (grp_no : String) (rem_uids : List String) (info : GroupInfo) (u : String)
    (item : GroupMebItem)
    → lookup grp_no gs ≡ some info
    → info.state ≡ grp_normal
    → DistinctKeys info.meb2item
    → lookup u info.meb2item ≡ some item
    → mem rem_uids u ≡ true
    → (info' : GroupInfo) × (lookup grp_no (on_group_meb_removed gs grp_no rem_uids) ≡ some info')
      × ((conv_id msg_client_id : String) (now : ℕ)
          → can_send_msg_in_group (group_info2can_send_info info' u conv_id msg_client_id) now
            ≡ some meb_be_kicked)
      × ((sender : String) → ¬ Has u (forward_members sender info'.meb2item))
      × ((v : String) → mem rem_uids v ≡ false → lookup v info'.meb2item ≡ lookup v info.meb2item)
unfolding on_group_meb_removed
removed_member gs grp_no rem_uids info u item g n d e m = (
  record info { meb2item = kick rem_uids info.meb2item },
  rw (g, on_group_meb_removed)
      (rw
        (
          lookup-insert grp_no grp_no (record info { meb2item = kick rem_uids info.meb2item }) gs,
          (eq_iff grp_no grp_no).1 refl,
        )
        refl),
  λ conv_id msg_client_id now.
      (((member_may_send (record info { meb2item = kick rem_uids info.meb2item }) u conv_id
            msg_client_id now (kicked item) n listed (inr refl)).1
          ).1
        refl),
  λ sender h.
      not_receiver sender
        ((forward_members_iff sender u _ (DistinctKeys-kick rem_uids info.meb2item d)).0 h),
  λ v w. rw (lookup-kick rem_uids v info.meb2item, w) refl,
)
  where
    listed : lookup u (kick rem_uids info.meb2item) ≡ some (kicked item)
    listed = rw (lookup-kick rem_uids u info.meb2item, m, e) refl

    not_receiver : (sender : String) → ¬ IsReceiver sender (kick rem_uids info.meb2item) u
    not_receiver sender (it, q, _, s) = not_normal item it (sym listed ∙ q) s
