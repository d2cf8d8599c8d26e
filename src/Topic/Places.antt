-- ===== src/Topic/Places.antt =====
-- RecentlyConvList: what stands at each place of the list.
use sdim.Topic.Listing.{list_items, conv_list, list_item_of}
use sdim.Base.Maps.{lookup}
use sdim.Topic.Types.{ConvManager, MsgItemInMem, ConvListItem, MemberConv, MemberConvWrap}
use sdim.Base.{
  List, Option, String, Bool, ◌∷◌, some, none, ◌≡◌, [], map, Option-cases, refl, inl, ap, inr,
}

-- The ids that a list names, where `none` is the place of a conversation that is not in memory.
abbrev pub listed_ids : List (Option ConvListItem) → List (Option String)
listed_ids [] = []
listed_ids (none ∷ places) = none ∷ listed_ids places
listed_ids (some item ∷ places) = some item.conv_id ∷ listed_ids places

-- The id of a conversation that is in memory.
abbrev pub present : ConvManager → String × MemberConv → Option String
present cm (_, item) = elim (lookup item.id cm.conv_id2items) [
  | none ↦ none
  | some _ ↦ some item.id
]

module _ (sort : List MsgItemInMem → List MsgItemInMem) (cm : ConvManager) (msgs : Bool) where
  list_items-present :
      (items : List (String × MemberConv))
      → listed_ids (list_items sort cm msgs items) ≡ map (present cm) items
  unfolding list_items list_item_of
  list_items-present [] = refl
  list_items-present ((k, item) ∷ items) = elim (Option-cases (lookup item.id cm.conv_id2items)) [
    | inl gone ↦ rw (gone, present) (ap (◌∷◌ none) (list_items-present items))
    | inr (c, found) ↦ rw (found, present) (ap (◌∷◌ (some item.id)) (list_items-present items))
  ]

  -- The list of a user has one place for each of the user's conversations, in the order in which
  -- they came, with the conversation's id. The place of a conversation that is not in memory is a
  -- nil pointer: it is not left out.
  pub conv_list-present :
      (uid : String) (wrap : MemberConvWrap)
      → lookup uid cm.uid2conv_items ≡ some wrap
      → listed_ids (conv_list sort cm uid msgs).0 ≡ map (present cm) wrap
  unfolding conv_list
  conv_list-present uid [] e = rw (e, conv_list) refl
  conv_list-present uid (item ∷ items) e = rw (e, conv_list) (list_items-present (item ∷ items))
