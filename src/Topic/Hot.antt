-- ===== src/Topic/Hot.antt =====
-- SyncHotConvList: with which numbers each conversation of a user is listed.
use sdim.Topic.Deliver.{unread}
use sdim.Base.Maps.{lookup}
use sdim.Topic.Types.{MsgItemInMem, ConvItem, ConvListItem, LastMsg}
use sdim.Topic.Listing.{
  sync_hot_conv_list, hot_items, hot_item, read_tree, newest, Carried, extract,
  transfer_conv_tree_for_batch,
}
use sdim.Base.{
  String, ℕ, List, Option, ◌≡◌, some, none, map, ◌∷◌, [], refl, ◌⊎◌, ◌-◌, inl, inr, arith,
}

-- What is listed last: the first of the messages, if there is one.
abbrev pub first_msg : List MsgItemInMem → Option LastMsg
first_msg [] = none
first_msg (m ∷ ms) =
    some (record { msg_id = m.msg_id; sender_info = m.sender_info; content = m.content })

module _ (parse : String → ℕ) (trees : List (String × List (String × String)))
    (msgs : List (String × List MsgItemInMem)) where
  -- A number of a tree: what stands under its key, or 0 when nothing does.
  abbrev pub Number : List (String × String) → String → ℕ → Type 0
  Number tree key v =
      ((text : String) × (lookup key tree ≡ some text) × (v ≡ parse text))
      ⊎ ((lookup key tree ≡ none) × (v ≡ 0))

  -- The messages that the message server has sent for a conversation.
  abbrev pub Recent : String → List MsgItemInMem → Type 0
  Recent id ms = (lookup id msgs ≡ some ms) ⊎ ((lookup id msgs ≡ none) × (ms ≡ []))

  -- The entry of a conversation under some numbers: what is unread is the difference of the
  -- sequence and what was read, or nothing when that is behind.
  pub record Shows (item : ConvItem) (seq browse active : ℕ) (e : ConvListItem) : Type 0 where
    pub shows_conv_id : e.conv_id ≡ item.conv_id
    pub shows_conv_type : e.conv_type ≡ item.conv_type
    pub shows_icon : e.icon ≡ item.icon
    pub shows_title : e.title ≡ item.title
    pub shows_relation_id : e.relation_id ≡ item.relation_id
    pub shows_remark : e.remark ≡ item.remark
    pub shows_pin_top : e.pin_top ≡ item.pin_top
    pub shows_no_disturb : e.no_disturb ≡ item.no_disturb
    pub shows_cts : e.cts ≡ item.cts
    pub shows_msg_seq : e.msg_seq ≡ seq
    pub shows_browse : e.browse_msg_seq ≡ browse
    pub shows_unread : e.unread_count ≡ seq - browse
    pub shows_active : e.uts ≡ active
    pub shows_recent : Recent item.conv_id e.recently_msgs
    pub shows_last : e.last_msg ≡ first_msg e.recently_msgs

  -- The entries of conversations, in order, after some numbers: a conversation with a tree has the
  -- tree's, and one without has those of the conversation before it.
  pub data Lists : ℕ → ℕ → ℕ → List ConvItem → List ConvListItem → Type 0 where
    none_left : (seq browse active : ℕ) → Lists seq browse active [] []
    own_numbers :
        (seq browse active : ℕ) (item : ConvItem) (items : List ConvItem) (e : ConvListItem)
        (es : List ConvListItem) (tree : List (String × String)) (seq' browse' active' : ℕ)
        → lookup item.conv_id trees ≡ some tree
        → Number tree "msg_seq" seq'
        → Number tree "user_browse_msg_seq" browse'
        → Number tree "last_active_ts" active'
        → Shows item seq' browse' active' e
        → Lists seq' browse' active' items es
        → Lists seq browse active (item ∷ items) (e ∷ es)
    carried_over :
        (seq browse active : ℕ) (item : ConvItem) (items : List ConvItem) (e : ConvListItem)
        (es : List ConvListItem)
        → lookup item.conv_id trees ≡ none
        → Shows item seq browse active e
        → Lists seq browse active items es
        → Lists seq browse active (item ∷ items) (e ∷ es)

  Number-extract :
      (tree : List (String × String)) (key : String) → Number tree key (extract parse tree key)
  unfolding extract
  Number-extract tree key = go (lookup key tree) refl
    where
      go :
          (o : Option String)
          → lookup key tree ≡ o
          → Number tree key (elim o [ none ↦ 0 | some val ↦ parse val ])
      go none e = inr (e, refl)
      go (some text) e = inl (text, e, refl)

  Recent-newest :
      (id : String) (o : Option (List MsgItemInMem))
      → lookup id msgs ≡ o
      → Recent id (newest o).0 × ((newest o).1 ≡ first_msg (newest o).0)
  unfolding newest
  Recent-newest id none e = (inr (e, refl), refl)
  Recent-newest id (some []) e = (inl e, refl)
  Recent-newest id (some (m ∷ ms)) e = (inl e, refl)

  Shows-hot_item :
      (item : ConvItem) (n : Carried)
      → n.unread_count ≡ n.msg_seq - n.browse_seq
      → Shows item n.msg_seq n.browse_seq n.last_active_ts
          (hot_item parse item n (newest (lookup item.conv_id msgs)))
  unfolding hot_item
  Shows-hot_item item n u = record {
    shows_conv_id = refl;
    shows_conv_type = refl;
    shows_icon = refl;
    shows_title = refl;
    shows_relation_id = refl;
    shows_remark = refl;
    shows_pin_top = refl;
    shows_no_disturb = refl;
    shows_cts = refl;
    shows_msg_seq = refl;
    shows_browse = refl;
    shows_unread = u;
    shows_active = refl;
    shows_recent = (Recent-newest item.conv_id _ refl).0;
    shows_last = (Recent-newest item.conv_id _ refl).1;
  }

  hot_items-Lists :
      (items : List ConvItem) (n : Carried)
      → n.unread_count ≡ n.msg_seq - n.browse_seq
      → Lists n.msg_seq n.browse_seq n.last_active_ts items (hot_items parse trees msgs items n)
  unfolding hot_items read_tree transfer_conv_tree_for_batch unread
  hot_items-Lists [] n u = none_left _ _ _
  hot_items-Lists (item ∷ items) n u =
      go (lookup item.conv_id trees) refl (λ n' u'. hot_items-Lists items n' u')
    where
      go :
          (o : Option (List (String × String)))
          → lookup item.conv_id trees ≡ o
          → ((n' : Carried)
              → n'.unread_count ≡ n'.msg_seq - n'.browse_seq
              → Lists n'.msg_seq n'.browse_seq n'.last_active_ts items
                  (hot_items parse trees msgs items n'))
          → let n' = read_tree parse o n in
            Lists n.msg_seq n.browse_seq n.last_active_ts (item ∷ items) (
              hot_item parse item n' (newest (lookup item.conv_id msgs))
              ∷ hot_items parse trees msgs items n')
      go none e ih = carried_over _ _ _ item items _ _ e (Shows-hot_item item n u) (ih n u)
      go (some tree) e ih =
          own_numbers _ _ _ item items _ _ tree _ _ _ e (Number-extract tree _)
            (Number-extract tree _) (Number-extract tree _)
            (Shows-hot_item item (read_tree parse (some tree) n) (ground arith))
            (ih (read_tree parse (some tree) n) (ground arith))

-- When the store and the message server answer, all conversations of the user are listed in the
-- store's order, each with the row's own fields and the messages that the message server has for
-- it, the first of them as the last message. One that has a tree is listed with the sequence, the place that the user has
-- read to and the last activity of its tree, and with their difference as unread. The bug: one
-- without a tree is listed with the numbers of the conversation before it, and with zeros only when
-- it is the first.
pub sync_hot_conv_list-Lists :
    (parse : String → ℕ) (find_user_conv_items : String → Option (List ConvItem))
    (get_user_conv_trees : String → List String → Option (List (String × List (String × String))))
    (batch_conv_recently_msgs : List String → Option (List (String × List MsgItemInMem)))
    (uid : String) (items : List ConvItem) (trees : List (String × List (String × String)))
    (msgs : List (String × List MsgItemInMem))
    → find_user_conv_items uid ≡ some items
    → get_user_conv_trees uid (map (λ it. it.conv_id) items) ≡ some trees
    → batch_conv_recently_msgs (map (λ it. it.conv_id) items) ≡ some msgs
    → Lists parse trees msgs 0 0 0 items (
        sync_hot_conv_list parse find_user_conv_items get_user_conv_trees batch_conv_recently_msgs
          uid)
unfolding sync_hot_conv_list
sync_hot_conv_list-Lists parse f g b uid [] trees msgs e t m =
    rw (e, sync_hot_conv_list) (none_left _ _ _)
sync_hot_conv_list-Lists parse f g b uid (item ∷ items) trees msgs e t m =
    rw (e, sync_hot_conv_list) (rw (t, m) (hot_items-Lists parse trees msgs (item ∷ items) _ refl))
