-- ===== src/Topic/Listing.antt =====
-- conv_manager.go: the lists of conversations, from memory (convList, RecentlyConvList) and from the
-- store (SyncHotConvList); convrepo's reading of the hash that the store keeps for a conversation.
use sdim.Topic.Deliver.{unread}
use sdim.Base.Maps.{lookup, insert}
use sdim.Base.{
  List, String, Option, ℕ, text_append, ◌∷◌, [], some, none, Bool, false, map, true, if◌then◌else◌,
}
use sdim.Topic.Types.{
  MemberConv, Conversation, MsgItemInMem, ConvItem, ConvListItem, ConvManager, LastMsg,
}

unfoldable pub list_item_of : MemberConv → Conversation → List MsgItemInMem → ConvListItem
list_item_of item conv msgs = record {
  conv_id = item.id;
  conv_type = item.type;
  icon = item.icon;
  title = item.title;
  relation_id = item.relation_id;
  remark = item.remark;
  pin_top = item.pin_top;
  no_disturb = item.no_disturb;
  msg_seq = conv.msg_seq;
  last_msg = conv.last_msg;
  browse_msg_seq = item.browse_msg_seq;
  unread_count = item.unread_count;
  cts = item.cts;
  uts = item.uts;
  recently_msgs = msgs;
}

-- `none` is a nil pointer in the slice: the place of a conversation that is not in memory.
-- `sort` is slices.SortFunc by the ids of the messages.
unfoldable pub list_items :
    (List MsgItemInMem → List MsgItemInMem)
    → ConvManager
    → Bool
    → List (String × MemberConv)
    → List (Option ConvListItem)
unfolding list_item_of
list_items sort cm msgs [] = []
list_items sort cm msgs ((_, item) ∷ items) =
    (elim (lookup item.id cm.conv_id2items) [
      | none ↦ none
      | some conv ↦ some (list_item_of item conv (if msgs then sort conv.recently_msgs else []))
    ])
    ∷ list_items sort cm msgs items

unfoldable pub conv_list :
    (List MsgItemInMem → List MsgItemInMem)
    → ConvManager
    → String
    → Bool
    → List (Option ConvListItem) × Bool
unfolding list_items
conv_list sort cm uid msgs = elim (lookup uid cm.uid2conv_items) [
  | none ↦ ([], false)
  | some [] ↦ ([], false)
  | some (item ∷ items) ↦ (list_items sort cm msgs (item ∷ items), true)
]

unfoldable pub recently_conv_list :
    (List MsgItemInMem → List MsgItemInMem) → ConvManager → String → List (Option ConvListItem)
unfolding conv_list
recently_conv_list sort cm uid = (conv_list sort cm uid false).0

abbrev pub msg_seq_key : String
msg_seq_key = "msg_seq"

abbrev pub last_msg_id_key : String
last_msg_id_key = "last_msg_id"

abbrev pub last_active_ts_key : String
last_active_ts_key = "last_active_ts"

abbrev pub user_browse_msg_seq : String
user_browse_msg_seq = "user_browse_msg_seq"

unfoldable pub pkg_browse_seq_key : String → String
pkg_browse_seq_key uid = text_append "browse_seq:uid:" uid

unfoldable pub newest : Option (List MsgItemInMem) → List MsgItemInMem × Option LastMsg
newest none = ([], none)
newest (some []) = ([], none)
newest (some (val ∷ msgs)) = (
  val ∷ msgs,
  some (record { msg_id = val.msg_id; sender_info = val.sender_info; content = val.content }),
)

-- The numbers of the last conversation that had a tree: the source declares them outside its
-- loop, so one without a tree takes over those of the one before.
pub record Carried : Type 0 where
  pub msg_seq : ℕ
  pub last_active_ts : ℕ
  pub browse_seq : ℕ
  pub unread_count : ℕ

-- `parse` reads a decimal number, as utils.MustParseI64 of a package outside the repository and
-- strconv.ParseInt do: the store's hash holds decimal numbers only.
module _ (parse : String → ℕ) where
  unfoldable pub extract : List (String × String) → String → ℕ
  extract tree key = elim (lookup key tree) [ none ↦ 0 | some val ↦ parse val ]

  -- The sequence, the last message, the last activity, and where the user has read to.
  unfoldable pub transfer_conv_tree_for_batch : List (String × String) → ℕ × ℕ × ℕ × ℕ
  unfolding extract
  transfer_conv_tree_for_batch tree = (
    extract tree msg_seq_key,
    extract tree last_msg_id_key,
    extract tree last_active_ts_key,
    extract tree user_browse_msg_seq,
  )

  unfoldable pub browse_seqs :
      List (String × String) → List String → List (String × ℕ) → List (String × ℕ)
  unfolding pkg_browse_seq_key
  browse_seqs tree [] acc = acc
  browse_seqs tree (uid ∷ uids) acc =
      browse_seqs tree uids (elim (lookup (pkg_browse_seq_key uid) tree) [
        | none ↦ acc
        | some val ↦ insert uid (parse val) acc
      ])

  unfoldable pub transfer_conv_tree_for_origin :
      List (String × String) → List String → ℕ × ℕ × ℕ × List (String × ℕ)
  unfolding extract browse_seqs
  transfer_conv_tree_for_origin tree members = (
    extract tree msg_seq_key,
    extract tree last_msg_id_key,
    extract tree last_active_ts_key,
    browse_seqs tree members [],
  )

  unfoldable pub read_tree : Option (List (String × String)) → Carried → Carried
  unfolding transfer_conv_tree_for_batch unread
  read_tree none carried = carried
  read_tree (some tree) carried =
      let (msg_seq, _, last_active_ts, browse_seq) = transfer_conv_tree_for_batch tree in
      record {
        msg_seq = msg_seq;
        last_active_ts = last_active_ts;
        browse_seq = browse_seq;
        unread_count = unread msg_seq browse_seq;
      }

  unfoldable pub hot_item : ConvItem → Carried → List MsgItemInMem × Option LastMsg → ConvListItem
  hot_item item n (msgs, last_msg) = record {
    conv_id = item.conv_id;
    conv_type = item.conv_type;
    icon = item.icon;
    title = item.title;
    relation_id = item.relation_id;
    remark = item.remark;
    pin_top = item.pin_top;
    no_disturb = item.no_disturb;
    msg_seq = n.msg_seq;
    last_msg = last_msg;
    browse_msg_seq = n.browse_seq;
    unread_count = n.unread_count;
    cts = item.cts;
    uts = n.last_active_ts;
    recently_msgs = msgs;
  }

  unfoldable pub hot_items :
      List (String × List (String × String))
      → List (String × List MsgItemInMem)
      → List ConvItem
      → Carried
      → List ConvListItem
  unfolding read_tree newest hot_item
  hot_items trees msgs [] carried = []
  hot_items trees msgs (item ∷ items) carried =
      let n = read_tree (lookup item.conv_id trees) carried in
      hot_item item n (newest (lookup item.conv_id msgs)) ∷ hot_items trees msgs items n

  -- What the repository and the message server answer; `none` is an error.
  unfoldable pub sync_hot_conv_list :
      (String → Option (List ConvItem))
      → (String → List String → Option (List (String × List (String × String))))
      → (List String → Option (List (String × List MsgItemInMem)))
      → String
      → List ConvListItem
  unfolding hot_items
  sync_hot_conv_list find_user_conv_items get_user_conv_trees batch_conv_recently_msgs uid =
      elim (find_user_conv_items uid) [
        | none ↦ []
        | some [] ↦ []
        | some (item ∷ items) ↦
            let conv_ids = map (λ it. it.conv_id) (item ∷ items) in
            elim (get_user_conv_trees uid conv_ids) [
              | none ↦ []
              | some trees ↦ elim (batch_conv_recently_msgs conv_ids) [
                | none ↦ []
                | some msgs ↦
                    hot_items trees msgs (item ∷ items)
                      (record { msg_seq = 0; last_active_ts = 0; browse_seq = 0; unread_count = 0 })
              ]
            ]
      ]
