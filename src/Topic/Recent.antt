-- ===== src/Topic/Recent.antt =====
-- OnMsgStored: the queue of the latest messages, and the last message.
use sdim.Base.Maps.{lookup, lookup-insert, insert}
use sdim.Topic.Types.{MsgItemInMem, Conversation, ConvManager, MsgForwardPayload}
use sdim.Topic.Deliver.{
  pop_while_full, push_recent, update_conv, on_msg_stored, store_msg, stored_result, msg_item_of,
  last_msg_of,
}
use sdim.Base.{
  ℕ, drop, List, [], length, ◌≡◌, String, ◌≤◌, suc, ◌-◌, arith, zero, sym, ◌++◌, length-drop, some,
  refl, ◌∷◌, if◌then◌else◌, Bool-cases, ◌∙◌, length-append, str_eq, ltb, ap, ◌<◌, inl, ltb→lt,
  subst, none, eq_iff, ◌≢◌, inr, ltb→le, str_eq-false, Option-cases, leb, leb_of_le, leb_of_lt,
  compare_le,
}

drop-nil : (n : ℕ) → drop {A = MsgItemInMem} n [] ≡ []
drop-nil zero = refl
drop-nil (suc n) = refl

pop-drop :
    (fuel msg_cap : ℕ) (queue : List MsgItemInMem)
    → length queue ≤ fuel
    → pop_while_full fuel msg_cap queue ≡ drop (length queue - msg_cap) queue
unfolding pop_while_full
pop-drop zero msg_cap [] h = sym (drop-nil (0 - msg_cap))
pop-drop zero msg_cap (x ∷ queue) h = elim h [ ]
pop-drop (suc fuel) msg_cap [] h = sym (drop-nil (0 - msg_cap))
pop-drop (suc fuel) msg_cap (x ∷ queue) h = elim (Bool-cases (ltb msg_cap (suc (length queue)))) [
  | inl full ↦
      let more : suc (length queue) - msg_cap ≡ suc (length queue - msg_cap) =
        omega (arith, ltb→lt _ _ full) in
      rw full
        (pop-drop fuel msg_cap queue (omega (arith, h)) ∙ ap (λ n. drop n (x ∷ queue)) (sym more))
  | inr fits ↦
      let none_more : suc (length queue) - msg_cap ≡ 0 = omega (arith, ltb→le _ _ fits) in
      rw fits (ap (λ n. drop n (x ∷ queue)) (sym none_more))
]

-- The loop of PopFront leaves the newest messages, as many as the capacity.
pub push_recent-drop :
    (msg_cap : ℕ) (item : MsgItemInMem) (queue : List MsgItemInMem)
    → push_recent msg_cap item queue ≡ drop (suc (length queue) - msg_cap) (queue ++ item ∷ [])
unfolding push_recent
push_recent-drop msg_cap item queue =
    pop-drop (length (queue ++ item ∷ [])) msg_cap (queue ++ item ∷ []) (omega arith)
    ∙ ap (λ n. drop (n - msg_cap) (queue ++ item ∷ []))
        (omega (arith, length-append queue (item ∷ [])))

pub length-push_recent :
    (msg_cap : ℕ) (item : MsgItemInMem) (queue : List MsgItemInMem)
    → length (push_recent msg_cap item queue) ≤ msg_cap
length-push_recent msg_cap item queue = rw (push_recent-drop msg_cap item queue) (
    omega (
      arith,
      length-drop (suc (length queue) - msg_cap) (queue ++ item ∷ []),
      length-append queue (item ∷ []),
    ))

update_conv-some :
    (f : Conversation → Conversation) (conv_id : String) (cm : ConvManager) (conv : Conversation)
    → lookup conv_id cm.conv_id2items ≡ some conv
    → update_conv f conv_id cm
      ≡ record cm { conv_id2items = insert conv_id (f conv) cm.conv_id2items }
unfolding update_conv
update_conv-some f conv_id cm conv e = rw (e, update_conv) refl

update_conv-none :
    (f : Conversation → Conversation) (conv_id : String) (cm : ConvManager)
    → lookup conv_id cm.conv_id2items ≡ none
    → update_conv f conv_id cm ≡ cm
unfolding update_conv
update_conv-none f conv_id cm e = rw (e, update_conv) refl

pub lookup-update_conv :
    (f : Conversation → Conversation) (conv_id k : String) (cm : ConvManager) (conv : Conversation)
    → lookup k cm.conv_id2items ≡ some conv
    → lookup k (update_conv f conv_id cm).conv_id2items
      ≡ some (if str_eq conv_id k then f conv else conv)
lookup-update_conv f conv_id k cm conv e = elim (Bool-cases (str_eq conv_id k)) [
  | inl same ↦
      let here : lookup conv_id cm.conv_id2items ≡ some conv =
        subst (λ j. lookup j cm.conv_id2items ≡ some conv) (sym ((eq_iff _ _).0 same)) e in
      ap (λ (c : ConvManager). lookup k c.conv_id2items) (update_conv-some f conv_id cm conv here)
      ∙ lookup-insert conv_id k (f conv) cm.conv_id2items
      ∙ rw same refl
  | inr other ↦ elim (Option-cases (lookup conv_id cm.conv_id2items)) [
    | inl gone ↦
        ap (λ (c : ConvManager). lookup k c.conv_id2items) (update_conv-none f conv_id cm gone)
        ∙ e
        ∙ rw other refl
    | inr (c, found) ↦
        ap (λ (c : ConvManager). lookup k c.conv_id2items) (update_conv-some f conv_id cm c found)
        ∙ lookup-insert conv_id k (f c) cm.conv_id2items
        ∙ rw other e
  ]
]

module _ (msg_cap : ℕ) (pd : MsgForwardPayload) (conv : Conversation) where
  store-recent :
      (store_msg msg_cap pd conv).recently_msgs
      ≡ push_recent msg_cap (msg_item_of pd) conv.recently_msgs
  unfolding store_msg
  store-recent = elim (Bool-cases (leb conv.last_msg_id pd.msg_id)) [
    | inl newer ↦ rw newer refl
    | inr older ↦ rw older refl
  ]

  store-newer :
      conv.last_msg_id ≤ pd.msg_id
      → ((store_msg msg_cap pd conv).last_msg_id ≡ pd.msg_id)
        × ((store_msg msg_cap pd conv).last_msg ≡ some (last_msg_of pd))
  unfolding store_msg
  store-newer h = rw (leb_of_le _ _ h) (refl, refl)

  store-older :
      pd.msg_id < conv.last_msg_id
      → ((store_msg msg_cap pd conv).last_msg_id ≡ conv.last_msg_id)
        × ((store_msg msg_cap pd conv).last_msg ≡ conv.last_msg)
  unfolding store_msg
  store-older h = rw (leb_of_lt _ _ h) (refl, refl)

  stored-newer :
      (counts : List (String × ℕ))
      → conv.last_msg_id ≤ pd.msg_id
      → (stored_result (some conv) pd counts).last_msg ≡ some (last_msg_of pd)
  unfolding stored_result
  stored-newer counts h = rw (leb_of_le _ _ h) refl

  stored-older :
      (counts : List (String × ℕ))
      → pd.msg_id < conv.last_msg_id
      → (stored_result (some conv) pd counts).last_msg ≡ none
  unfolding stored_result
  stored-older counts h = rw (leb_of_lt _ _ h) refl

-- A message that is stored in a conversation in memory becomes the newest of the queue, which keeps
-- the newest messages only and never more than its capacity. The last message moves to it exactly
-- when its id is not below the last one's, so that id never falls, and the answer names the last
-- message in the same case. Another conversation is as before.
pub stored_message :
    (cm : ConvManager) (pd : MsgForwardPayload) (conv : Conversation)
    → lookup pd.conv_id cm.conv_id2items ≡ some conv
    → (conv' : Conversation) × (lookup pd.conv_id (on_msg_stored cm pd).0.conv_id2items
        ≡ some conv')
      × (conv'.recently_msgs
          ≡ drop
              (suc (length conv.recently_msgs) - cm.msg_cap)
              (conv.recently_msgs ++ msg_item_of pd ∷ []))
      × (length conv'.recently_msgs ≤ cm.msg_cap)
      × (conv.last_msg_id ≤ conv'.last_msg_id)
      × ((conv.last_msg_id ≤ pd.msg_id)
          → (conv'.last_msg_id ≡ pd.msg_id)
            × (conv'.last_msg ≡ some (last_msg_of pd))
            × ((on_msg_stored cm pd).1.last_msg ≡ some (last_msg_of pd)))
      × ((pd.msg_id < conv.last_msg_id)
          → (conv'.last_msg ≡ conv.last_msg) × ((on_msg_stored cm pd).1.last_msg ≡ none))
      × ((k : String) (other : Conversation)
          → pd.conv_id ≢ k
          → lookup k cm.conv_id2items ≡ some other
          → lookup k (on_msg_stored cm pd).0.conv_id2items ≡ some other)
unfolding on_msg_stored
stored_message cm pd conv e = (
  store_msg cm.msg_cap pd conv,
  lookup-update_conv (store_msg cm.msg_cap pd) pd.conv_id pd.conv_id cm conv e
      ∙ rw ((eq_iff pd.conv_id pd.conv_id).1 refl) refl,
  store-recent cm.msg_cap pd conv ∙ push_recent-drop cm.msg_cap (msg_item_of pd) conv.recently_msgs,
  rw (store-recent cm.msg_cap pd conv)
      (length-push_recent cm.msg_cap (msg_item_of pd) conv.recently_msgs),
  elim (compare_le conv.last_msg_id pd.msg_id) [
    | inl le ↦ omega (arith, le, (store-newer cm.msg_cap pd conv le).0)
    | inr lt ↦ omega (arith, (store-older cm.msg_cap pd conv lt).0)
  ],
  λ le. (
    (store-newer cm.msg_cap pd conv le).0,
    (store-newer cm.msg_cap pd conv le).1,
    rw e (stored-newer cm.msg_cap pd conv _ le),
  ),
  λ lt. ((store-older cm.msg_cap pd conv lt).1, rw e (stored-older cm.msg_cap pd conv _ lt)),
  λ k other n l.
      lookup-update_conv (store_msg cm.msg_cap pd) pd.conv_id k cm other l
      ∙ rw (str_eq-false _ _ n) refl,
)
