-- ===== src/Topic/Sent.antt =====
-- receiveMqSendAsyncResult and ClearUnread: what the users' lists say of unread messages.
use sdim.Topic.Recent.{lookup-update_conv}
use sdim.Base.Maps.{lookup}
use sdim.Topic.Cells.{cell, cell-update_item, convs-update_item}
use sdim.Topic.Types.{MemberConv, ConvManager, Conversation}
use sdim.Topic.Deliver.{
  note_sent, note_members, SendArgs, update_item, update_conv, receive_mq_send_async_result,
  advance, unread,
}
use sdim.Base.{
  List, String, Bool, ◌++◌, false, ◌≡◌, ◌∷◌, ◌||◌, if◌then◌else◌, str_eq, ◌&&◌, arith, [], ◌∙◌,
  refl, Bool-cases, Option, ap, true, some, eq_iff, inl, none, ltb, Option-cases, ◌≤◌, ltb_irrefl,
  ◌≢◌, ◌-◌, inr, ◌⊎◌, str_eq-false, sym,
}
use mathlib.Core.Option

abbrev pub among : List String → String → Bool
among [] u = false
among (x ∷ xs) u = str_eq x u || among xs u

-- To note a message twice is to note it once.
note_sent_twice :
    (args : SendArgs) (uid : String) (item : MemberConv)
    → note_sent args uid (note_sent args uid item) ≡ note_sent args uid item
unfolding note_sent
note_sent_twice args uid item = elim (Bool-cases (str_eq uid args.send_uid)) [
  | inl self ↦ elim (Bool-cases (ltb item.browse_msg_seq args.msg_seq)) [
    | inl behind ↦ rw (self, behind, ltb_irrefl args.msg_seq) refl
    | inr up ↦ rw (self, up, up) refl
  ]
  | inr other ↦ rw other refl
]

note_step :
    (b c d : Bool) (f g : MemberConv → MemberConv) (o : Option MemberConv)
    → (c ≡ true → f ≡ g)
    → ((x : MemberConv) → g (g x) ≡ g x)
    → (if b && d
        then Option.map g (if c && d then Option.map f o else o)
        else if c && d
        then Option.map f o
        else o)
      ≡ (if (c || b) && d then Option.map g o else o)
note_step true true true f g none same twice = refl
note_step true true true f g (some x) same twice =
    ap (λ h. some (g (h x))) (same refl) ∙ ap some (twice x)
note_step true true false f g o same twice = refl
note_step true false true f g o same twice = refl
note_step true false false f g o same twice = refl
note_step false true true f g o same twice = ap (λ h. Option.map h o) (same refl)
note_step false true false f g o same twice = refl
note_step false false true f g o same twice = refl
note_step false false false f g o same twice = refl

cell-note_members :
    (args : SendArgs) (uids : List String) (cm : ConvManager) (u k : String)
    → cell u k (note_members args uids cm) ≡ (
        if among uids u && str_eq args.conv_id k
        then Option.map (note_sent args u) (cell u k cm)
        else cell u k cm)
unfolding note_members
cell-note_members args [] cm u k = refl
cell-note_members args (uid ∷ uids) cm u k =
    cell-note_members args uids (update_item (note_sent args uid) uid args.conv_id cm) u k
    ∙ rw (cell-update_item (note_sent args uid) uid args.conv_id cm u k) (
        note_step (among uids u) (str_eq uid u) (str_eq args.conv_id k) (note_sent args uid)
          (note_sent args u) (cell u k cm) (λ h. ap (note_sent args) ((eq_iff uid u).0 h))
          (note_sent_twice args u))

among-append : (xs ys : List String) (u : String) → among (xs ++ ys) u ≡ (among xs u || among ys u)
among-append [] ys u = refl
among-append (x ∷ xs) ys u = rw (among-append xs ys u) (ground arith)

among_self : (xs : List String) (u : String) → among (xs ++ u ∷ []) u ≡ true
among_self [] u = rw ((eq_iff u u).1 refl) refl
among_self (x ∷ xs) u = rw (among_self xs u) (ground arith)

cell-update_conv :
    (f : Conversation → Conversation) (conv_id u k : String) (cm : ConvManager)
    → cell u k (update_conv f conv_id cm) ≡ cell u k cm
unfolding update_conv
cell-update_conv f conv_id u k cm = elim (Option-cases (lookup conv_id cm.conv_id2items)) [
  | inl gone ↦ rw (gone, update_conv) refl
  | inr (c, found) ↦ rw (found, update_conv) refl
]

convs-note_members :
    (args : SendArgs) (uids : List String) (cm : ConvManager)
    → (note_members args uids cm).conv_id2items ≡ cm.conv_id2items
unfolding note_members
convs-note_members args [] cm = refl
convs-note_members args (uid ∷ uids) cm =
    convs-note_members args uids (update_item (note_sent args uid) uid args.conv_id cm)
    ∙ convs-update_item (note_sent args uid) uid args.conv_id cm

note_sent_self :
    (args : SendArgs) (item : MemberConv)
    → let item' = note_sent args args.send_uid item in
      (item'.unread_count ≡ 0)
      × (args.msg_seq ≤ item'.browse_msg_seq)
      × (item.browse_msg_seq ≤ item'.browse_msg_seq)
unfolding note_sent
note_sent_self args item = rw ((eq_iff args.send_uid args.send_uid).1 refl) (ground arith)

note_sent_other :
    (args : SendArgs) (u : String) (item : MemberConv)
    → args.send_uid ≢ u
    → let item' = note_sent args u item in
      (item'.unread_count ≡ args.msg_seq - item.browse_msg_seq)
      × (item'.browse_msg_seq ≡ item.browse_msg_seq)
unfolding note_sent unread
note_sent_other args u item n = rw (str_eq-false u args.send_uid (λ e. n (sym e))) (ground arith)

advance_rises :
    (args : SendArgs) (conv : Conversation)
    → let conv' = advance args conv in
      (conv.msg_seq ≤ conv'.msg_seq)
      × (args.msg_seq ≤ conv'.msg_seq)
      × (conv.last_msg_id ≤ conv'.last_msg_id)
      × (args.msg_id ≤ conv'.last_msg_id)
      × (conv.last_active_ts ≤ conv'.last_active_ts)
      × (args.last_ts ≤ conv'.last_active_ts)
unfolding advance
advance_rises args conv = ground arith

among_member : (xs : List String) (u v : String) → among xs u ≡ true → among (xs ++ v ∷ []) u ≡ true
among_member xs u v m = rw (among-append xs (v ∷ []) u, m) refl

among_none :
    (xs : List String) (u v : String) → among xs u ≡ false → v ≢ u → among (xs ++ v ∷ []) u ≡ false
among_none xs u v m n = rw (among-append xs (v ∷ []) u, m, str_eq-false v u n) refl

module _ (cm : ConvManager) (args : SendArgs) where
  noted :
      (u k : String)
      → cell u k (receive_mq_send_async_result cm args false) ≡ (
          if among (args.members ++ args.send_uid ∷ []) u && str_eq args.conv_id k
          then Option.map (note_sent args u) (cell u k cm)
          else cell u k cm)
  unfolding receive_mq_send_async_result
  noted u k =
      cell-note_members args (args.members ++ args.send_uid ∷ [])
        (update_conv (advance args) args.conv_id cm) u k
      ∙ rw (cell-update_conv (advance args) args.conv_id u k cm) refl

  -- When the queue has taken a message, its sender has none unread in that conversation and has
  -- read up to the message at least, and never less than before. His cell is in memory.
  pub sender_has_read :
      (item : MemberConv)
      → cell args.send_uid args.conv_id cm ≡ some item
      → (item' : MemberConv) × (cell args.send_uid args.conv_id
            (receive_mq_send_async_result cm args false)
          ≡ some item')
        × (item'.unread_count ≡ 0)
        × (args.msg_seq ≤ item'.browse_msg_seq)
        × (item.browse_msg_seq ≤ item'.browse_msg_seq)
  sender_has_read item e = (
    note_sent args args.send_uid item,
    noted args.send_uid args.conv_id
        ∙ rw ((eq_iff args.conv_id args.conv_id).1 refl, among_self args.members args.send_uid, e)
            refl,
    (note_sent_self args item).0,
    (note_sent_self args item).1,
    (note_sent_self args item).2,
  )

  -- When the queue has taken a message, a member other than its sender has as many messages unread
  -- as its sequence is past what he has read, and has read what he had. His cell is in memory.
  pub member_has_unread :
      (u : String) (item : MemberConv)
      → among args.members u ≡ true
      → args.send_uid ≢ u
      → cell u args.conv_id cm ≡ some item
      → (item' : MemberConv) × (cell u args.conv_id (receive_mq_send_async_result cm args false)
          ≡ some item')
        × (item'.unread_count ≡ args.msg_seq - item.browse_msg_seq)
        × (item'.browse_msg_seq ≡ item.browse_msg_seq)
  member_has_unread u item m n e = (
    note_sent args u item,
    noted u args.conv_id
        ∙ rw
            (
              (eq_iff args.conv_id args.conv_id).1 refl,
              among_member args.members u args.send_uid m,
              e,
            )
            refl,
    (note_sent_other args u item n).0,
    (note_sent_other args u item n).1,
  )

  either :
      (b : Bool) (f : MemberConv → MemberConv) (o : Option MemberConv)
      → (if b && false then Option.map f o else o) ≡ o
  either true f o = refl
  either false f o = refl

  -- The answer of the queue leaves alone who neither sent nor is told of the message, and every
  -- other conversation of everybody.
  pub others_untouched :
      (u k : String)
      → ((among args.members u ≡ false) × (args.send_uid ≢ u)) ⊎ (args.conv_id ≢ k)
      → cell u k (receive_mq_send_async_result cm args false) ≡ cell u k cm
  others_untouched u k away = noted u k ∙ elim away [
    | inl (m, n) ↦ rw (among_none args.members u args.send_uid m n) refl
    | inr n ↦ rw (str_eq-false args.conv_id k n) (either _ (note_sent args u) (cell u k cm))
  ]

  -- What a conversation in memory knows of its sequence, its last message and its last activity is
  -- never lowered by an answer of the queue, in whatever order the answers come, and is never below
  -- the message that the answer is about.
  pub conv_rises :
      (conv : Conversation)
      → lookup args.conv_id cm.conv_id2items ≡ some conv
      → (conv' : Conversation) × (lookup args.conv_id
            (receive_mq_send_async_result cm args false).conv_id2items
          ≡ some conv')
        × (conv.msg_seq ≤ conv'.msg_seq)
        × (args.msg_seq ≤ conv'.msg_seq)
        × (conv.last_msg_id ≤ conv'.last_msg_id)
        × (args.msg_id ≤ conv'.last_msg_id)
        × (conv.last_active_ts ≤ conv'.last_active_ts)
        × (args.last_ts ≤ conv'.last_active_ts)
  unfolding receive_mq_send_async_result
  conv_rises conv e =
      let r = advance_rises args conv in
      (
        advance args conv,
        ap (lookup args.conv_id) (
              convs-note_members args (args.members ++ args.send_uid ∷ [])
                (update_conv (advance args) args.conv_id cm))
            ∙ lookup-update_conv (advance args) args.conv_id args.conv_id cm conv e
            ∙ rw ((eq_iff args.conv_id args.conv_id).1 refl) refl,
        r.0,
        r.1,
        r.2,
        r.3,
        r.4,
        r.5,
      )
