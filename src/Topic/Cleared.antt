-- ===== src/Topic/Cleared.antt =====
-- ClearUnread and then a message.
use sdim.Topic.Sent.{among, member_has_unread}
use sdim.Topic.Cells.{cell, cell-update_item}
use sdim.Base.{String, ℕ, ◌≡◌, some, true, ◌≢◌, ◌∙◌, eq_iff, false, ◌-◌, refl}
use sdim.Topic.Deliver.{SendArgs, clear_unread, receive_mq_send_async_result}
use sdim.Topic.Types.{ConvManager, MemberConv}

module _ (cm : ConvManager) (args : SendArgs) (u : String) (seq : ℕ) where
  cleared :
      (item : MemberConv)
      → cell u args.conv_id cm ≡ some item
      → cell u args.conv_id (clear_unread cm args.conv_id u (some seq)).0
        ≡ some (record item { browse_msg_seq = seq; unread_count = 0 })
  unfolding clear_unread
  cleared item e =
      cell-update_item (λ i. record i { browse_msg_seq = seq; unread_count = 0 }) u args.conv_id cm
        u args.conv_id
      ∙ rw ((eq_iff u u).1 refl, (eq_iff args.conv_id args.conv_id).1 refl, e) refl

  -- A member who clears his unread count at a sequence and is then sent a message has as many
  -- unread as the message is past that sequence, whatever he had before: messages that he cleared
  -- are never counted again. His cell is in memory and the message is another's.
  pub cleared_then_sent :
      (item : MemberConv)
      → among args.members u ≡ true
      → args.send_uid ≢ u
      → cell u args.conv_id cm ≡ some item
      → let cm' = (clear_unread cm args.conv_id u (some seq)).0 in
        (item' : MemberConv) × (cell u args.conv_id (receive_mq_send_async_result cm' args false)
          ≡ some item')
        × (item'.unread_count ≡ args.msg_seq - seq)
        × (item'.browse_msg_seq ≡ seq)
  cleared_then_sent item m n e =
      member_has_unread (clear_unread cm args.conv_id u (some seq)).0 args u
        (record item { browse_msg_seq = seq; unread_count = 0 }) m n (cleared item e)
