-- ===== src/Push/Handlers.antt =====
-- HandleMessage of the queue handlers. A connection is a number, as in Conn; a write may fail.
use sdim.Push.Bodies.{
  ForwardFrameBody, ConvUpdateFrame, NotifyFrame, NotifyPayload, ConvLastMsgUpdateEventPayload,
  ConvUnitDataUpdatePayload, FindFirst, forward_body, last_msg_body, unit_data_body, notify_body,
  relation_of, conv_add_body,
}
use sdim.Topic.Types.{MsgForwardPayload}
use sdim.Topic.Load.{ConvAddEventPayload}
use sdim.Base.Maps.{lookup}
use sdim.Codec.Frame.{Frame, new_forward_frame, new_conv_update_frame, new_notify_frame}
use sdim.Codec.Wire.{encode, ok, err}
use sdim.Base.{ℕ, String, List, [], ◌∷◌, Bool, true, false, Option, none, some}

-- What a handler does with a member: its frame, `continue`, or the end of the loop.
pub data Formed : Type 0 where
  formed : Frame → Formed
  skip stop : Formed

-- `b, _ := Encode(fr)`: the bytes of a frame that Encode refuses are none.
unfoldable pub encoded : Frame → List ℕ
encoded fr = elim (encode fr) [ ok b ↦ b | err e ↦ [] ]

unfoldable pub and_then : {S : Type 0} → (S → S) → S × Bool → S
and_then later (s, true) = later s
and_then later (s, false) = s

-- `write` is Write of a gnet connection: whether it succeeded.
module _ {S : Type 0} (write : S → ℕ → List ℕ → S × Bool) where
  -- The loop over the connections of a member, which a failed write ends.
  unfoldable pub write_conns : List ℕ → List ℕ → S → S
  unfolding and_then
  write_conns b [] s = s
  write_conns b (c ∷ cs) s = and_then (write_conns b cs) (write s c b)

  unfoldable pub write_member : List (String × List ℕ) → String → Frame → S → S
  unfolding write_conns encoded
  write_member uid2conns meb_uid fr s = elim (lookup meb_uid uid2conns) [
    | none ↦ s
    | some conns ↦ write_conns (encoded fr) conns s
  ]

  -- The loop over the members.
  unfoldable pub push_members : (String → Formed) → List (String × List ℕ) → List String → S → S
  unfolding write_member
  push_members form uid2conns [] s = s
  push_members form uid2conns (m ∷ ms) s =
      let later = push_members form uid2conns ms in
      elim (form m) [
        | stop ↦ s
        | skip ↦ later s
        | formed fr ↦ later (write_member uid2conns m fr s)
      ]

-- What each handler does with a member. `fmt` is json.Fmt, and `uuid` is uuid.Parse.
unfoldable pub forward_form :
    (String → Option (List ℕ))
    → (ForwardFrameBody → Option (List ℕ))
    → MsgForwardPayload
    → String
    → Formed
unfolding forward_body
forward_form uuid fmt msp meb_uid = elim (fmt (forward_body msp meb_uid)) [
  | none ↦ skip
  | some bodies ↦ formed (new_forward_frame uuid msp.req_id bodies)
]

unfoldable pub update_form : (ConvUpdateFrame → Option (List ℕ)) → ConvUpdateFrame → Formed
update_form fmt cuf = elim (fmt cuf) [
  | none ↦ stop
  | some bodies ↦ formed (new_conv_update_frame bodies)
]

unfoldable pub added_form :
    FindFirst → (ConvUpdateFrame → Option (List ℕ)) → ConvAddEventPayload → String → Formed
unfolding relation_of conv_add_body update_form
added_form ff fmt pd m = elim (relation_of ff pd m) [
  | none ↦ skip
  | some relation_id ↦ update_form fmt (conv_add_body pd m relation_id)
]

unfoldable pub notify_form :
    {D : Type 0} → (NotifyFrame D → Option (List ℕ)) → NotifyPayload D → Formed
unfolding notify_body
notify_form fmt pd = elim (fmt (notify_body pd)) [
  | none ↦ stop
  | some bodies ↦ formed (new_notify_frame bodies)
]

-- A payload that json.Parse refuses is `none`. `conns_of` is GetUsersConns of the connection manager.
module _ {S : Type 0} (write : S → ℕ → List ℕ → S × Bool)
    (conns_of : List String → List (String × List ℕ)) where
  unfoldable pub handle_forward :
      (String → Option (List ℕ))
      → (ForwardFrameBody → Option (List ℕ))
      → Option MsgForwardPayload
      → S
      → S
  unfolding push_members forward_form
  handle_forward uuid fmt none s = s
  handle_forward uuid fmt (some msp) s =
      push_members write (forward_form uuid fmt msp) (conns_of msp.members) msp.members s

  unfoldable pub handle_conv_update :
      (ConvUpdateFrame → Option (List ℕ)) → Option ConvLastMsgUpdateEventPayload → S → S
  unfolding push_members update_form last_msg_body
  handle_conv_update fmt none s = s
  handle_conv_update fmt (some cup) s =
      push_members write (λ m. update_form fmt (last_msg_body cup m)) (conns_of cup.members)
        cup.members s

  unfoldable pub handle_conv_data :
      (ConvUpdateFrame → Option (List ℕ)) → Option ConvUnitDataUpdatePayload → S → S
  unfolding push_members update_form unit_data_body
  handle_conv_data fmt none s = s
  handle_conv_data fmt (some pd) s =
      push_members write (λ m. update_form fmt (unit_data_body pd)) (conns_of pd.members) pd.members
        s

  unfoldable pub handle_conv_add :
      FindFirst → (ConvUpdateFrame → Option (List ℕ)) → Option ConvAddEventPayload → S → S
  unfolding push_members added_form
  handle_conv_add ff fmt none s = s
  handle_conv_add ff fmt (some pd) s =
      push_members write (added_form ff fmt pd) (conns_of pd.members) pd.members s

  unfoldable pub handle_notify :
      {D : Type 0} → (NotifyFrame D → Option (List ℕ)) → Option (NotifyPayload D) → S → S
  unfolding push_members notify_form
  handle_notify fmt none s = s
  handle_notify fmt (some pd) s =
      push_members write (λ m. notify_form fmt pd) (conns_of pd.members) pd.members s
