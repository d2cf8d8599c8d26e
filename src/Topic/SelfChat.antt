-- ===== src/Topic/SelfChat.antt =====
-- p2pConvHandle for a message to oneself.
use sdim.Topic.Incoming.{p2p_conv_handle}
use sdim.Base.Maps.{lookup}
use sdim.Topic.Groups.{blank_group_conv}
use sdim.Topic.Types.{MsgComingParam}
use sdim.Base.{String, ℕ, ◌≡◌, str_eq, none, true, some, ◌∷◌, ◌==◌, [], length, refl, eq_iff}
use sdim.Topic.Load.{
  Services, World, local_conv2db, blank_conv, UnitInfo, local_items, other_info, two_keys, panicked,
  load_p2p, create_p2p,
}

module _ {D : Type 0} (sv : Services D) (conv_id : String) (msg_id conv_type : ℕ)
    (pa : MsgComingParam) (now : ℕ) (w : World D) where
  no_partner :
      (info : UnitInfo)
      → str_eq pa.sender pa.receiver ≡ true
      → str_eq info.uid pa.sender ≡ true
      → local_conv2db
          (blank_conv conv_id conv_type (two_keys pa.sender pa.receiver))
          (info ∷ [])
          now
        ≡ none
  unfolding local_conv2db local_items other_info blank_conv blank_group_conv two_keys
  no_partner info same own = rw (same, local_conv2db) (rw (own, local_conv2db) refl)

  one_member :
      str_eq pa.sender pa.receiver ≡ true
      → (1 == length (blank_conv conv_id conv_type (two_keys pa.sender pa.receiver)).members) ≡ true
  unfolding blank_conv blank_group_conv two_keys
  one_member same = rw same refl

  -- The bug: the first message of a user to himself panics. The user server knows the one user, so
  -- the count agrees, and localConv2db then reads the unit info of a partner that is not there. The
  -- conversation is neither in memory nor in the store.
  pub self_chat_panics :
      (uid : String) (info : UnitInfo)
      → pa.sender ≡ pa.receiver
      → info.uid ≡ pa.sender
      → lookup conv_id w.cm.conv_id2items ≡ none
      → sv.cr.find_conv_items w.db conv_id ≡ some none
      → sv.users_unit_info pa.req_id (pa.sender ∷ pa.receiver ∷ []) ≡ some ((uid, info) ∷ [])
      → (p2p_conv_handle sv conv_id msg_id conv_type pa now w).1 ≡ panicked
  self_chat_panics uid info same own absent unsaved users =
      unfold p2p_conv_handle load_p2p create_p2p in
      rw (absent, p2p_conv_handle, load_p2p)
        (rw (unsaved, p2p_conv_handle, load_p2p, create_p2p)
          (rw users (
            rw
              (
                one_member ((eq_iff _ _).1 same),
                no_partner info ((eq_iff _ _).1 same) ((eq_iff _ _).1 own),
              )
              refl)))
