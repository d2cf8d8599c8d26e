-- ===== src/Topic/Accepted.antt =====
-- The answer of the RPC handler, and the queue.
use sdim.Topic.Incoming.{conv_id_of, on_msg_coming}
use sdim.Topic.Merge.{send_receive_payload}
use sdim.Topic.Publish.{messages, Queued, payload, on_msg_coming-Queued}
use sdim.Topic.Types.{
  MsgSendReceivePayload, MsgComingParam, get_conv_type_with_chat_type, p2p_conv, group_conv,
}
use sdim.Topic.Requests.{
  Coming, came, coming_of, msg_coming_result_to, crashed, param_invalid, coming_with,
  msg_coming_param_from, not_handled, is_valid_conv_type, handle_msg_coming, is_danmaku_type,
  group_chat,
}
use sdim.Handler.Types.{MsgComingReq, MsgComingResp}
use sdim.Base.{
  true, false, ◌⊎◌, String, ◌≡◌, ℕ, ◌∷◌, inl, inr, refl, ◌≢◌, ◌==◌, ◌||◌, arith, Bool, subst,
  if◌then◌else◌, not, sym, ◌&&◌, str_eq,
}
use sdim.Topic.Load.{handled, failed, panicked, World, Services, Handled, HandleError}

failed≢handled : {e : HandleError} {seq : ℕ} → failed e ≢ handled seq
failed≢handled q = cc

panicked≢handled : {seq : ℕ} → panicked ≢ handled seq
panicked≢handled q = cc

not_handled≢came : {e : HandleError} {resp : MsgComingResp} → not_handled e ≢ came resp
not_handled≢came q = cc

crashed≢came : {resp : MsgComingResp} → crashed ≢ came resp
crashed≢came q = cc

invalid≢came : {resp : MsgComingResp} → param_invalid ≢ came resp
invalid≢came q = cc

chat_types :
    (t : ℕ)
    → ((t == 1 || (t == 2 || t == 3)) || t == 4) ≡ true
    → ((t ≡ 1) ⊎ (t ≡ 2)) ⊎ ((t ≡ 3) ⊎ (t ≡ 4))
chat_types t e = ground arith

conv_chat : (t : ℕ) → (t ≡ 1) ⊎ (t ≡ 2) → (t == 1 || (t == 2 || t == 3)) ≡ true
conv_chat t h = ground arith

no_handler :
    (t : ℕ)
    → (t ≡ 3) ⊎ (t ≡ 4)
    → ((get_conv_type_with_chat_type t == p2p_conv) ≡ false)
      × ((get_conv_type_with_chat_type t == group_conv) ≡ false)
no_handler t h = unfold get_conv_type_with_chat_type in ground arith

last :
    {A : Type 0} (b c d : Bool) (x y z : A)
    → c ≡ false
    → d ≡ false
    → (if not b then z else if c then x else if d then y else z) ≡ z
last true c d x y z p q = rw (p, q) refl
last false c d x y z p q = refl

module _ {D : Type 0} (rr : MsgComingReq) (w : World D) where
  -- The answer carries the numbers of the message that was queued.
  abbrev pub Told : World D × Coming → Type 0
  Told x =
      (resp : MsgComingResp) × (pd : MsgSendReceivePayload) × (x.1 ≡ came resp)
      × (messages x.0.sent ≡ pd ∷ messages w.sent)
      × (pd.msg_seq ≡ resp.msg_seq)
      × (pd.msg_id ≡ resp.msg_id)
      × (pd.conv_id ≡ resp.conv_id)
      × ((rr.chat_type ≡ 1) ⊎ (rr.chat_type ≡ 2))

  -- The answer is a success, and the message has gone nowhere.
  abbrev pub Dropped : World D × Coming → Type 0
  Dropped x =
      (resp : MsgComingResp) × (x.1 ≡ came resp)
      × (resp.msg_seq ≡ 0)
      × (messages x.0.sent ≡ messages w.sent)
      × ((rr.chat_type ≡ 3) ⊎ (rr.chat_type ≡ 4))

  abbrev pub Refused : World D × Coming → Type 0
  Refused x = ((resp : MsgComingResp) → ¬ (x.1 ≡ came resp)) × (messages x.0.sent ≡ messages w.sent)

  abbrev pub Accounted : World D × Coming → Type 0
  Accounted x = Told x ⊎ (Dropped x ⊎ Refused x)

  module _ (sv : Services D) (req_id : String) (msg_id now secs : ℕ) where
    queued :
        (pa : MsgComingParam) (ct : ℕ) (h : World D × Handled)
        → (rr.chat_type ≡ 1) ⊎ (rr.chat_type ≡ 2)
        → Queued (payload sv (conv_id_of sv pa) msg_id ct pa now) w h
        → Accounted (h.0, coming_of msg_id (conv_id_of sv pa) pa.client_unique_id now h.1)
    unfolding coming_of msg_coming_result_to send_receive_payload
    queued pa ct (w', handled seq) t (inl (s, last_ts, members, e, q)) = inl (
      msg_coming_result_to msg_id (conv_id_of sv pa) seq pa.client_unique_id now,
      payload sv (conv_id_of sv pa) msg_id ct pa now s last_ts members,
      refl,
      q,
      seq_of e,
      refl,
      refl,
      t,
    )
      where
        seq_of : {a b : ℕ} → handled a ≡ handled b → b ≡ a
        seq_of e = cc
    queued pa ct (w', failed x) t (inl (s, last_ts, members, e, q)) = absurd (failed≢handled e)
    queued pa ct (w', panicked) t (inl (s, last_ts, members, e, q)) = absurd (panicked≢handled e)
    queued pa ct (w', handled seq) t (inr (n, q)) = absurd (n seq refl)
    queued pa ct (w', failed x) t (inr (n, q)) = inr (inr (λ resp. not_handled≢came, q))
    queued pa ct (w', panicked) t (inr (n, q)) = inr (inr (λ resp. crashed≢came, q))

    abbrev coming : World D × Coming
    coming = coming_with sv rr req_id (is_valid_conv_type rr.chat_type) msg_id now secs w

    abbrev pa_of : MsgComingParam
    pa_of = msg_coming_param_from rr req_id (is_valid_conv_type rr.chat_type)

    -- A chat without a direct or a group conversation reaches the end of OnMsgComing.
    unhandled :
        (rr.chat_type ≡ 3) ⊎ (rr.chat_type ≡ 4)
        → on_msg_coming sv pa_of msg_id now secs w ≡ (w, handled 0)
    unfolding on_msg_coming msg_coming_param_from
    unhandled t =
        last pa_of.is_conv_type (get_conv_type_with_chat_type pa_of.chat_type == p2p_conv)
          (get_conv_type_with_chat_type pa_of.chat_type == group_conv) _ _ (w, handled 0)
          (no_handler rr.chat_type t).0 (no_handler rr.chat_type t).1

    dropped :
        (rr.chat_type ≡ 3) ⊎ (rr.chat_type ≡ 4)
        → Accounted
            (w, coming_of msg_id (conv_id_of sv pa_of) pa_of.client_unique_id now (handled 0))
    unfolding coming_of msg_coming_result_to
    dropped t = inr (
        inl (
          msg_coming_result_to msg_id (conv_id_of sv pa_of) 0 pa_of.client_unique_id now,
          refl,
          refl,
          refl,
          t,
        ))

    coming-Accounted :
        ((rr.chat_type ≡ 1) ⊎ (rr.chat_type ≡ 2)) ⊎ ((rr.chat_type ≡ 3) ⊎ (rr.chat_type ≡ 4))
        → Accounted coming
    unfolding coming_with is_valid_conv_type msg_coming_param_from
    coming-Accounted (inl t) =
        queued pa_of (get_conv_type_with_chat_type rr.chat_type)
          (on_msg_coming sv pa_of msg_id now secs w) t
          (on_msg_coming-Queued sv pa_of msg_id now secs w (conv_chat rr.chat_type t) t)
    coming-Accounted (inr t) =
        subst
          (λ h.
            Accounted (h.0, coming_of msg_id (conv_id_of sv pa_of) pa_of.client_unique_id now h.1))
          (sym (unhandled t)) (dropped t)

    -- The answer to a message says what has become of it. A success for a direct or a group chat
    -- comes with one message on the queue, which has the sequence, the id and the conversation of
    -- the answer. A customer chat and a bullet comment are answered with a success too, but with
    -- the sequence 0, and no message is queued: they are dropped. Without a success no message is
    -- queued.
    pub handle_msg_coming-Accounted : Accounted (handle_msg_coming sv rr req_id msg_id now secs w)
    unfolding handle_msg_coming is_valid_conv_type is_danmaku_type
    handle_msg_coming-Accounted =
        go (is_valid_conv_type rr.chat_type || is_danmaku_type rr.chat_type) refl
          (rr.chat_type == group_chat && str_eq rr.conv_id "")
      where
        result : Bool → Bool → World D × Coming
        result valid nameless =
            if not valid
            then (w, param_invalid)
            else if nameless
            then (w, param_invalid)
            else coming

        go :
            (valid : Bool)
            → (is_valid_conv_type rr.chat_type || is_danmaku_type rr.chat_type) ≡ valid
            → (nameless : Bool) → Accounted (result valid nameless)
        go false e nameless = inr (inr (λ resp. invalid≢came, refl))
        go true e true = inr (inr (λ resp. invalid≢came, refl))
        go true e false = coming-Accounted (chat_types rr.chat_type e)
