-- ===== src/Stored/Outcome.antt =====
-- What the handling of a message comes to.
use sdim.Topic.Load.{UnitInfo}
use sdim.Base.Ints.{ℤ, pos, negsuc}
use sdim.Handler.Types.{RpcAnswer, call_failed, not_ok, answered}
use sdim.Topic.Types.{MsgSendReceivePayload, MsgForwardPayload, Msg, SenderInfo}
use sdim.Base.{
  true, false, List, String, Bool, ◌≡◌, ◌∷◌, [], subst, if◌then◌else◌, refl, ℕ, some, none, ◌≢◌,
  sym, leb, ◌+◌, str_eq, ◌⊎◌, arith, ◌≤◌, eq_iff,
}
use sdim.Stored.Receive.{
  requeue, finish, Env, Store, upsert_done, Reply, msg_pd2pojo, receive_pd2forward_pd, with_sender,
  sender_info_of, find_sender, handle_message, given_up, found, bodies_of, is_user_send,
  max_retry_times, MsgRow, expire_at,
}

-- When a row expires: never for 0, after that many seconds for a positive time to live, and -1 for
-- any that is below.
abbrev pub Expires : ℤ → ℕ → ℤ → Type 0
Expires (pos n) now_sec e = ((n ≡ 0) × (e ≡ pos 0)) ⊎ ((1 ≤ n) × (e ≡ pos (now_sec + n)))
Expires (negsuc n) now_sec e = e ≡ negsuc 0

Expires-expire_at : (ttl : ℤ) (now_sec : ℕ) → Expires ttl now_sec (expire_at ttl now_sec)
unfolding expire_at
Expires-expire_at (pos n) now_sec = ground arith
Expires-expire_at (negsuc n) now_sec = refl

user_types : (st : ℕ) → is_user_send st ≡ true → (st ≡ 0) ⊎ (st ≡ 1)
unfolding is_user_send
user_types st e = ground arith

no_user : (st : ℕ) → is_user_send st ≡ false → ¬ ((st ≡ 0) ⊎ (st ≡ 1))
unfolding is_user_send
no_user st e = ground arith

str_ne : (s : String) → str_eq s "" ≡ false → s ≢ ""
str_ne s e = ground (arith, eq_iff s "")

module _ {D : Type 0} (env : Env D) (pd : MsgSendReceivePayload) where
  -- A message with its sender: the content is that of the payload, and so is the sender's type. A
  -- user has the name and the avatar that the user server gives him.
  pub record IsMsg (msg : Msg) : Type 0 where
    pub same_content : msg.content ≡ pd.msg_content
    pub same_sender_type : msg.sender_info.sender_type ≡ pd.sender_type
    pub user_named :
        (pd.sender_type ≡ 0) ⊎ (pd.sender_type ≡ 1)
        → (i : UnitInfo) × (env.user_unit_info pd.req_id pd.sender ≡ answered i)
          × (i.uid ≢ "")
          × (msg.sender_info.nickname ≡ i.nickname)
          × (msg.sender_info.avatar ≡ i.avatar)

  -- The row of the payload, with the message as JSON for its body.
  pub record IsRow (msg : Msg) (row : MsgRow) : Type 0 where
    pub row_id : row.id ≡ pd.msg_id
    pub row_conv_id : row.conv_id ≡ pd.conv_id
    pub row_chat_type : row.chat_type ≡ pd.chat_type
    pub row_msg_type : row.msg_type ≡ pd.msg_content.type
    pub row_sender : row.sender ≡ pd.sender
    pub row_receiver : row.receiver ≡ pd.receiver
    pub row_seq : row.seq ≡ pd.msg_seq
    pub row_body :
        (env.fmt_msg msg ≡ some row.msg_body) ⊎ ((env.fmt_msg msg ≡ none) × (row.msg_body ≡ ""))
    pub row_expires : Expires pd.ttl env.now_sec row.expired_at
    pub row_cts : row.cts ≡ env.now
    pub row_uts : row.uts ≡ env.now

  -- What is sent on for the payload.
  pub record IsForward (msg : Msg) (fpd : MsgForwardPayload) : Type 0 where
    pub sent_msg : fpd.msg ≡ msg
    pub sent_req_id : fpd.req_id ≡ pd.req_id
    pub sent_conv_id : fpd.conv_id ≡ pd.conv_id
    pub sent_conv_type : fpd.conv_type ≡ pd.conv_type
    pub sent_conv_last_active_ts : fpd.conv_last_active_ts ≡ pd.conv_last_active_ts
    pub sent_msg_id : fpd.msg_id ≡ pd.msg_id
    pub sent_client_unique_id : fpd.client_unique_id ≡ pd.client_unique_id
    pub sent_msg_seq : fpd.msg_seq ≡ pd.msg_seq
    pub sent_chat_type : fpd.chat_type ≡ pd.chat_type
    pub sent_sender : fpd.sender ≡ pd.sender
    pub sent_receiver : fpd.receiver ≡ pd.receiver
    pub sent_members : fpd.members ≡ pd.members
    pub sent_send_ts : fpd.send_ts ≡ pd.send_ts
    pub sent_ttl : fpd.ttl ≡ pd.ttl
    pub sent_cts : fpd.cts ≡ env.now

  -- The user server does not name the sender, and what the queue is told then.
  abbrev pub Nameless : RpcAnswer UnitInfo → List Reply → Type 0
  Nameless (call_failed e) replies = replies ≡ requeue 500 ∷ []
  Nameless (not_ok code msg) replies = replies ≡ requeue 100 ∷ []
  Nameless (answered i) replies = (i.uid ≡ "") × (replies ≡ [])

  -- What is asked of the database and of the queue for a message, and what is left of it.
  pub data Outcome (attempts : ℕ) (w : Store D) : Store D × List Reply → Type 0 where
    late : 2 ≤ attempts → Outcome attempts w (w, finish ∷ [])
    busy : attempts ≤ 1 → env.submit ≡ false → Outcome attempts w (w, requeue 500 ∷ [])
    nameless :
        (replies : List Reply)
        → attempts ≤ 1
        → env.submit ≡ true
        → (pd.sender_type ≡ 0) ⊎ (pd.sender_type ≡ 1)
        → Nameless (env.user_unit_info pd.req_id pd.sender) replies
        → Outcome attempts w (w, replies)
    not_stored :
        (msg : Msg) (row : MsgRow) (db : D)
        → attempts ≤ 1
        → env.submit ≡ true
        → IsMsg msg
        → IsRow msg row
        → env.upsert_msg w.db row ≡ (db, false)
        → Outcome attempts w (record w { db = db }, requeue 100 ∷ [])
    not_published :
        (msg : Msg) (row : MsgRow) (fpd : MsgForwardPayload) (db : D)
        → attempts ≤ 1
        → env.submit ≡ true
        → IsMsg msg
        → IsRow msg row
        → IsForward msg fpd
        → env.upsert_msg w.db row ≡ (db, true)
        → env.publish fpd ≡ false
        → Outcome attempts w (record w { db = db }, requeue 100 ∷ finish ∷ [])
    forwarded :
        (msg : Msg) (row : MsgRow) (fpd : MsgForwardPayload) (db : D)
        → attempts ≤ 1
        → env.submit ≡ true
        → IsMsg msg
        → IsRow msg row
        → IsForward msg fpd
        → env.upsert_msg w.db row ≡ (db, true)
        → env.publish fpd ≡ true
        → Outcome attempts w (record { db = db; published = fpd ∷ w.published }, finish ∷ [])

  IsRow-msg_pd2pojo :
      (msg : Msg) → IsRow msg (msg_pd2pojo pd (bodies_of env msg) env.now env.now_sec)
  unfolding msg_pd2pojo bodies_of
  IsRow-msg_pd2pojo msg = record {
    row_id = refl;
    row_conv_id = refl;
    row_chat_type = refl;
    row_msg_type = refl;
    row_sender = refl;
    row_receiver = refl;
    row_seq = refl;
    row_body = ground arith;
    row_expires = Expires-expire_at pd.ttl env.now_sec;
    row_cts = refl;
    row_uts = refl;
  }

  IsForward-receive_pd2forward_pd :
      (msg : Msg) → IsForward msg (receive_pd2forward_pd pd msg env.now)
  unfolding receive_pd2forward_pd
  IsForward-receive_pd2forward_pd msg = record {
    sent_msg = refl;
    sent_req_id = refl;
    sent_conv_id = refl;
    sent_conv_type = refl;
    sent_conv_last_active_ts = refl;
    sent_msg_id = refl;
    sent_client_unique_id = refl;
    sent_msg_seq = refl;
    sent_chat_type = refl;
    sent_sender = refl;
    sent_receiver = refl;
    sent_members = refl;
    sent_send_ts = refl;
    sent_ttl = refl;
    sent_cts = refl;
  }

  module _ (attempts : ℕ) (w : Store D) (first : attempts ≤ 1) (taken : env.submit ≡ true) where
    upsert_done-Outcome :
        (msg : Msg) (r : D × Bool)
        → IsMsg msg
        → env.upsert_msg w.db (msg_pd2pojo pd (bodies_of env msg) env.now env.now_sec) ≡ r
        → Outcome attempts w (upsert_done env (receive_pd2forward_pd pd msg env.now) w r)
    unfolding upsert_done
    upsert_done-Outcome msg (db, false) m e =
        not_stored msg _ db first taken m (IsRow-msg_pd2pojo msg) e
    upsert_done-Outcome msg (db, true) m e =
        go (env.publish (receive_pd2forward_pd pd msg env.now)) refl
      where
        go :
            (b : Bool)
            → env.publish (receive_pd2forward_pd pd msg env.now) ≡ b
            → Outcome attempts w (
                if b
                then (
                  record {
                    db = db;
                    published = receive_pd2forward_pd pd msg env.now ∷ w.published;
                  },
                  finish ∷ [],
                )
                else (record w { db = db }, requeue 100 ∷ finish ∷ []))
        go true q =
            forwarded msg _ _ db first taken m (IsRow-msg_pd2pojo msg)
              (IsForward-receive_pd2forward_pd msg) e q
        go false q =
            not_published msg _ _ db first taken m (IsRow-msg_pd2pojo msg)
              (IsForward-receive_pd2forward_pd msg) e q

    found-Outcome :
        (info : SenderInfo)
        → info.sender_type ≡ pd.sender_type
        → ((pd.sender_type ≡ 0) ⊎ (pd.sender_type ≡ 1)
            → (i : UnitInfo) × (env.user_unit_info pd.req_id pd.sender ≡ answered i)
              × (i.uid ≢ "")
              × (info.nickname ≡ i.nickname)
              × (info.avatar ≡ i.avatar))
        → Outcome attempts w (with_sender env pd w (found info))
    unfolding with_sender
    found-Outcome info t n =
        upsert_done-Outcome (record { sender_info = info; content = pd.msg_content }) _
          (record { same_content = refl; same_sender_type = t; user_named = n }) refl

    given_up-Outcome :
        (replies : List Reply)
        → (pd.sender_type ≡ 0) ⊎ (pd.sender_type ≡ 1)
        → Nameless (env.user_unit_info pd.req_id pd.sender) replies
        → Outcome attempts w (with_sender env pd w (given_up replies))
    unfolding with_sender
    given_up-Outcome replies u n = nameless replies first taken u n

    sender_info_of-Outcome :
        (a : RpcAnswer UnitInfo)
        → env.user_unit_info pd.req_id pd.sender ≡ a
        → (pd.sender_type ≡ 0) ⊎ (pd.sender_type ≡ 1)
        → Outcome attempts w (with_sender env pd w (sender_info_of pd.sender_type a))
    unfolding sender_info_of
    sender_info_of-Outcome (call_failed x) e u =
        given_up-Outcome _ u (subst (λ a. Nameless a (requeue 500 ∷ [])) (sym e) refl)
    sender_info_of-Outcome (not_ok c x) e u =
        given_up-Outcome _ u (subst (λ a. Nameless a (requeue 100 ∷ [])) (sym e) refl)
    sender_info_of-Outcome (answered i) e u = go (str_eq i.uid "") refl
      where
        go :
            (b : Bool)
            → str_eq i.uid "" ≡ b
            → Outcome attempts w (
                with_sender env pd w (
                  if b
                  then given_up []
                  else found (record {
                    sender_type = pd.sender_type;
                    nickname = i.nickname;
                    avatar = i.avatar;
                  })))
        go true q =
            given_up-Outcome [] u (subst (λ a. Nameless a []) (sym e) ((eq_iff i.uid "").0 q, refl))
        go false q = found-Outcome _ refl (λ _. (i, e, str_ne i.uid q, refl, refl))

    find_sender-Outcome : Outcome attempts w (with_sender env pd w (find_sender env pd))
    unfolding find_sender
    find_sender-Outcome = go (is_user_send pd.sender_type) refl
      where
        go :
            (b : Bool)
            → is_user_send pd.sender_type ≡ b
            → Outcome attempts w (
                with_sender env pd w (
                  if b
                  then sender_info_of pd.sender_type (env.user_unit_info pd.req_id pd.sender)
                  else found (record { sender_type = pd.sender_type; nickname = ""; avatar = "" })))
        go true q = sender_info_of-Outcome _ refl (user_types pd.sender_type q)
        go false q = found-Outcome _ refl (λ u. absurd (no_user pd.sender_type q u))

  -- What becomes of a message whose payload can be read. A delivery after the first is done at once,
  -- and one that the pool refuses is asked for again. On a first delivery, when the sender is no
  -- user or the user server names him, the row of the payload is asked of the database; when it is
  -- stored, the payload is published with its id, its sequence, its members and its other fields,
  -- with its content and its sender, and the message is done. Nothing is published without the row,
  -- and nothing else. What is not stored is asked for again; what is not published is asked for
  -- again and done at once. When the sender is a user and cannot be asked for, the store is left
  -- alone and the message is asked for again, while for one who has no name nothing is said.
  pub handle_message-Outcome :
      (attempts : ℕ) (w : Store D) → Outcome attempts w (handle_message env attempts (some pd) w)
  unfolding handle_message
  handle_message-Outcome attempts w = go (leb (max_retry_times + 1) attempts) refl env.submit refl
    where
      go :
          (l : Bool)
          → leb (max_retry_times + 1) attempts ≡ l
          → (taken : Bool) → env.submit ≡ taken
          → Outcome attempts w (
              if l
              then (w, finish ∷ [])
              else if taken
              then with_sender env pd w (find_sender env pd)
              else (w, requeue 500 ∷ []))
      go true q taken t = late (ground arith)
      go false q true t = find_sender-Outcome attempts w (ground arith) t
      go false q false t = busy (ground arith) t
