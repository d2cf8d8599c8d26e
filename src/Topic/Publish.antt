-- ===== src/Topic/Publish.antt =====
-- OnMsgComing: when a message goes to the queue.
use sdim.Topic.Merge.{send_receive_payload, is_key}
use sdim.Group.Ops.{on_send_msg_in_group, can_send_msg_in_group}
use sdim.Base.Maps.{lookup}
use sdim.Group.Types.{Groups, CanSendInfo}
use sdim.Topic.Incoming.{
  send_msg, finish_p2p, finish_group, sync_p2p, sync_group, p2p_conv_handle, group_conv_handle,
  on_msg_coming, conv_id_of,
}
use sdim.Topic.Types.{
  MsgSendReceivePayload, MsgComingParam, Conversation, ConvItem, get_conv_type_with_chat_type,
  p2p_conv, group_conv,
}
use sdim.Topic.Load.{
  Services, Outgoing, World, HandleError, Handled, failed, msg_receive, conv_add, handled,
  publish_err, store_err, no_receiver, create_p2p, load_p2p, load_group, keep_conv, group_repo_err,
  not_allowed, blank_conv, two_keys, Loaded, load_failed, loaded, local_conv2db, load_panicked,
}
use sdim.Base.{
  List, ℕ, String, ◌∷◌, Bool-cases, ◌≡◌, Option-cases, inl, inr, [], ◌⊎◌, refl, ◌∙◌, ap, Option,
  Bool, length, ◌==◌, map, true, if◌then◌else◌, not, false, arith, subst, sym,
}

abbrev pub messages : List Outgoing → List MsgSendReceivePayload
messages [] = []
messages (msg_receive pd ∷ sent) = pd ∷ messages sent
messages (conv_add pd ∷ sent) = messages sent

-- One message has been queued and its sequence is the answer, or none has and there is no sequence.
abbrev pub Queued :
    {D : Type 0}
    → (ℕ → ℕ → List String → MsgSendReceivePayload)
    → World D
    → World D × Handled
    → Type 0
Queued pd w r =
    ((seq : ℕ) × (last_ts : ℕ) × (members : List String) × (r.1 ≡ handled seq)
      × (messages r.0.sent ≡ pd seq last_ts members ∷ messages w.sent))
    ⊎ (((seq : ℕ) → ¬ (r.1 ≡ handled seq)) × (messages r.0.sent ≡ messages w.sent))

module _ {D : Type 0} (sv : Services D) (conv_id : String) (msg_id conv_type : ℕ)
    (pa : MsgComingParam) (now : ℕ) where
  abbrev pub payload : ℕ → ℕ → List String → MsgSendReceivePayload
  payload seq last_ts members =
      send_receive_payload conv_id msg_id conv_type pa seq last_ts members now

  no_seq : (e : HandleError) (seq : ℕ) → ¬ (failed e ≡ handled seq)
  no_seq e seq q = cc

  send-Queued :
      (w : World D) (seq last_ts : ℕ) (members : List String)
      → Queued payload w (send_msg sv (payload seq last_ts members) w)
  unfolding send_msg send_receive_payload
  send-Queued w seq last_ts members = elim (Bool-cases (sv.publish (payload seq last_ts members))) [
    | inl taken ↦ rw (taken, send_msg) (inl (seq, last_ts, members, refl, refl))
    | inr not_taken ↦ rw (not_taken, send_msg) (inr (no_seq publish_err, refl))
  ]

  finish_p2p-Queued :
      (c : Conversation) (w : World D)
      → Queued payload w (finish_p2p sv conv_id msg_id conv_type pa now c w)
  unfolding finish_p2p
  finish_p2p-Queued c w =
      elim (Option-cases (sv.cr.modify_conv_tree w.db pa.sender conv_id msg_id).1) [
        | inl e ↦ rw (e, finish_p2p) (inr (no_seq store_err, refl))
        | inr ((seq, last_ts), e) ↦ elim (Bool-cases (is_key pa.receiver c.members)) [
          | inl known ↦
              rw (e, finish_p2p)
                (rw known (
                  send-Queued
                    (record w { db = (sv.cr.modify_conv_tree w.db pa.sender conv_id msg_id).0 }) seq
                    last_ts (pa.receiver ∷ [])))
          | inr unknown ↦ rw (e, finish_p2p) (rw unknown (inr (no_seq no_receiver, refl)))
        ]
      ]

  finish_group-Queued :
      (secs : ℕ) (w : World D)
      → Queued payload w (finish_group sv conv_id msg_id conv_type pa now secs w)
  unfolding finish_group
  finish_group-Queued secs w = elim (Option-cases (asked.1)) [
    | inl e ↦ rw (e, finish_group) (inr (no_seq group_repo_err, refl))
    | inr (can, e) ↦ elim (Option-cases (can_send_msg_in_group can secs)) [
      | inr (reason, refused) ↦
          rw (e, finish_group) (rw refused (inr (no_seq (not_allowed reason), refl)))
      | inl allowed ↦ elim (Option-cases (stored.1)) [
        | inl gone ↦ rw (e, finish_group) (rw (allowed, gone) (inr (no_seq store_err, refl)))
        | inr ((seq, last_ts), found) ↦
            rw (e, finish_group)
              (rw (allowed, found)
                (send-Queued (record w { groups = asked.0; db = stored.0 }) seq last_ts
                  can.forward_members))
      ]
    ]
  ]
    where
      asked : Groups × Option CanSendInfo
      asked = on_send_msg_in_group sv.gr w.groups pa.receiver pa.sender conv_id pa.client_unique_id

      stored : D × Option (ℕ × ℕ)
      stored = sv.cr.modify_conv_tree w.db pa.sender conv_id msg_id

  Queued-later :
      (w w1 : World D) (r : World D × Handled)
      → messages w1.sent ≡ messages w.sent
      → Queued payload w1 r
      → Queued payload w r
  Queued-later w w1 r e (inl (seq, last_ts, members, h, m)) =
      inl (seq, last_ts, members, h, m ∙ ap (◌∷◌ (payload seq last_ts members)) e)
  Queued-later w w1 r e (inr (none, m)) = inr (none, m ∙ e)

  create-sent : (w : World D) → (create_p2p sv conv_id conv_type pa now w).0.sent ≡ w.sent
  unfolding create_p2p keep_conv
  create-sent w =
      elim (Option-cases (sv.users_unit_info pa.req_id (pa.sender ∷ pa.receiver ∷ []))) [
        | inl e ↦ rw (e, create_p2p) refl
        | inr (infos, e) ↦ elim (Bool-cases (length infos == length c.members)) [
          | inr wrong ↦ rw (e, create_p2p) (rw wrong refl)
          | inl right ↦ elim (Option-cases (local_conv2db c (map (λ e. e.1) infos) now)) [
            | inl panic ↦ rw (e, create_p2p) (rw (right, panic) refl)
            | inr (conv, made) ↦ elim (Bool-cases (sv.cr.upsert_conv w.db conv).1) [
              | inl saved ↦ rw (e, create_p2p) (rw (right, made, saved) refl)
              | inr lost ↦ rw (e, create_p2p) (rw (right, made, lost) refl)
            ]
          ]
        ]
      ]
    where
      c : Conversation
      c = blank_conv conv_id conv_type (two_keys pa.sender pa.receiver)

  load_p2p-sent : (w : World D) → (load_p2p sv conv_id conv_type pa now w).0.sent ≡ w.sent
  unfolding load_p2p keep_conv
  load_p2p-sent w = elim (Option-cases (lookup conv_id w.cm.conv_id2items)) [
    | inr (c, e) ↦ rw (e, load_p2p) refl
    | inl e ↦ elim (Option-cases (sv.cr.find_conv_items w.db conv_id)) [
      | inl err ↦ rw (e, load_p2p) (rw err refl)
      | inr (found, f) ↦ elim (Option-cases found) [
        | inl absent ↦ rw (e, load_p2p) (rw f (rw absent (create-sent w)))
        | inr (conv, there) ↦ rw (e, load_p2p) (rw f (rw there refl))
      ]
    ]
  ]

  load_group-sent : (w : World D) → (load_group sv conv_id w).0.sent ≡ w.sent
  unfolding load_group keep_conv
  load_group-sent w = elim (Option-cases (lookup conv_id w.cm.conv_id2items)) [
    | inr (c, e) ↦ rw (e, load_group) refl
    | inl e ↦ elim (Option-cases (sv.cr.find_conv_items w.db conv_id)) [
      | inl err ↦ rw (e, load_group) (rw err refl)
      | inr (found, f) ↦ elim (Option-cases found) [
        | inl absent ↦ rw (e, load_group) (rw f (rw absent refl))
        | inr (conv, there) ↦ rw (e, load_group) (rw f (rw there refl))
      ]
    ]
  ]

  sync_p2p-messages :
      (items : List ConvItem) (added : Bool) (w : World D)
      → messages (sync_p2p sv conv_id conv_type pa items added now w).0.sent ≡ messages w.sent
  unfolding sync_p2p
  sync_p2p-messages items added w = elim (Option-cases (sv.cr.get_conv_tree w.db conv_id)) [
    | inl e ↦ rw (e, sync_p2p) refl
    | inr (tree, e) ↦ elim (Bool-cases added) [
      | inl new ↦ rw (e, sync_p2p) (rw new refl)
      | inr old ↦ rw (e, sync_p2p) (rw old refl)
    ]
  ]

  sync_group-sent :
      (items : List ConvItem) (w : World D)
      → (sync_group sv conv_id conv_type pa.receiver items w).0.sent ≡ w.sent
  unfolding sync_group
  sync_group-sent items w = elim (Option-cases (sv.cr.get_conv_tree w.db conv_id)) [
    | inl e ↦ rw (e, sync_group) refl
    | inr (tree, e) ↦ elim (Option-cases (sv.gr.find_group_info pa.receiver)) [
      | inl gone ↦ rw (e, sync_group) (rw gone refl)
      | inr (row, found) ↦ rw (e, sync_group) (rw found refl)
    ]
  ]

  failing-Queued :
      (w w1 : World D) (e : HandleError)
      → messages w1.sent ≡ messages w.sent
      → Queued payload w (w1, failed e)
  failing-Queued w w1 e m = inr (no_seq e, m)

  p2p-Queued :
      (w : World D) → Queued payload w (p2p_conv_handle sv conv_id msg_id conv_type pa now w)
  unfolding p2p_conv_handle
  p2p-Queued w = go (load_p2p sv conv_id conv_type pa now w).1 refl
    where
      w1 : World D
      w1 = (load_p2p sv conv_id conv_type pa now w).0

      go :
          (l : Loaded)
          → (load_p2p sv conv_id conv_type pa now w).1 ≡ l
          → Queued payload w (p2p_conv_handle sv conv_id msg_id conv_type pa now w)
      go (load_failed e) q =
          rw (q, p2p_conv_handle) (failing-Queued w w1 e (ap messages (load_p2p-sent w)))
      go load_panicked q =
          rw (q, p2p_conv_handle) (inr (λ seq h. cc, ap messages (load_p2p-sent w)))
      go (loaded c [] added) q =
          rw (q, p2p_conv_handle)
            (Queued-later w w1 (finish_p2p sv conv_id msg_id conv_type pa now c w1)
              (ap messages (load_p2p-sent w)) (finish_p2p-Queued c w1))
      go (loaded c (item ∷ items) added) q =
          elim (Bool-cases (sync_p2p sv conv_id conv_type pa (item ∷ items) added now w1).1) [
            | inl synced ↦
                rw (q, p2p_conv_handle)
                  (rw synced (
                    Queued-later w (sync_p2p sv conv_id conv_type pa (item ∷ items) added now w1).0
                      (finish_p2p sv conv_id msg_id conv_type pa now c
                        (sync_p2p sv conv_id conv_type pa (item ∷ items) added now w1).0)
                      (sync_p2p-messages (item ∷ items) added w1 ∙ ap messages (load_p2p-sent w))
                      (finish_p2p-Queued c
                        (sync_p2p sv conv_id conv_type pa (item ∷ items) added now w1).0)))
            | inr not_synced ↦
                rw (q, p2p_conv_handle)
                  (rw not_synced (
                    failing-Queued w
                      (sync_p2p sv conv_id conv_type pa (item ∷ items) added now w1).0 store_err
                      (sync_p2p-messages (item ∷ items) added w1 ∙ ap messages (load_p2p-sent w))))
          ]

  group-Queued :
      (secs : ℕ) (w : World D)
      → Queued payload w (group_conv_handle sv conv_id msg_id conv_type pa now secs w)
  unfolding group_conv_handle
  group-Queued secs w = go (load_group sv conv_id w).1 refl
    where
      w1 : World D
      w1 = (load_group sv conv_id w).0

      go :
          (l : Loaded)
          → (load_group sv conv_id w).1 ≡ l
          → Queued payload w (group_conv_handle sv conv_id msg_id conv_type pa now secs w)
      go (load_failed e) q =
          rw (q, group_conv_handle) (failing-Queued w w1 e (ap messages (load_group-sent w)))
      go load_panicked q =
          rw (q, group_conv_handle) (inr (λ seq h. cc, ap messages (load_group-sent w)))
      go (loaded c [] added) q =
          rw (q, group_conv_handle)
            (Queued-later w w1 (finish_group sv conv_id msg_id conv_type pa now secs w1)
              (ap messages (load_group-sent w)) (finish_group-Queued secs w1))
      go (loaded c (item ∷ items) added) q =
          elim (Option-cases (sync_group sv conv_id conv_type pa.receiver (item ∷ items) w1).1) [
            | inl synced ↦
                rw (q, group_conv_handle)
                  (rw synced (
                    Queued-later w (sync_group sv conv_id conv_type pa.receiver (item ∷ items) w1).0
                      (finish_group sv conv_id msg_id conv_type pa now secs
                        (sync_group sv conv_id conv_type pa.receiver (item ∷ items) w1).0)
                      (ap messages (sync_group-sent (item ∷ items) w1 ∙ load_group-sent w))
                      (finish_group-Queued secs
                        (sync_group sv conv_id conv_type pa.receiver (item ∷ items) w1).0)))
            | inr (e, not_synced) ↦
                rw (q, group_conv_handle)
                  (rw not_synced (
                    failing-Queued w
                      (sync_group sv conv_id conv_type pa.receiver (item ∷ items) w1).0 e
                      (ap messages (sync_group-sent (item ∷ items) w1 ∙ load_group-sent w))))
          ]

pick :
    {A : Type 0} (b c d : Bool) (x y z : A)
    → b ≡ true
    → c ≡ true
    → (if not b then z else if c then x else if d then y else z) ≡ x
pick b c d x y z p q = rw (p, q) refl

skip :
    {A : Type 0} (b c d : Bool) (x y z : A)
    → b ≡ true
    → c ≡ false
    → d ≡ true
    → (if not b then z else if c then x else if d then y else z) ≡ y
skip b c d x y z p q r = rw (p, q, r) refl

-- A direct or a group message that belongs to a conversation is queued exactly when the handler
-- returns its sequence, and then once: the queued message carries that sequence, the id and the
-- conversation, and the sender's content. A handler that fails or panics queues no message.
pub on_msg_coming-Queued :
    {D : Type 0} (sv : Services D) (pa : MsgComingParam) (msg_id now secs : ℕ) (w : World D)
    → pa.is_conv_type ≡ true
    → (pa.chat_type ≡ p2p_conv) ⊎ (pa.chat_type ≡ group_conv)
    → Queued
        (payload sv (conv_id_of sv pa) msg_id (get_conv_type_with_chat_type pa.chat_type) pa now)
        w
        (on_msg_coming sv pa msg_id now secs w)
unfolding on_msg_coming
on_msg_coming-Queued {D} sv pa msg_id now secs w conv t = elim t [
  | inl direct ↦
      subst (Queued (payload sv cid msg_id ct pa now) w) (sym (first conv (direct_type direct)))
        (p2p-Queued sv cid msg_id ct pa now w)
  | inr group ↦
      subst (Queued (payload sv cid msg_id ct pa now) w)
        (sym (second conv (group_type group).0 (group_type group).1))
        (group-Queued sv cid msg_id ct pa now secs w)
]
  where
    cid : String
    cid = conv_id_of sv pa

    ct : ℕ
    ct = get_conv_type_with_chat_type pa.chat_type

    first :
        pa.is_conv_type ≡ true
        → (ct == p2p_conv) ≡ true
        → on_msg_coming sv pa msg_id now secs w ≡ p2p_conv_handle sv cid msg_id ct pa now w
    first p q = pick pa.is_conv_type (ct == p2p_conv) (ct == group_conv) _ _ (w, handled 0) p q

    second :
        pa.is_conv_type ≡ true
        → (ct == p2p_conv) ≡ false
        → (ct == group_conv) ≡ true
        → on_msg_coming sv pa msg_id now secs w ≡ group_conv_handle sv cid msg_id ct pa now secs w
    second p q r = skip pa.is_conv_type (ct == p2p_conv) (ct == group_conv) _ _ (w, handled 0) p q r

    direct_type : pa.chat_type ≡ p2p_conv → (ct == p2p_conv) ≡ true
    direct_type e = unfold get_conv_type_with_chat_type in ground arith

    group_type :
        pa.chat_type ≡ group_conv → ((ct == p2p_conv) ≡ false) × ((ct == group_conv) ≡ true)
    group_type e = unfold get_conv_type_with_chat_type in ground arith
