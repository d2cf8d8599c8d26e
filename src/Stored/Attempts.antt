-- ===== src/Stored/Attempts.antt =====
-- The deliveries of one message.
use sdim.Topic.Types.{MsgSendReceivePayload}
use sdim.Base.{Option, ℕ, List, ◌≤◌, ◌∷◌, ◌≡◌, suc, [], ap, some, leb_of_le, ◌∙◌, arith, none, refl}
use sdim.Stored.Receive.{finish, handle_message, Env, Store, Reply}

module _ {D : Type 0} where
  -- The deliveries of a message whose attempts count up, each in an environment of its own, with
  -- the replies to the last.
  abbrev pub deliveries :
      Option MsgSendReceivePayload → ℕ → List (Env D) → Store D × List Reply → Store D × List Reply
  deliveries body attempts [] (w, replies) = (w, replies)
  deliveries body attempts (env ∷ envs) (w, replies) =
      deliveries body (suc attempts) envs (handle_message env attempts body w)

  thrown :
      (env : Env D) (body : Option MsgSendReceivePayload) (attempts : ℕ) (w : Store D)
      → 2 ≤ attempts
      → handle_message env attempts body w ≡ (w, finish ∷ [])
  unfolding handle_message
  thrown env none attempts w h = refl
  thrown env (some pd) attempts w h = rw (leb_of_le 2 attempts h, handle_message) refl

  all_thrown :
      (body : Option MsgSendReceivePayload) (attempts : ℕ) (envs : List (Env D)) (w : Store D)
      → 2 ≤ attempts
      → deliveries body attempts envs (w, finish ∷ []) ≡ (w, finish ∷ [])
  all_thrown body attempts [] w h = refl
  all_thrown body attempts (env ∷ envs) w h =
      ap (deliveries body (suc attempts) envs) (thrown env body attempts w h)
      ∙ all_thrown body (suc attempts) envs w (omega (arith, h))

  -- A message is worked on once: when its attempts count from 1, as NSQ counts them, the second
  -- delivery is finished without a look at the message, in whatever state the servers are, and so
  -- is each after it. So a message ends with its second delivery, it is stored and published by the
  -- first or not at all, and a requeued message is lost.
  pub second_delivery_is_last :
      (body : Option MsgSendReceivePayload) (first second : Env D) (envs : List (Env D))
      (w : Store D) (replies : List Reply)
      → deliveries body 1 (first ∷ second ∷ envs) (w, replies)
        ≡ ((handle_message first 1 body w).0, finish ∷ [])
  second_delivery_is_last body first second envs w replies =
      ap (deliveries body 3 envs)
        (thrown second body 2 (handle_message first 1 body w).0 (omega arith))
      ∙ all_thrown body 3 envs (handle_message first 1 body w).0 (omega arith)
