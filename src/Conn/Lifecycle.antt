-- ===== src/Conn/Lifecycle.antt =====
-- The life of one connection's record: opened, authenticated, closed, and never back.
use sdim.Conn.Wraps.{state_is, new_client_conn, over_ping_lost_threshold}
use sdim.Conn.Steps.{Allowed}
use sdim.Conn.Invariant.{none_ne_some}
use sdim.Base.Slices.{Usli}
use sdim.Conn.Ops.{
  add_when_opened, modify_after_authed, admit, authenticated, detach, clean_after_conn_closed,
  modify_after_ping_success, exec_auth_expire_check_task, exec_ping_expire_check_task, exec_delayed,
  step, Event, opens, authenticates, closes, pings, comes_due,
}
use sdim.Base.{
  ◌≡◌, Option, some, true, String, none, arith, Bool-cases, str_eq, inl, refl, eq_iff, ℕ, inr,
  Option-cases, sym, ◌∙◌, ap,
}
use sdim.Base.Maps.{MapOf, get-put_ne}
use sdim.Conn.Types.{
  ClientConn, ConnState, ClientConnWrap, conn_state_opened, conn_state_authed, Handle,
  conn_state_closed, ConnManager, ConnModifyParam, ConnDelayItem, DelayType, auth_expired,
  ping_expired,
}

pub data Advance (k k' : ClientConn) : Type 0 where
  stays : k'.state ≡ k.state → k'.uid ≡ k.uid → k'.conn ≡ k.conn → Advance k k'
  logs_in :
      k.state ≡ conn_state_opened → k'.state ≡ conn_state_authed → k'.conn ≡ k.conn → Advance k k'
  times_out :
      k.state ≡ conn_state_authed
      → k'.state ≡ conn_state_closed
      → k'.uid ≡ k.uid
      → k'.conn ≡ k.conn
      → Advance k k'

-- What became of a record: nothing is known of it any more, or it advanced.
abbrev pub Later : ClientConn → Option ClientConn → Type 0
Later k none = Unit {0}
Later k (some k') = Advance k k'

Later-refl : (k : ClientConn) → Later k (some k)
Later-refl k = stays refl refl refl

state_is→eq : (s t : ConnState) → state_is s t ≡ true → s ≡ t
state_is→eq s t h = ground arith

module _ {U I : Type 0} (users : MapOf ClientConnWrap U) (ids : MapOf ClientConn I) where
  -- A write at a key advances the record at that key only.
  Later-put :
      (id j : String) (k kj v : ClientConn) (m : I)
      → ids.get id m ≡ some k
      → ids.get j m ≡ some kj
      → Advance k v
      → Later kj (ids.get j (ids.put id v m))
  Later-put id j k kj v m g gj a = elim (Bool-cases (str_eq id j)) [
    | inl hit ↦
        let same : id ≡ j = (eq_iff _ _).0 hit in
        let one : k ≡ kj = cc in rw (ids.get-put id j v m, hit) (rw (← one) a)
    | inr miss ↦ rw (ids.get-put id j v m, miss, gj) (Later-refl kj)
  ]

  Later-del :
      (id j : String) (kj : ClientConn) (m : I)
      → ids.get j m ≡ some kj
      → Later kj (ids.get j (ids.del id m))
  Later-del id j kj m gj = elim (Bool-cases (str_eq id j)) [
    | inl hit ↦ rw (ids.get-del id j m, hit) tt
    | inr miss ↦ rw (ids.get-del id j m, miss, gj) (Later-refl kj)
  ]

  Later-same :
      (j : String) (kj : ClientConn) (m : I) → ids.get j m ≡ some kj → Later kj (ids.get j m)
  Later-same j kj m gj = rw gj (Later-refl kj)

  module _ (us : Usli Handle) (cm : ConnManager U I) (j : String) (kj : ClientConn)
      (gj : ids.get j cm.conn_id2conn ≡ some kj) where
    add-Later :
        (id : String) (conn now : ℕ)
        → ids.get id cm.conn_id2conn ≡ none
        → Later kj (ids.get j (add_when_opened users ids us cm id conn now).conn_id2conn)
    unfolding add_when_opened
    add-Later id conn now new =
        rw
          (
            get-put_ne ids id cm.conn_id2conn j (new_client_conn id conn now)
                (λ q. none_ne_some (sym new ∙ ap (λ i. ids.get i cm.conn_id2conn) q ∙ gj)),
            gj,
          )
          (Later-refl kj)

    auth-Later :
        (pa : ConnModifyParam) (now : ℕ)
        → Later kj (ids.get j (modify_after_authed users ids us cm pa now).0.conn_id2conn)
    unfolding modify_after_authed admit authenticated
    auth-Later pa now = elim (Option-cases (ids.get pa.conn_id cm.conn_id2conn)) [
      | inl e ↦ rw (e, modify_after_authed) (Later-same j kj _ gj)
      | inr (k, e) ↦ elim (Bool-cases (state_is k.state conn_state_opened)) [
        | inl o ↦
            rw (e, modify_after_authed)
              (rw o (
                Later-put pa.conn_id j k kj (authenticated cm.settings pa now k) cm.conn_id2conn e
                  gj (logs_in (state_is→eq _ _ o) refl refl)))
        | inr n ↦ rw (e, modify_after_authed) (rw n (Later-same j kj _ gj))
      ]
    ]

    conn_id2conn-detach :
        (c : ConnManager U I) (id : String) (k : ClientConn) (w : ClientConnWrap)
        → (detach users ids us c id k w).conn_id2conn ≡ c.conn_id2conn
    unfolding detach
    conn_id2conn-detach c id k w = ground arith

    -- A close takes the record of its connection away.
    conn_id2conn-clean :
        (id : String) (k : ClientConn)
        → ids.get id cm.conn_id2conn ≡ some k
        → (clean_after_conn_closed users ids us cm id).conn_id2conn ≡ ids.del id cm.conn_id2conn
    unfolding clean_after_conn_closed
    conn_id2conn-clean id k e = elim (Bool-cases (str_eq k.uid "")) [
      | inl a ↦ rw (e, clean_after_conn_closed) (rw a refl)
      | inr a ↦ elim (Option-cases (users.get k.uid cm.uid2conn)) [
        | inl q ↦ rw (e, clean_after_conn_closed) (rw (a, q) refl)
        | inr (w, q) ↦ rw (e, clean_after_conn_closed) (rw (a, q) (conn_id2conn-detach _ id k w))
      ]
    ]

    clean-Later :
        (id : String)
        → Later kj (ids.get j (clean_after_conn_closed users ids us cm id).conn_id2conn)
    unfolding clean_after_conn_closed
    clean-Later id = elim (Option-cases (ids.get id cm.conn_id2conn)) [
      | inl e ↦ rw (e, clean_after_conn_closed) (Later-same j kj _ gj)
      | inr (k, e) ↦ rw (conn_id2conn-clean id k e) (Later-del id j kj _ gj)
    ]

    ping-Later :
        (id : String) (now : ℕ)
        → Later kj (ids.get j (modify_after_ping_success users ids us cm id now).conn_id2conn)
    unfolding modify_after_ping_success
    ping-Later id now = elim (Option-cases (ids.get id cm.conn_id2conn)) [
      | inl e ↦ rw (e, modify_after_ping_success) (Later-same j kj _ gj)
      | inr (k, e) ↦
          rw (e, modify_after_ping_success)
            (Later-put id j k kj (record k { last_ping_time = some now }) cm.conn_id2conn e gj
              (stays refl refl refl))
    ]

    auth_expired-Later :
        (id : String)
        → Later kj (ids.get j (exec_auth_expire_check_task users ids us cm id).conn_id2conn)
    unfolding exec_auth_expire_check_task
    auth_expired-Later id = elim (Option-cases (ids.get id cm.conn_id2conn)) [
      | inl e ↦ rw (e, exec_auth_expire_check_task) (Later-same j kj _ gj)
      | inr (k, e) ↦ elim (Bool-cases (state_is k.state conn_state_opened)) [
        | inl o ↦ rw (e, exec_auth_expire_check_task) (rw o (Later-del id j kj _ gj))
        | inr n ↦ rw (e, exec_auth_expire_check_task) (rw n (Later-same j kj _ gj))
      ]
    ]

    ping_expired-Later :
        (id : String) (now : ℕ)
        → Later kj (ids.get j (exec_ping_expire_check_task users ids us cm id now).conn_id2conn)
    unfolding exec_ping_expire_check_task
    ping_expired-Later id now = elim (Option-cases (ids.get id cm.conn_id2conn)) [
      | inl e ↦ rw (e, exec_ping_expire_check_task) (Later-same j kj _ gj)
      | inr (k, e) ↦ elim (Option-cases k.last_ping_time) [
        | inl never ↦ rw (e, exec_ping_expire_check_task) (rw never (Later-same j kj _ gj))
        | inr (t, at) ↦ elim (Bool-cases (over_ping_lost_threshold cm.settings t now)) [
          | inl over ↦ elim (Bool-cases (state_is k.state conn_state_authed)) [
            | inl o ↦
                rw (e, exec_ping_expire_check_task)
                  (rw at (
                    rw over (
                      rw o (
                        Later-put id j k kj (record k { state = conn_state_closed }) cm.conn_id2conn
                          e gj (times_out (state_is→eq _ _ o) refl refl refl)))))
            | inr n ↦
                rw (e, exec_ping_expire_check_task) (rw at (rw over (rw n (Later-same j kj _ gj))))
          ]
          | inr ok ↦ rw (e, exec_ping_expire_check_task) (rw at (rw ok (Later-same j kj _ gj)))
        ]
      ]
    ]

    due-Later :
        (item : ConnDelayItem) (now : ℕ)
        → Later kj (ids.get j (exec_delayed users ids us cm item now).conn_id2conn)
    unfolding exec_delayed
    due-Later item now = go item.delay_type
      where
        go :
            (t : DelayType)
            → Later kj (
                ids.get j
                  (exec_delayed users ids us cm (record item { delay_type = t }) now).conn_id2conn)
        go auth_expired = auth_expired-Later item.conn_id
        go ping_expired = ping_expired-Later item.conn_id now

    -- Whatever the call, a known connection is afterwards forgotten, as it was, authenticated where
    -- it had just been opened, or closed where it had been authenticated; no other change of state
    -- happens, its gnet connection stays, and its uid changes only when it authenticates. A newly
    -- opened connection has a fresh identifier and no empty uid authenticates.
    pub step-Later :
        (e : ℕ × Event)
        → Allowed users ids us cm e
        → Later kj (ids.get j (step users ids us cm e).conn_id2conn)
    unfolding step
    step-Later (now, opens id conn) new = add-Later id conn now new
    step-Later (now, authenticates pa) _ = auth-Later pa now
    step-Later (now, closes id) _ = clean-Later id
    step-Later (now, pings id) _ = ping-Later id now
    step-Later (now, comes_due item) _ = due-Later item now
