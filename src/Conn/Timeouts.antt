-- ===== src/Conn/Timeouts.antt =====
-- The two timers against the calls that race with them.
use sdim.Base.{ℕ, ◌≡◌, String, some, ◌+◌, ◌*◌, ◌≤◌, true, [], ◌∷◌, false, ◌<◌, arith}
use sdim.Conn.Ops.{
  modify_after_ping_success, exec_ping_expire_check_task, conn_had_authed,
  exec_auth_expire_check_task, modify_after_authed, admit, authenticated,
}
use sdim.Base.Slices.{Usli}
use sdim.Conn.Types.{
  ClientConnWrap, ClientConn, Handle, ConnManager, ConnModifyParam, conn_state_opened,
  conn_state_authed, ping_expired, conn_state_closed,
}
use sdim.Base.Maps.{MapOf, get-put_self, get-del_self}

module _ {U I : Type 0} (users : MapOf ClientConnWrap U) (ids : MapOf ClientConn I)
    (us : Usli Handle) where
  module _ (cm : ConnManager U I) (pa : ConnModifyParam) (now : ℕ) (k : ClientConn)
      (g : ids.get pa.conn_id cm.conn_id2conn ≡ some k) (o : k.state ≡ conn_state_opened) where
    -- Authentication and its timeout exclude one another, in either order: once the connection has
    -- authenticated the timeout changes nothing, and once it has timed out the authentication
    -- changes nothing and turns nobody out; the timeout then has closed that one connection and
    -- forgotten it. The connection is known and was just opened.
    pub auth_race :
        (exec_auth_expire_check_task users ids us
            (modify_after_authed users ids us cm pa now).0
            pa.conn_id
          ≡ (modify_after_authed users ids us cm pa now).0)
        × (modify_after_authed users ids us
              (exec_auth_expire_check_task users ids us cm pa.conn_id)
              pa
              now
            ≡ (exec_auth_expire_check_task users ids us cm pa.conn_id, []))
        × ((exec_auth_expire_check_task users ids us cm pa.conn_id).closes ≡ k.conn ∷ cm.closes)
        × (conn_had_authed users ids us
              (exec_auth_expire_check_task users ids us cm pa.conn_id)
              pa.conn_id
            ≡ (false, false))
        × (conn_had_authed users ids us (modify_after_authed users ids us cm pa now).0 pa.conn_id
            ≡ (true, true))
    unfolding exec_auth_expire_check_task modify_after_authed admit authenticated conn_had_authed
    auth_race = (
      ground
          (arith, get-put_self ids pa.conn_id cm.conn_id2conn (authenticated cm.settings pa now k)),
      ground (arith, get-del_self ids pa.conn_id cm.conn_id2conn),
      ground arith,
      ground (arith, get-del_self ids pa.conn_id cm.conn_id2conn),
      ground
          (arith, get-put_self ids pa.conn_id cm.conn_id2conn (authenticated cm.settings pa now k)),
    )

  -- A connection that pinged is not closed by a check within the allowed silence, and the next
  -- check is asked for; one that stayed silent longer is closed if it had authenticated.
  pub ping_keeps_alive :
      (cm : ConnManager U I) (id : String) (at now : ℕ) (k : ClientConn)
      → ids.get id cm.conn_id2conn ≡ some k
      → k.state ≡ conn_state_authed
      → let cm' = modify_after_ping_success users ids us cm id at in
        let checked = exec_ping_expire_check_task users ids us cm' id now in
        let limit = at + cm.settings.ping_interval * cm.settings.ping_lost_times in
        (now ≤ limit
          → (checked.closes ≡ cm.closes)
            × (conn_had_authed users ids us checked id ≡ (true, true))
            × (checked.offers
                ≡ record {
                  delay_type = ping_expired;
                  conn_id = id;
                  expired = now + cm.settings.ping_interval;
                }
                  ∷ cm.offers))
        × (limit < now
            → (checked.closes ≡ k.conn ∷ cm.closes)
              × (conn_had_authed users ids us checked id ≡ (false, true))
              × (checked.offers ≡ cm.offers))
  unfolding modify_after_ping_success exec_ping_expire_check_task conn_had_authed
  ping_keeps_alive cm id at now k g a = (
    λ h.
        ground (arith, get-put_self ids id cm.conn_id2conn (record k { last_ping_time = some at })),
    λ h. ground (
      arith,
      get-put_self ids id cm.conn_id2conn (record k { last_ping_time = some at }),
      get-put_self ids id (ids.put id (record k { last_ping_time = some at }) cm.conn_id2conn)
          (record k { last_ping_time = some at; state = conn_state_closed }),
    ),
  )
