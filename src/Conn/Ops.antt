-- ===== src/Conn/Ops.antt =====
-- The operations of connManager. Each runs as one step; time.Now() is an argument.
use sdim.Conn.Wraps.{
  get_client_level, new_client_conn, join, state_is, leave, over_ping_lost_threshold, handle,
}
use sdim.Base.Maps.{MapOf, insert}
use sdim.Base.Slices.{Usli}
use sdim.Conn.Types.{
  conn_state_authed, conn_state_closed, auth_expired, ping_expired, Settings, ClientConn, Handle,
  ClientConnWrap, conn_state_opened, ConnHandleItem, ConnManager, ConnModifyParam, auth_expired,
  conn_state_authed, ping_expired, conn_state_closed, ConnDelayItem,
}
use sdim.Base.{
  List, String, ℕ, Bool, str_eq, false, if◌then◌else◌, ◌∷◌, none, true, [], ◌+◌, some, map,
}

-- What ModifyAfterAuthed stores in the connection.
unfoldable pub authenticated : Settings → ConnModifyParam → ℕ → ClientConn → ClientConn
unfolding get_client_level
authenticated st pa now cc = record cc {
  uid = pa.uid;
  ctype = pa.ctype;
  clevel = get_client_level st pa.ctype;
  state = conn_state_authed;
  authed_time = now;
  last_ping_time = some now;
}

module _ {U I : Type 0} (users : MapOf ClientConnWrap U) (ids : MapOf ClientConn I)
    (us : Usli Handle) where
  unfoldable pub graceful_stop : ConnManager U I → ConnManager U I
  graceful_stop cm = if cm.closed then cm else record cm { closed = true }

  unfoldable pub add_when_opened : ConnManager U I → String → ℕ → ℕ → ConnManager U I
  unfolding new_client_conn
  add_when_opened cm conn_id conn now = record cm {
    conn_id2conn = ids.put conn_id (new_client_conn conn_id conn now) cm.conn_id2conn;
    offers =
        record {
          delay_type = auth_expired;
          conn_id = conn_id;
          expired = now + cm.settings.auth_timeout;
        }
        ∷ cm.offers;
  }

  unfoldable pub admit :
      ConnManager U I → ConnModifyParam → ℕ → ClientConn → ConnManager U I × List ConnHandleItem
  unfolding authenticated join
  admit cm pa now cc =
      let (wrap, items) = join us cm.settings (users.get pa.uid cm.uid2conn) pa.ctype (handle cc) in
      (
        record cm {
          uid2conn = users.put pa.uid wrap cm.uid2conn;
          conn_id2conn = ids.put pa.conn_id (authenticated cm.settings pa now cc) cm.conn_id2conn;
          offers =
              record {
                delay_type = ping_expired;
                conn_id = pa.conn_id;
                expired = now + cm.settings.ping_interval;
              }
              ∷ cm.offers;
        },
        items,
      )

  unfoldable pub modify_after_authed :
      ConnManager U I → ConnModifyParam → ℕ → ConnManager U I × List ConnHandleItem
  unfolding admit
  modify_after_authed cm pa now = elim (ids.get pa.conn_id cm.conn_id2conn) [
    | none ↦ (cm, [])
    | some cc ↦ if state_is cc.state conn_state_opened then admit cm pa now cc else (cm, [])
  ]

  -- Whether the connection has authenticated, and whether it is known.
  unfoldable pub conn_had_authed : ConnManager U I → String → Bool × Bool
  conn_had_authed cm conn_id = elim (ids.get conn_id cm.conn_id2conn) [
    | some cc ↦ (state_is cc.state conn_state_authed, true)
    | none ↦ (false, false)
  ]

  -- The locked part of CleanAfterConnClosed.
  unfoldable pub detach : ConnManager U I → String → ClientConn → ClientConnWrap → ConnManager U I
  unfolding leave
  detach cm conn_id cc w =
      let w' = leave us conn_id cc.clevel w in
      elim w'.conns [
        | [] ↦ record cm { uid2conn = users.del cc.uid cm.uid2conn }
        | _ ∷ _ ↦ record cm { uid2conn = users.put cc.uid w' cm.uid2conn }
      ]

  unfoldable pub clean_after_conn_closed : ConnManager U I → String → ConnManager U I
  unfolding detach
  clean_after_conn_closed cm conn_id = elim (ids.get conn_id cm.conn_id2conn) [
    | none ↦ cm
    | some cc ↦
        let cm' = record cm { conn_id2conn = ids.del conn_id cm.conn_id2conn } in
        if str_eq cc.uid ""
        then cm'
        else (elim (users.get cc.uid cm.uid2conn) [ none ↦ cm' | some w ↦ detach cm' conn_id cc w ])
  ]

  unfoldable pub modify_after_ping_success : ConnManager U I → String → ℕ → ConnManager U I
  modify_after_ping_success cm conn_id now = elim (ids.get conn_id cm.conn_id2conn) [
    | none ↦ cm
    | some cc ↦ record cm {
      conn_id2conn = ids.put conn_id (record cc { last_ping_time = some now }) cm.conn_id2conn;
    }
  ]

  unfoldable pub get_user_conns : ConnManager U I → String → List ℕ
  get_user_conns cm uid = elim (users.get uid cm.uid2conn) [
    | none ↦ []
    | some w ↦ map (λ h. h.conn) w.conns
  ]

  -- A Go map in the source: a user with no connection has no entry.
  unfoldable pub get_users_conns : ConnManager U I → List String → List (String × List ℕ)
  unfolding get_user_conns
  get_users_conns cm [] = []
  get_users_conns cm (uid ∷ uids) =
      let rest = get_users_conns cm uids in
      elim (get_user_conns cm uid) [ [] ↦ rest | c ∷ cs ↦ insert uid (c ∷ cs) rest ]

  unfoldable pub exec_auth_expire_check_task : ConnManager U I → String → ConnManager U I
  exec_auth_expire_check_task cm conn_id = elim (ids.get conn_id cm.conn_id2conn) [
    | none ↦ cm
    | some cc ↦
        if state_is cc.state conn_state_opened
        then record cm {
          conn_id2conn = ids.del conn_id cm.conn_id2conn;
          closes = cc.conn ∷ cm.closes;
        }
        else cm
  ]

  unfoldable pub exec_ping_expire_check_task : ConnManager U I → String → ℕ → ConnManager U I
  unfolding over_ping_lost_threshold
  exec_ping_expire_check_task cm conn_id now = elim (ids.get conn_id cm.conn_id2conn) [
    | none ↦ cm
    | some cc ↦ elim cc.last_ping_time [
      | none ↦ cm
      | some ping_time ↦
          if over_ping_lost_threshold cm.settings ping_time now
          then (if state_is cc.state conn_state_authed
              then record cm {
                conn_id2conn =
                    ids.put conn_id (record cc { state = conn_state_closed }) cm.conn_id2conn;
                closes = cc.conn ∷ cm.closes;
              }
              else cm)
          else record cm {
            offers =
                record {
                  delay_type = ping_expired;
                  conn_id = conn_id;
                  expired = now + cm.settings.ping_interval;
                }
                ∷ cm.offers;
          }
    ]
  ]

  -- What startDqTaker does with an item that has come due.
  unfoldable pub exec_delayed : ConnManager U I → ConnDelayItem → ℕ → ConnManager U I
  unfolding exec_auth_expire_check_task exec_ping_expire_check_task
  exec_delayed cm item now = elim item.delay_type [
    | auth_expired ↦ exec_auth_expire_check_task cm item.conn_id
    | ping_expired ↦ exec_ping_expire_check_task cm item.conn_id now
  ]

-- One call of the manager. A frame handler, a gnet callback or the delay queue makes it.
pub data Event : Type 0 where
  opens : String → ℕ → Event
  authenticates : ConnModifyParam → Event
  closes : String → Event
  pings : String → Event
  comes_due : ConnDelayItem → Event

module _ {U I : Type 0} (users : MapOf ClientConnWrap U) (ids : MapOf ClientConn I)
    (us : Usli Handle) where
  unfoldable pub step : ConnManager U I → ℕ × Event → ConnManager U I
  step cm (now, opens id conn) = add_when_opened users ids us cm id conn now
  step cm (now, authenticates pa) = (modify_after_authed users ids us cm pa now).0
  step cm (now, closes id) = clean_after_conn_closed users ids us cm id
  step cm (now, pings id) = modify_after_ping_success users ids us cm id now
  step cm (now, comes_due item) = exec_delayed users ids us cm item now

  unfoldable pub run : ConnManager U I → List (ℕ × Event) → ConnManager U I
  run cm [] = cm
  run cm (e ∷ es) = run (step cm e) es
