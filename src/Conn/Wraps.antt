-- ===== src/Conn/Wraps.antt =====
-- The parts of conn_manager.go that work on one connection or on one user's wrap.
use sdim.Conn.Types.{conn_state_authed, conn_state_closing, conn_state_closed, conn_state_opened}
use sdim.Base.Slices.{Usli}
use sdim.Conn.Types.{
  Settings, ClientConn, Handle, ConnState, ClientConnWrap, conn_state_opened, ConnHandleItem,
  master, slave,
}
use sdim.Base.{
  List, String, ℕ, Bool, str_eq, Option, false, ltb, if◌then◌else◌, ◌∷◌, none, ◌==◌, ◌+◌, true,
  ◌++◌, [], ◌||◌, ◌*◌, length, some,
}

contains : List ℕ → ℕ → Bool
contains [] t = false
contains (x ∷ xs) t = x == t || contains xs t

unfoldable pub is_master_level : Settings → ℕ → Bool
unfolding contains
is_master_level st ctype = contains st.master_types ctype

unfoldable pub get_client_level : Settings → ℕ → ℕ
unfolding is_master_level
get_client_level st ctype = if is_master_level st ctype then master else slave

unfoldable pub new_client_conn : String → ℕ → ℕ → ClientConn
new_client_conn conn_id conn now = record {
  conn_id = conn_id;
  uid = "";
  conn = conn;
  ctype = 0;
  clevel = 0;
  ctime = now;
  state = conn_state_opened;
  authed_time = 0;
  last_ping_time = none;
}

abbrev pub handle : ClientConn → Handle
handle cc = record { conn_id = cc.conn_id; conn = cc.conn }

unfoldable pub new_client_conn_wrap : Handle → ℕ → ClientConnWrap
new_client_conn_wrap h clevel =
    if clevel == master
    then record { conns = h ∷ []; masters = h ∷ []; slaves = [] }
    else record { conns = h ∷ []; masters = []; slaves = h ∷ [] }

unfoldable pub over_ping_lost_threshold : Settings → ℕ → ℕ → Bool
over_ping_lost_threshold st ping_time now =
    ltb (ping_time + st.ping_interval * st.ping_lost_times) now

abbrev pub state_is : ConnState → ConnState → Bool
state_is conn_state_opened conn_state_opened = true
state_is conn_state_authed conn_state_authed = true
state_is conn_state_closing conn_state_closing = true
state_is conn_state_closed conn_state_closed = true
state_is _ _ = false

module _ (us : Usli Handle) where
  abbrev pub without : String → List Handle → List Handle
  without conn_id hs = us.remove_first_if hs (λ h. str_eq h.conn_id conn_id)

  -- A new master device takes the place of the old one.
  unfoldable pub join_master : ClientConnWrap → Handle → ClientConnWrap × List ConnHandleItem
  join_master w h = elim w.masters [
    | [] ↦ (record w { conns = w.conns ++ h ∷ []; masters = h ∷ [] }, [])
    | old ∷ _ ↦ (
      record w { conns = without old.conn_id (w.conns ++ h ∷ []); masters = h ∷ [] },
      record { conn_id = old.conn_id; silence = false } ∷ [],
    )
  ]

  -- One slave device too many drives out the earliest.
  unfoldable pub evict :
      ClientConnWrap → List Handle → List Handle → ClientConnWrap × List ConnHandleItem
  evict w conns [] = (record w { conns = conns; slaves = [] }, [])
  evict w conns (earliest ∷ rest) = (
    record w { conns = without earliest.conn_id conns; slaves = us.remove (earliest ∷ rest) 0 },
    record { conn_id = earliest.conn_id; silence = true } ∷ [],
  )

  unfoldable pub join_slave : ℕ → ClientConnWrap → Handle → ClientConnWrap × List ConnHandleItem
  unfolding evict
  join_slave max_slave_conns w h =
      let conns = w.conns ++ h ∷ [] in
      let slaves = w.slaves ++ h ∷ [] in
      if ltb max_slave_conns (length slaves)
      then evict w conns slaves
      else (record w { conns = conns; slaves = slaves }, [])

  -- The user's wrap, made or extended, and the connections to turn out.
  unfoldable pub join :
      Settings → Option ClientConnWrap → ℕ → Handle → ClientConnWrap × List ConnHandleItem
  unfolding join_master join_slave new_client_conn_wrap get_client_level
  join st none ctype h = (new_client_conn_wrap h (get_client_level st ctype), [])
  join st (some w) ctype h =
      if is_master_level st ctype then join_master w h else join_slave st.max_slave_conns w h

  unfoldable pub leave : String → ℕ → ClientConnWrap → ClientConnWrap
  leave conn_id clevel w =
      if clevel == master
      then record { conns = without conn_id w.conns; masters = []; slaves = w.slaves }
      else record {
        conns = without conn_id w.conns;
        masters = w.masters;
        slaves = without conn_id w.slaves;
      }
