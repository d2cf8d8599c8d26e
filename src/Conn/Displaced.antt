-- ===== src/Conn/Displaced.antt =====
-- A master device that a later login has displaced, and whose socket then closes.
use sdim.Conn.Wraps.{leave, join, without, join_master, is_master_level, handle}
use sdim.Conn.Ops.{clean_after_conn_closed, modify_after_authed, admit, get_user_conns, detach}
use sdim.Conn.Handles.{Absent, without-Absent}
use sdim.Base.{
  String, List, ◌≡◌, some, ◌≢◌, ◌∷◌, [], str_eq-false, ℕ, true, map, ◌++◌, arith, sym, ◌∙◌, ap,
}
use sdim.Base.Slices.{Usli}
use sdim.Conn.Types.{
  ClientConnWrap, ClientConn, Handle, ConnManager, master, ConnModifyParam, conn_state_opened,
}
use sdim.Base.Maps.{MapOf, get-del_ne, get-put_self}

module _ {U I : Type 0} (users : MapOf ClientConnWrap U) (ids : MapOf ClientConn I)
    (us : Usli Handle) where
  module _ (cm : ConnManager U I) (id : String) (k : ClientConn) (w : ClientConnWrap) (c : Handle)
      (cs : List Handle) (known : ids.get id cm.conn_id2conn ≡ some k) (named : k.uid ≢ "")
      (was_master : k.clevel ≡ master) (entry : users.get k.uid cm.uid2conn ≡ some w)
      (others : w.conns ≡ c ∷ cs) (displaced : Absent id w.conns) where
    clean_displaced : clean_after_conn_closed users ids us cm id ≡ record cm {
      uid2conn = users.put k.uid (record w { masters = [] }) cm.uid2conn;
      conn_id2conn = ids.del id cm.conn_id2conn;
    }
    unfolding clean_after_conn_closed leave
    clean_displaced =
        rw (known, clean_after_conn_closed) (rw (str_eq-false k.uid "" named, entry) detached)
      where
        same : without us id w.conns ≡ w.conns
        same = without-Absent us id w.conns displaced

        detached :
            detach users ids us (record cm { conn_id2conn = ids.del id cm.conn_id2conn }) id k w
            ≡ record cm {
              uid2conn = users.put k.uid (record w { masters = [] }) cm.uid2conn;
              conn_id2conn = ids.del id cm.conn_id2conn;
            }
        detached = ground (arith, same)

    -- The bug: the close of a displaced master device clears the user's master entry, which by then
    -- names another device. So the next master login turns nobody out, and the user has two master
    -- devices. The connection that closes is known, was a master of a named user, and is no longer
    -- in the user's list, which is not empty; the new connection is another one, just opened, of
    -- the same user and of a master type.
    pub close_forgets_master :
        (pa : ConnModifyParam) (now : ℕ) (k' : ClientConn)
        → pa.conn_id ≢ id
        → ids.get pa.conn_id cm.conn_id2conn ≡ some k'
        → k'.state ≡ conn_state_opened
        → pa.uid ≡ k.uid
        → is_master_level cm.settings pa.ctype ≡ true
        → let r =
            modify_after_authed users ids us (clean_after_conn_closed users ids us cm id) pa now in
          (r.1 ≡ [])
          × (get_user_conns users ids us r.0 k.uid ≡ map (λ h. h.conn) (w.conns ++ handle k' ∷ []))
    unfolding modify_after_authed admit join join_master get_user_conns
    close_forgets_master pa now k' ne g o u m =
        let w0 : ClientConnWrap = record w { masters = [] } in
        let us0 : U = users.put k.uid w0 cm.uid2conn in
        let w1 : ClientConnWrap = record w {
          conns = w.conns ++ handle k' ∷ [];
          masters = handle k' ∷ [];
        } in
        let found : ids.get pa.conn_id (ids.del id cm.conn_id2conn) ≡ some k' =
          get-del_ne ids id cm.conn_id2conn pa.conn_id (λ q. ne (sym q)) ∙ g in
        let entry0 : users.get pa.uid us0 ≡ some w0 =
          ap (λ x. users.get x us0) u ∙ get-put_self users k.uid cm.uid2conn w0 in
        let entry1 : users.get k.uid (users.put pa.uid w1 us0) ≡ some w1 =
          ap (λ x. users.get x (users.put pa.uid w1 us0)) (sym u)
          ∙ get-put_self users pa.uid us0 w1 in
        rw clean_displaced (ground (arith, found, entry0, entry1))
