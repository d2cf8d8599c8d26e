-- ===== src/Conn/Wrap.antt =====
-- One user's connections: what logging in and leaving keep true of them.
-- A user's wrap lists at least one connection, none twice, at most one under Master, and under
-- Slave at most the configured number (one, if that is zero).
use sdim.Conn.Wraps.{
  new_client_conn_wrap, join_master, evict, join_slave, join, leave, without, is_master_level,
  get_client_level,
}
use Prim.Native.Nat.{max}
use sdim.Conn.Handles.{
  Absent, Distinct, Distinct-without, Distinct-append_one, length-without-le, length-without-ge,
  All-append, All-without,
}
use sdim.Base.{
  ℕ, Bool-cases, Option, String, ◌<◌, length, ◌==◌, ◌≡◌, some, ◌≤◌, ◌++◌, All, inl, ◌∷◌, arith, [],
  inr, none, List, ltb, refl, length-append, ltb→le, ◌⊎◌, ◌+◌,
}
use sdim.Base.Slices.{Usli}
use sdim.Conn.Types.{Settings, ClientConnWrap, Handle, master}

pub record WrapInv (st : Settings) (w : ClientConnWrap) : Type 0 where
  pub live : 0 < length w.conns
  pub distinct : Distinct w.conns
  pub one_master : length w.masters ≤ 1
  pub slaves_bound : length w.slaves ≤ max 1 st.max_slave_conns

new_client_conn_wrap-WrapInv :
    (st : Settings) (h : Handle) (clevel : ℕ) → WrapInv st (new_client_conn_wrap h clevel)
unfolding new_client_conn_wrap
new_client_conn_wrap-WrapInv st h clevel = elim (Bool-cases (clevel == master)) [
  | inl e ↦
      rw (e, new_client_conn_wrap)
        (record {
          live = omega arith;
          distinct = (tt, tt);
          one_master = omega arith;
          slaves_bound = omega arith;
        })
  | inr e ↦
      rw (e, new_client_conn_wrap)
        (record {
          live = omega arith;
          distinct = (tt, tt);
          one_master = omega arith;
          slaves_bound = omega arith;
        })
]

conns-new_client_conn_wrap :
    (h : Handle) (clevel : ℕ) → (new_client_conn_wrap h clevel).conns ≡ h ∷ []
unfolding new_client_conn_wrap
conns-new_client_conn_wrap h clevel = ground arith

module _ (us : Usli Handle) (st : Settings) where
  join_master-WrapInv :
      (w : ClientConnWrap) (h : Handle)
      → WrapInv st w
      → Absent h.conn_id w.conns
      → WrapInv st (join_master us w h).0
  unfolding join_master
  join_master-WrapInv w h v a = go w.masters
    where
      more : Distinct (w.conns ++ h ∷ [])
      more = Distinct-append_one w.conns h v.distinct a

      go : (ms : List Handle) → WrapInv st (join_master us (record w { masters = ms }) h).0
      go [] = record {
        live = omega (arith, length-append w.conns (h ∷ []), v.live);
        distinct = more;
        one_master = omega arith;
        slaves_bound = v.slaves_bound;
      }
      go (old ∷ ms) = record {
        live = omega (
          arith,
          length-append w.conns (h ∷ []),
          v.live,
          length-without-ge us old.conn_id (w.conns ++ h ∷ []),
        );
        distinct = Distinct-without us old.conn_id _ more;
        one_master = omega arith;
        slaves_bound = v.slaves_bound;
      }

  evict-WrapInv :
      (w : ClientConnWrap) (conns slaves : List Handle)
      → 1 < length conns
      → Distinct conns
      → length w.masters ≤ 1
      → length slaves ≤ 1 + max 1 st.max_slave_conns
      → WrapInv st (evict us w conns slaves).0
  unfolding evict
  evict-WrapInv w conns [] n d m b = record {
    live = omega arith;
    distinct = d;
    one_master = m;
    slaves_bound = omega arith;
  }
  evict-WrapInv w conns (e ∷ rest) n d m b = record {
    live = omega (arith, length-without-ge us e.conn_id conns);
    distinct = Distinct-without us e.conn_id conns d;
    one_master = m;
    slaves_bound = rw (us.remove-zero e rest) (omega arith);
  }

  join_slave-WrapInv :
      (w : ClientConnWrap) (h : Handle)
      → WrapInv st w
      → Absent h.conn_id w.conns
      → WrapInv st (join_slave us st.max_slave_conns w h).0
  unfolding join_slave
  join_slave-WrapInv w h v a =
      elim (Bool-cases (ltb st.max_slave_conns (length (w.slaves ++ h ∷ [])))) [
        | inl full ↦
            rw (full, join_slave)
              (evict-WrapInv w _ _ (omega (arith, length-append w.conns (h ∷ []), v.live)) more
                v.one_master (omega (arith, length-append w.slaves (h ∷ []), v.slaves_bound)))
        | inr room ↦
            rw (room, join_slave)
              (record {
                live = omega (arith, length-append w.conns (h ∷ []), v.live);
                distinct = more;
                one_master = v.one_master;
                slaves_bound = omega (arith, ltb→le _ _ room);
              })
      ]
    where
      more : Distinct (w.conns ++ h ∷ [])
      more = Distinct-append_one w.conns h v.distinct a

  -- The wrap after a login is well formed, if the connection is new to it.
  pub join-WrapInv :
      (o : Option ClientConnWrap) (ctype : ℕ) (h : Handle)
      → ((w : ClientConnWrap) → o ≡ some w → WrapInv st w × Absent h.conn_id w.conns)
      → WrapInv st (join us st o ctype h).0
  unfolding join
  join-WrapInv none ctype h v = new_client_conn_wrap-WrapInv st h _
  join-WrapInv (some w) ctype h v = elim (Bool-cases (is_master_level st ctype)) [
    | inl m ↦ rw (m, join) (join_master-WrapInv w h (v w refl).0 (v w refl).1)
    | inr s ↦ rw (s, join) (join_slave-WrapInv w h (v w refl).0 (v w refl).1)
  ]

  pub conns-leave :
      (id : String) (clevel : ℕ) (w : ClientConnWrap)
      → (leave us id clevel w).conns ≡ without us id w.conns
  unfolding leave
  conns-leave id clevel w = ground arith

  pub leave-WrapInv :
      (id : String) (clevel : ℕ) (w : ClientConnWrap)
      → WrapInv st w
      → 0 < length (without us id w.conns)
      → WrapInv st (leave us id clevel w)
  unfolding leave
  leave-WrapInv id clevel w v n = elim (Bool-cases (clevel == master)) [
    | inl m ↦
        rw (m, leave)
          (record {
            live = n;
            distinct = Distinct-without us id _ v.distinct;
            one_master = omega arith;
            slaves_bound = v.slaves_bound;
          })
    | inr s ↦
        rw (s, leave)
          (record {
            live = n;
            distinct = Distinct-without us id _ v.distinct;
            one_master = v.one_master;
            slaves_bound = omega (arith, length-without-le us id w.slaves, v.slaves_bound);
          })
  ]

  -- A login appends the connection, and may take one out.
  abbrev Extends : ClientConnWrap → Handle → List Handle → Type 0
  Extends w h conns =
      (conns ≡ w.conns ++ h ∷ []) ⊎ ((id : String) × (conns ≡ without us id (w.conns ++ h ∷ [])))

  join_master-Extends : (w : ClientConnWrap) (h : Handle) → Extends w h (join_master us w h).0.conns
  unfolding join_master
  join_master-Extends w h = go w.masters
    where
      go : (ms : List Handle) → Extends w h (join_master us (record w { masters = ms }) h).0.conns
      go [] = inl refl
      go (old ∷ ms) = inr (old.conn_id, refl)

  evict-Extends :
      (w : ClientConnWrap) (h : Handle) (slaves : List Handle)
      → Extends w h (evict us w (w.conns ++ h ∷ []) slaves).0.conns
  unfolding evict
  evict-Extends w h [] = inl refl
  evict-Extends w h (e ∷ rest) = inr (e.conn_id, refl)

  join_slave-Extends :
      (w : ClientConnWrap) (h : Handle) → Extends w h (join_slave us st.max_slave_conns w h).0.conns
  unfolding join_slave
  join_slave-Extends w h =
      elim (Bool-cases (ltb st.max_slave_conns (length (w.slaves ++ h ∷ [])))) [
        | inl full ↦ rw (full, join_slave) (evict-Extends w h _)
        | inr room ↦ rw (room, join_slave) (inl refl)
      ]

  join-Extends :
      (w : ClientConnWrap) (ctype : ℕ) (h : Handle)
      → Extends w h (join us st (some w) ctype h).0.conns
  unfolding join
  join-Extends w ctype h = elim (Bool-cases (is_master_level st ctype)) [
    | inl m ↦ rw (m, join) (join_master-Extends w h)
    | inr s ↦ rw (s, join) (join_slave-Extends w h)
  ]

  module _ (P : Handle → Type 0) where
    -- The handles listed after a login are those of before and the new one.
    pub join-All :
        (o : Option ClientConnWrap) (ctype : ℕ) (h : Handle)
        → ((w : ClientConnWrap) → o ≡ some w → All P w.conns)
        → P h
        → All P (join us st o ctype h).0.conns
    unfolding join
    join-All none ctype h v p =
        rw (conns-new_client_conn_wrap h (get_client_level st ctype)) (p, tt)
    join-All (some w) ctype h v p = elim (join-Extends w ctype h) [
      | inl e ↦ rw e more
      | inr (id, e) ↦ rw e (All-without us P id _ more)
    ]
      where
        more : All P (w.conns ++ h ∷ [])
        more = All-append P w.conns (h ∷ []) (v w refl) (p, tt)
