-- ===== src/Conn/Steps.antt =====
-- Every operation keeps the invariant, and so does any history of them.
use sdim.Conn.Wraps.{state_is, leave, new_client_conn, over_ping_lost_threshold, handle, without}
use sdim.Conn.Wrap.{join-WrapInv, join-All, conns-leave, leave-WrapInv}
use sdim.Conn.Tracked.{Absent-opened, All-Tracked-put, Tracked, All-Tracked-del, Absent-other}
use sdim.Conn.Handles.{Absent, Absent-without, All-without}
use sdim.Conn.Invariant.{
  UserInv, IsValid, none_ne_some, keyed-put, open-Inv, update-Inv, forget-Inv, keyed-del,
}
use sdim.Conn.Ops.{
  admit, authenticated, detach, add_when_opened, modify_after_authed, clean_after_conn_closed,
  modify_after_ping_success, exec_auth_expire_check_task, exec_ping_expire_check_task, Event,
  exec_delayed, step, run, opens, authenticates, closes, pings, comes_due,
}
use sdim.Base.{
  ◌∷◌, String, ◌≢◌, ◌≡◌, some, Bool-cases, ℕ, str_eq, inl, eq_iff, arith, sym, true, ◌∙◌, subst, ap,
  if◌then◌else◌, none, inr, str_ne, subst₂, ◌<◌, length, List, refl, [], Option-cases,
}
use sdim.Base.Slices.{Usli}
use sdim.Conn.Types.{
  ClientConnWrap, ClientConn, Settings, Handle, ConnManager, ConnModifyParam, conn_state_opened,
  conn_state_authed, ConnDelayItem, conn_state_closed, DelayType, auth_expired, ping_expired,
}
use sdim.Base.Maps.{MapOf, get-put_self}

module _ {U I : Type 0} (users : MapOf ClientConnWrap U) (ids : MapOf ClientConn I) where
  module _ {st : Settings} {us : U} {m : I} (u0 : String) where
    users-put :
        (w0 : ClientConnWrap)
        → ((u : String) (w : ClientConnWrap)
            → u ≢ u0
            → users.get u us ≡ some w
            → UserInv users ids st m u w)
        → UserInv users ids st m u0 w0
        → (u : String) (w : ClientConnWrap) → users.get u (users.put u0 w0 us) ≡ some w
        → UserInv users ids st m u w
    users-put w0 rest here u w e = elim (Bool-cases (str_eq u0 u)) [
      | inl hit ↦
          let same : u0 ≡ u = (eq_iff _ _).0 hit in
          let found : w0 ≡ w = ground (arith, users.get-put u0 u w0 us) in
          subst₂ (λ a b. UserInv users ids st m a b) same found here
      | inr miss ↦
          rest u w (λ q. str_ne u0 u miss (sym q)) (ground (arith, users.get-put u0 u w0 us))
    ]

    users-del :
        ((u : String) (w : ClientConnWrap)
          → u ≢ u0
          → users.get u us ≡ some w
          → UserInv users ids st m u w)
        → (u : String) (w : ClientConnWrap) → users.get u (users.del u0 us) ≡ some w
        → UserInv users ids st m u w
    users-del rest u w e = elim (Bool-cases (str_eq u0 u)) [
      | inl hit ↦ absurd (
          none_ne_some
            (sym (users.get-del u0 u us ∙ ap (λ b. if b then none else users.get u us) hit) ∙ e))
      | inr miss ↦ rest u w (λ q. str_ne u0 u miss (sym q)) (ground (arith, users.get-del u0 u us))
    ]

  module _ (us : Usli Handle) where
    admit-IsValid :
        (cm : ConnManager U I) (pa : ConnModifyParam) (now : ℕ) (k : ClientConn)
        → IsValid users ids cm
        → pa.uid ≢ ""
        → ids.get pa.conn_id cm.conn_id2conn ≡ some k
        → state_is k.state conn_state_opened ≡ true
        → IsValid users ids (admit users ids us cm pa now k).0
    unfolding admit authenticated
    admit-IsValid cm pa now k inv named g o = record {
      keyed = keyed-put users ids inv pa.conn_id _ (inv.keyed _ k g);
      kept =
          users-put pa.uid _ (λ u w n e. moved u w (inv.kept u w e))
            (record {
              named = named;
              wrap = join-WrapInv us st (users.get pa.uid cm.uid2conn) pa.ctype (handle k) (λ w e. (
                (inv.kept pa.uid w e).wrap,
                subst (λ i. Absent i w.conns) (sym (inv.keyed _ k g)) (absent w e),
              ));
              tracked =
                  join-All us st (Tracked ids _ pa.uid) (users.get pa.uid cm.uid2conn) pa.ctype
                    (handle k) (λ w e. (moved pa.uid w (inv.kept pa.uid w e)).tracked)
                    (
                      authenticated st pa now k,
                      ap
                            (λ i.
                              ids.get i
                                (ids.put pa.conn_id (authenticated st pa now k) cm.conn_id2conn))
                            (inv.keyed _ k g)
                          ∙ get-put_self ids pa.conn_id cm.conn_id2conn _,
                      refl,
                      refl,
                      refl,
                    );
            });
    }
      where
        st : Settings
        st = cm.settings

        absent :
            (w : ClientConnWrap) → users.get pa.uid cm.uid2conn ≡ some w → Absent pa.conn_id w.conns
        absent w e =
            Absent-opened ids cm.conn_id2conn pa.uid pa.conn_id k w.conns g o
              (inv.kept pa.uid w e).tracked

        moved :
            (u : String) (w : ClientConnWrap)
            → UserInv users ids st cm.conn_id2conn u w
            → UserInv users ids st
                (ids.put pa.conn_id (authenticated st pa now k) cm.conn_id2conn)
                u
                w
        moved u w old = record {
          named = old.named;
          wrap = old.wrap;
          tracked =
              All-Tracked-put ids cm.conn_id2conn u pa.conn_id _ w.conns
                (Absent-opened ids cm.conn_id2conn u pa.conn_id k w.conns g o old.tracked)
                old.tracked;
        }

    module _ (cm : ConnManager U I) (id : String) (k : ClientConn) (inv : IsValid users ids cm)
        (g : ids.get id cm.conn_id2conn ≡ some k) where
      others :
          (u : String) (w : ClientConnWrap)
          → u ≢ k.uid
          → users.get u cm.uid2conn ≡ some w
          → UserInv users ids cm.settings (ids.del id cm.conn_id2conn) u w
      others u w n e =
          let old = inv.kept u w e in
          record {
            named = old.named;
            wrap = old.wrap;
            tracked =
                All-Tracked-del ids cm.conn_id2conn u id w.conns
                  (Absent-other ids cm.conn_id2conn u id k w.conns g n old.tracked) old.tracked;
          }

      left :
          (w : ClientConnWrap)
          → users.get k.uid cm.uid2conn ≡ some w
          → 0 < length (leave us id k.clevel w).conns
          → UserInv users ids cm.settings
              (ids.del id cm.conn_id2conn)
              k.uid
              (leave us id k.clevel w)
      left w e n =
          let old = inv.kept k.uid w e in
          let same = conns-leave us cm.settings id k.clevel w in
          record {
            named = old.named;
            wrap =
                leave-WrapInv us cm.settings id k.clevel w old.wrap (omega (arith, ap length same));
            tracked = rw same (
                All-Tracked-del ids cm.conn_id2conn k.uid id (without us id w.conns)
                  (Absent-without us id w.conns old.wrap.distinct)
                  (All-without us _ id w.conns old.tracked));
          }

      detach-IsValid :
          (w : ClientConnWrap)
          → users.get k.uid cm.uid2conn ≡ some w
          → IsValid users ids
              (detach users ids us (record cm { conn_id2conn = ids.del id cm.conn_id2conn }) id k w)
      unfolding detach
      detach-IsValid w e = go (leave us id k.clevel w).conns refl
        where
          go :
              (cs : List Handle)
              → (leave us id k.clevel w).conns ≡ cs
              → let cm' = record cm { conn_id2conn = ids.del id cm.conn_id2conn } in
                IsValid users ids (elim cs [
                  | [] ↦ record cm' { uid2conn = users.del k.uid cm'.uid2conn }
                  | _ ∷ _ ↦ record cm' {
                    uid2conn = users.put k.uid (leave us id k.clevel w) cm'.uid2conn;
                  }
                ])
          go [] q = record { keyed = keyed-del users ids inv id; kept = users-del k.uid others }
          go (c ∷ cs) q = record {
            keyed = keyed-del users ids inv id;
            kept = users-put k.uid _ others (left w e (omega (arith, ap length q)));
          }

    open-IsValid :
        (cm : ConnManager U I) (id : String) (conn now : ℕ)
        → IsValid users ids cm
        → ids.get id cm.conn_id2conn ≡ none
        → IsValid users ids (add_when_opened users ids us cm id conn now)
    unfolding add_when_opened
    open-IsValid cm id conn now inv new =
        open-Inv users ids inv id (new_client_conn id conn now) new refl

    modify_after_authed-IsValid :
        (cm : ConnManager U I) (pa : ConnModifyParam) (now : ℕ)
        → IsValid users ids cm
        → pa.uid ≢ ""
        → IsValid users ids (modify_after_authed users ids us cm pa now).0
    unfolding modify_after_authed
    modify_after_authed-IsValid cm pa now inv named =
        elim (Option-cases (ids.get pa.conn_id cm.conn_id2conn)) [
          | inl e ↦ rw (e, modify_after_authed) inv
          | inr (k, e) ↦ elim (Bool-cases (state_is k.state conn_state_opened)) [
            | inl o ↦ rw (e, modify_after_authed) (rw o (admit-IsValid cm pa now k inv named e o))
            | inr n ↦ rw (e, modify_after_authed) (rw n inv)
          ]
        ]

    clean_after_conn_closed-IsValid :
        (cm : ConnManager U I) (id : String)
        → IsValid users ids cm
        → IsValid users ids (clean_after_conn_closed users ids us cm id)
    unfolding clean_after_conn_closed
    clean_after_conn_closed-IsValid cm id inv = elim (Option-cases (ids.get id cm.conn_id2conn)) [
      | inl e ↦ rw (e, clean_after_conn_closed) inv
      | inr (k, e) ↦ elim (Bool-cases (str_eq k.uid "")) [
        | inl anonymous ↦
            rw (e, clean_after_conn_closed)
              (rw anonymous (dropped k e (λ u w q. unnamed k anonymous u (inv.kept u w q).named)))
        | inr named ↦ elim (Option-cases (users.get k.uid cm.uid2conn)) [
          | inl alone ↦
              rw (e, clean_after_conn_closed)
                (rw (named, alone)
                  (dropped k e (λ u w q h.
                    none_ne_some (sym alone ∙ sym (ap (λ u. users.get u cm.uid2conn) h) ∙ q))))
          | inr (w, q) ↦
              rw (e, clean_after_conn_closed) (rw (named, q) (detach-IsValid cm id k inv e w q))
        ]
      ]
    ]
      where
        unnamed : (k : ClientConn) → str_eq k.uid "" ≡ true → (u : String) → u ≢ "" → u ≢ k.uid
        unnamed k a u n h = n (h ∙ (eq_iff _ _).0 a)

        dropped :
            (k : ClientConn)
            → ids.get id cm.conn_id2conn ≡ some k
            → ((u : String) (w : ClientConnWrap) → users.get u cm.uid2conn ≡ some w → u ≢ k.uid)
            → IsValid users ids (record cm { conn_id2conn = ids.del id cm.conn_id2conn })
        dropped k e n = record {
          keyed = keyed-del users ids inv id;
          kept = λ u w q. others cm id k inv e u w (n u w q) q;
        }

    modify_after_ping_success-IsValid :
        (cm : ConnManager U I) (id : String) (now : ℕ)
        → IsValid users ids cm
        → IsValid users ids (modify_after_ping_success users ids us cm id now)
    unfolding modify_after_ping_success
    modify_after_ping_success-IsValid cm id now inv =
        elim (Option-cases (ids.get id cm.conn_id2conn)) [
          | inl e ↦ rw (e, modify_after_ping_success) inv
          | inr (k, e) ↦
              rw (e, modify_after_ping_success)
                (update-Inv users ids inv id k _ e refl refl refl (λ s. s))
        ]

    exec_auth_expire_check_task-IsValid :
        (cm : ConnManager U I) (id : String)
        → IsValid users ids cm
        → IsValid users ids (exec_auth_expire_check_task users ids us cm id)
    unfolding exec_auth_expire_check_task
    exec_auth_expire_check_task-IsValid cm id inv =
        elim (Option-cases (ids.get id cm.conn_id2conn)) [
          | inl e ↦ rw (e, exec_auth_expire_check_task) inv
          | inr (k, e) ↦ elim (Bool-cases (state_is k.state conn_state_opened)) [
            | inl o ↦ rw (e, exec_auth_expire_check_task) (rw o (forget-Inv users ids inv id k e o))
            | inr n ↦ rw (e, exec_auth_expire_check_task) (rw n inv)
          ]
        ]

    exec_ping_expire_check_task-IsValid :
        (cm : ConnManager U I) (id : String) (now : ℕ)
        → IsValid users ids cm
        → IsValid users ids (exec_ping_expire_check_task users ids us cm id now)
    unfolding exec_ping_expire_check_task
    exec_ping_expire_check_task-IsValid cm id now inv =
        elim (Option-cases (ids.get id cm.conn_id2conn)) [
          | inl e ↦ rw (e, exec_ping_expire_check_task) inv
          | inr (k, e) ↦ elim (Option-cases k.last_ping_time) [
            | inl never ↦ rw (e, exec_ping_expire_check_task) (rw never inv)
            | inr (t, at) ↦ elim (Bool-cases (over_ping_lost_threshold cm.settings t now)) [
              | inl over ↦ elim (Bool-cases (state_is k.state conn_state_authed)) [
                | inl o ↦
                    rw (e, exec_ping_expire_check_task)
                      (rw at (
                        rw over (
                          rw o (
                            update-Inv users ids inv id k (record k { state = conn_state_closed }) e
                              refl refl refl (λ s. refl)))))
                | inr n ↦ rw (e, exec_ping_expire_check_task) (rw at (rw over (rw n inv)))
              ]
              | inr ok ↦ rw (e, exec_ping_expire_check_task) (rw at (rw ok inv))
            ]
          ]
        ]

    -- The caller's part: a new connection has an identifier that is not in use, and nobody
    -- authenticates under the empty uid.
    abbrev pub Allowed : ConnManager U I → ℕ × Event → Type 0
    Allowed cm (now, opens id conn) = ids.get id cm.conn_id2conn ≡ none
    Allowed cm (now, authenticates pa) = pa.uid ≢ ""
    Allowed cm _ = Unit {0}

    abbrev pub AllAllowed : ConnManager U I → List (ℕ × Event) → Type 0
    AllAllowed cm [] = Unit {0}
    AllAllowed cm (e ∷ es) = Allowed cm e × AllAllowed (step users ids us cm e) es

    exec_delayed-IsValid :
        (cm : ConnManager U I) (item : ConnDelayItem) (now : ℕ)
        → IsValid users ids cm
        → IsValid users ids (exec_delayed users ids us cm item now)
    unfolding exec_delayed
    exec_delayed-IsValid cm item now inv = go item.delay_type
      where
        go :
            (t : DelayType)
            → IsValid users ids (exec_delayed users ids us cm (record item { delay_type = t }) now)
        go auth_expired = exec_auth_expire_check_task-IsValid cm item.conn_id inv
        go ping_expired = exec_ping_expire_check_task-IsValid cm item.conn_id now inv

    step-IsValid :
        (cm : ConnManager U I) (e : ℕ × Event)
        → IsValid users ids cm
        → Allowed cm e
        → IsValid users ids (step users ids us cm e)
    unfolding step
    step-IsValid cm (now, opens id conn) inv new = open-IsValid cm id conn now inv new
    step-IsValid cm (now, authenticates pa) inv named =
        modify_after_authed-IsValid cm pa now inv named
    step-IsValid cm (now, closes id) inv _ = clean_after_conn_closed-IsValid cm id inv
    step-IsValid cm (now, pings id) inv _ = modify_after_ping_success-IsValid cm id now inv
    step-IsValid cm (now, comes_due item) inv _ = exec_delayed-IsValid cm item now inv

    -- After any history of the manager's calls that starts from a valid manager, and in which each
    -- new connection has a fresh identifier and nobody authenticates under the empty uid, the
    -- manager is valid: every connection that a user's entry lists is known under its identifier,
    -- belongs to that user and has authenticated; no user has an empty entry or a connection
    -- twice, and an entry's list of masters has one element at most, its list of slaves at most as
    -- many as the settings allow, or one when they allow none.
    pub run-IsValid :
        (cm : ConnManager U I) (es : List (ℕ × Event))
        → IsValid users ids cm
        → AllAllowed cm es
        → IsValid users ids (run users ids us cm es)
    unfolding run
    run-IsValid cm [] inv a = inv
    run-IsValid cm (e ∷ es) inv a =
        run-IsValid (step users ids us cm e) es (step-IsValid cm e inv a.0) a.1
