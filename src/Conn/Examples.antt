-- ===== src/Conn/Examples.antt =====
-- The connection manager on concrete histories, over association lists.
use sdim.Conn.Wraps.{is_master_level, handle}
use sdim.Conn.Displaced.{close_forgets_master}
use sdim.Conn.Timeouts.{auth_race, ping_keeps_alive}
use sdim.Base.Slices.{usli}
use sdim.Conn.Steps.{AllAllowed, run-IsValid}
use sdim.Conn.Ops.{
  exec_auth_expire_check_task, step, Event, run, exec_ping_expire_check_task, get_user_conns, opens,
  authenticates, modify_after_authed, modify_after_ping_success, conn_had_authed, pings,
  clean_after_conn_closed, closes,
}
use sdim.Conn.Lifecycle.{Later, step-Later}
use sdim.Conn.Invariant.{IsValid, empty-Inv}
use sdim.Base.Maps.{lookup, assoc_map}
use sdim.Base.{
  List, ◌≤◌, ◌≡◌, ◌∷◌, String, ℕ, ◌+◌, some, true, [], false, none, ◌*◌, refl, str_ne, map, ◌++◌,
  ◌<◌,
}
use sdim.Conn.Types.{
  Settings, ConnManager, ConnModifyParam, ClientConn, ClientConnWrap, conn_state_opened,
  conn_state_authed, ConnHandleItem, ping_expired,
}

abbrev settings : Settings
settings = record {
  master_types = 1 ∷ [];
  max_slave_conns = 1;
  auth_timeout = 10;
  ping_interval = 5;
  ping_lost_times = 3;
}

abbrev fresh_manager : ConnManager (List (String × ClientConnWrap)) (List (String × ClientConn))
fresh_manager = record {
  uid2conn = [];
  conn_id2conn = [];
  settings = settings;
  closed = false;
  offers = [];
  closes = [];
}

abbrev login : ConnModifyParam
login = record { conn_id = "a"; uid = "u"; ctype = 1 }

abbrev history : List (ℕ × Event)
history = (0, opens "a" 7) ∷ (1, authenticates login) ∷ (2, pings "a") ∷ (3, closes "a") ∷ []

fresh-IsValid : IsValid assoc_map assoc_map fresh_manager
unfolding lookup
fresh-IsValid = empty-Inv assoc_map assoc_map settings [] [] (λ u. refl) (λ id. refl)

history-AllAllowed : AllAllowed assoc_map assoc_map usli fresh_manager history
unfolding lookup
history-AllAllowed = (refl, (str_ne "u" "" refl, (tt, (tt, tt))))

run-IsValid_example :
    IsValid assoc_map assoc_map (run assoc_map assoc_map usli fresh_manager history)
run-IsValid_example =
    run-IsValid assoc_map assoc_map usli fresh_manager history fresh-IsValid history-AllAllowed

-- A connection that has just been opened, and its manager.
abbrev opened : ClientConn
opened = record {
  conn_id = "a";
  uid = "";
  conn = 7;
  ctype = 0;
  clevel = 0;
  ctime = 0;
  state = conn_state_opened;
  authed_time = 0;
  last_ping_time = none;
}

abbrev opened_manager : ConnManager (List (String × ClientConnWrap)) (List (String × ClientConn))
opened_manager = record fresh_manager { conn_id2conn = ("a", opened) ∷ [] }

opened_known : lookup "a" (("a", opened) ∷ []) ≡ some opened
unfolding lookup
opened_known = refl

step-Later_example : Later opened (
    lookup "a" (step assoc_map assoc_map usli opened_manager (1, authenticates login)).conn_id2conn)
step-Later_example =
    step-Later assoc_map assoc_map usli opened_manager "a" opened opened_known
      (1, authenticates login) (str_ne "u" "" refl)

auth_race_example :
    (exec_auth_expire_check_task assoc_map assoc_map usli
        (modify_after_authed assoc_map assoc_map usli opened_manager login 1).0
        "a"
      ≡ (modify_after_authed assoc_map assoc_map usli opened_manager login 1).0)
    × (modify_after_authed assoc_map assoc_map usli
          (exec_auth_expire_check_task assoc_map assoc_map usli opened_manager "a")
          login
          1
        ≡ (exec_auth_expire_check_task assoc_map assoc_map usli opened_manager "a", []))
    × ((exec_auth_expire_check_task assoc_map assoc_map usli opened_manager "a").closes ≡ 7 ∷ [])
    × (conn_had_authed assoc_map assoc_map usli
          (exec_auth_expire_check_task assoc_map assoc_map usli opened_manager "a")
          "a"
        ≡ (false, false))
    × (conn_had_authed assoc_map assoc_map usli
          (modify_after_authed assoc_map assoc_map usli opened_manager login 1).0
          "a"
        ≡ (true, true))
auth_race_example =
    auth_race assoc_map assoc_map usli opened_manager login 1 opened opened_known refl

abbrev authed : ClientConn
authed = record opened {
  uid = "u";
  ctype = 1;
  clevel = 1;
  state = conn_state_authed;
  last_ping_time = some 0;
}

abbrev authed_manager : ConnManager (List (String × ClientConnWrap)) (List (String × ClientConn))
authed_manager = record fresh_manager { conn_id2conn = ("a", authed) ∷ [] }

authed_known : lookup "a" (("a", authed) ∷ []) ≡ some authed
unfolding lookup
authed_known = refl

-- The check of a ping at 2, made at 12.
abbrev checked : ConnManager (List (String × ClientConnWrap)) (List (String × ClientConn))
checked =
    exec_ping_expire_check_task assoc_map assoc_map usli
      (modify_after_ping_success assoc_map assoc_map usli authed_manager "a" 2) "a" 12

ping_keeps_alive_example :
    (12 ≤ 2 + 5 * 3
      → (checked.closes ≡ [])
        × (conn_had_authed assoc_map assoc_map usli checked "a" ≡ (true, true))
        × (checked.offers
            ≡ record { delay_type = ping_expired; conn_id = "a"; expired = 12 + 5 } ∷ []))
    × (2 + 5 * 3 < 12
        → (checked.closes ≡ 7 ∷ [])
          × (conn_had_authed assoc_map assoc_map usli checked "a" ≡ (false, true))
          × (checked.offers ≡ []))
ping_keeps_alive_example =
    ping_keeps_alive assoc_map assoc_map usli authed_manager "a" 2 12 authed authed_known refl

-- The device `b` has displaced `a`, whose connection closes before `c` logs in.
abbrev displaced_wrap : ClientConnWrap
displaced_wrap = record {
  conns = record { conn_id = "b"; conn = 8 } ∷ [];
  masters = record { conn_id = "b"; conn = 8 } ∷ [];
  slaves = [];
}

abbrev third : ClientConn
third = record opened { conn_id = "c"; conn = 9 }

abbrev displaced_manager : ConnManager (List (String × ClientConnWrap)) (List (String × ClientConn))
displaced_manager = record fresh_manager {
  uid2conn = ("u", displaced_wrap) ∷ [];
  conn_id2conn = ("a", authed) ∷ ("c", third) ∷ [];
}

third_known : lookup "c" displaced_manager.conn_id2conn ≡ some third
unfolding lookup
third_known = refl

displaced_known : lookup "a" displaced_manager.conn_id2conn ≡ some authed
unfolding lookup
displaced_known = refl

displaced_entry : lookup "u" displaced_manager.uid2conn ≡ some displaced_wrap
unfolding lookup
displaced_entry = refl

master_type : is_master_level settings 1 ≡ true
unfolding is_master_level
master_type = refl

abbrev second_login :
    (ConnManager (List (String × ClientConnWrap)) (List (String × ClientConn)))
    × List ConnHandleItem
second_login =
    modify_after_authed assoc_map assoc_map usli
      (clean_after_conn_closed assoc_map assoc_map usli displaced_manager "a")
      (record { conn_id = "c"; uid = "u"; ctype = 1 }) 5

close_forgets_master_example :
    (second_login.1 ≡ [])
    × (get_user_conns assoc_map assoc_map usli second_login.0 "u"
        ≡ map (λ h. h.conn) (displaced_wrap.conns ++ handle third ∷ []))
close_forgets_master_example =
    close_forgets_master assoc_map assoc_map usli displaced_manager "a" authed displaced_wrap
      (record { conn_id = "b"; conn = 8 }) [] displaced_known (str_ne "u" "" refl) refl
      displaced_entry refl (str_ne "b" "a" refl, tt)
      (record { conn_id = "c"; uid = "u"; ctype = 1 }) 5 third (str_ne "c" "a" refl) third_known
      refl refl master_type
