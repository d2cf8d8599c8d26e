-- ===== src/Handler/Recorded.antt =====
-- What the connection manager knows after some pings of a connection.
use mathlib.Core.Option
use sdim.Conn.Ops.{modify_after_ping_success}
use sdim.Codec.Frame.{Frame}
use sdim.Base.Slices.{Usli}
use sdim.Conn.Types.{ClientConnWrap, ClientConn, Handle, ConnManager}
use sdim.Base.Maps.{MapOf}
use sdim.Base.{
  true, false, List, ℕ, ◌≡◌, ◌∷◌, [], String, Bool, arith, refl, ◌∙◌, Option, str_eq, eq_iff, some,
  if◌then◌else◌, none,
}

module _ {U I : Type 0} (users : MapOf ClientConnWrap U) (ids : MapOf ClientConn I)
    (sl : Usli Handle) (conn_id : String) (now : ℕ) where
  -- As many recorded pings as there are.
  abbrev pub pinged : List Frame → ConnManager U I → ConnManager U I
  pinged [] cm = cm
  pinged (fr ∷ frs) cm = pinged frs (modify_after_ping_success users ids sl cm conn_id now)

  -- A ping of the connection has come.
  abbrev pub stamped : List Frame → ClientConn → ClientConn
  stamped [] k = k
  stamped (fr ∷ frs) k = record k { last_ping_time = some now }

  -- The manager after some pings of the connection: when there was one, the connection, if it is
  -- known, has the time of the last ping; what else the manager keeps is as before.
  pub record Recorded (frs : List Frame) (cm cm' : ConnManager U I) : Type 0 where
    pub known :
        (j : String)
        → ids.get j cm'.conn_id2conn ≡ (
            if str_eq conn_id j
            then Option.map (stamped frs) (ids.get j cm.conn_id2conn)
            else ids.get j cm.conn_id2conn)
    pub users_kept : cm'.uid2conn ≡ cm.uid2conn
    pub offers_kept : cm'.offers ≡ cm.offers
    pub closes_kept : cm'.closes ≡ cm.closes
    pub closed_kept : cm'.closed ≡ cm.closed
    pub settings_kept : cm'.settings ≡ cm.settings

  unrecorded : (cm : ConnManager U I) → Recorded [] cm cm
  unrecorded cm = record {
    known = λ j. unstamped (str_eq conn_id j) (ids.get j cm.conn_id2conn);
    users_kept = refl;
    offers_kept = refl;
    closes_kept = refl;
    closed_kept = refl;
    settings_kept = refl;
  }
    where
      unstamped :
          (b : Bool) (o : Option ClientConn) → o ≡ (if b then Option.map (stamped []) o else o)
      unstamped true none = refl
      unstamped true (some k) = refl
      unstamped false o = refl

  once_known :
      (fr : Frame) (cm : ConnManager U I) (j : String)
      → ids.get j (modify_after_ping_success users ids sl cm conn_id now).conn_id2conn ≡ (
          if str_eq conn_id j
          then Option.map (stamped (fr ∷ [])) (ids.get j cm.conn_id2conn)
          else ids.get j cm.conn_id2conn)
  unfolding modify_after_ping_success
  once_known fr cm j = go (ids.get conn_id cm.conn_id2conn) refl
    where
      after : Option ClientConn → ConnManager U I
      after o = elim o [
        | none ↦ cm
        | some k ↦ record cm {
          conn_id2conn = ids.put conn_id (record k { last_ping_time = some now }) cm.conn_id2conn;
        }
      ]

      go :
          (o : Option ClientConn)
          → ids.get conn_id cm.conn_id2conn ≡ o
          → ids.get j (after o).conn_id2conn ≡ (
              if str_eq conn_id j
              then Option.map (stamped (fr ∷ [])) (ids.get j cm.conn_id2conn)
              else ids.get j cm.conn_id2conn)
      go none e = ground (arith, eq_iff conn_id j)
      go (some k) e = ground (
        arith,
        eq_iff conn_id j,
        ids.get-put conn_id j (record k { last_ping_time = some now }) cm.conn_id2conn,
      )

  once :
      (fr : Frame) (cm : ConnManager U I)
      → Recorded (fr ∷ []) cm (modify_after_ping_success users ids sl cm conn_id now)
  unfolding modify_after_ping_success
  once fr cm = record {
    known = once_known fr cm;
    users_kept = ground arith;
    offers_kept = ground arith;
    closes_kept = ground arith;
    closed_kept = ground arith;
    settings_kept = ground arith;
  }

  twice :
      (fr : Frame) (frs : List Frame) (o : Option ClientConn)
      → Option.map (stamped frs) (Option.map (stamped (fr ∷ [])) o)
        ≡ Option.map (stamped (fr ∷ frs)) o
  twice fr [] none = refl
  twice fr [] (some k) = refl
  twice fr (x ∷ frs) none = refl
  twice fr (x ∷ frs) (some k) = refl

  onwards :
      (fr : Frame) (frs : List Frame) (cm cm' cm'' : ConnManager U I)
      → Recorded (fr ∷ []) cm cm'
      → Recorded frs cm' cm''
      → Recorded (fr ∷ frs) cm cm''
  onwards fr frs cm cm' cm'' a b = record {
    known = λ j. ground (arith, a.known j, b.known j, twice fr frs (ids.get j cm.conn_id2conn));
    users_kept = b.users_kept ∙ a.users_kept;
    offers_kept = b.offers_kept ∙ a.offers_kept;
    closes_kept = b.closes_kept ∙ a.closes_kept;
    closed_kept = b.closed_kept ∙ a.closed_kept;
    settings_kept = b.settings_kept ∙ a.settings_kept;
  }

  pub pinged-Recorded : (frs : List Frame) (cm : ConnManager U I) → Recorded frs cm (pinged frs cm)
  pinged-Recorded [] cm = unrecorded cm
  pinged-Recorded (fr ∷ frs) cm =
      onwards fr frs cm _ _ (once fr cm)
        (pinged-Recorded frs (modify_after_ping_success users ids sl cm conn_id now))
