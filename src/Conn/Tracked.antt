-- ===== src/Conn/Tracked.antt =====
-- Which handles the map of connections backs, and which writes leave them backed.
use sdim.Conn.Wraps.{state_is}
use sdim.Conn.Handles.{Absent, All-mono}
use sdim.Base.{
  String, List, ◌≡◌, ◌≢◌, some, none, str_eq-false, sym, All, false, true, ◌∷◌, Bool-cases, str_eq,
  [], inl, eq_iff, inr, refl,
}
use sdim.Conn.Types.{ClientConn, Handle, conn_state_opened}
use sdim.Base.Maps.{MapOf}

module _ {I : Type 0} (ids : MapOf ClientConn I) where
  -- A listed connection is one that the manager still knows, under its identifier, authenticated
  -- for that user.
  abbrev pub Tracked : I → String → Handle → Type 0
  Tracked m u h =
      (cc : ClientConn) × (ids.get h.conn_id m ≡ some cc)
      × (cc.uid ≡ u)
      × (cc.conn ≡ h.conn)
      × (state_is cc.state conn_state_opened ≡ false)

  module _ (m : I) (u id : String) where
    opened_ne :
        (k : ClientConn) (h : Handle)
        → ids.get id m ≡ some k
        → state_is k.state conn_state_opened ≡ true
        → Tracked m u h
        → h.conn_id ≢ id
    opened_ne k h g o (c, e, _, _, s) = λ q. cc

    pub Absent-opened :
        (k : ClientConn) (hs : List Handle)
        → ids.get id m ≡ some k
        → state_is k.state conn_state_opened ≡ true
        → All (Tracked m u) hs
        → Absent id hs
    Absent-opened k hs g o = All-mono (Tracked m u) (λ h. opened_ne k h g o) hs

    other_ne :
        (k : ClientConn) (h : Handle)
        → ids.get id m ≡ some k
        → u ≢ k.uid
        → Tracked m u h
        → h.conn_id ≢ id
    other_ne k h g n (c, e, q, _, _) = λ p. n (cc)

    pub Absent-other :
        (k : ClientConn) (hs : List Handle)
        → ids.get id m ≡ some k
        → u ≢ k.uid
        → All (Tracked m u) hs
        → Absent id hs
    Absent-other k hs g n = All-mono (Tracked m u) (λ h. other_ne k h g n) hs

    unknown_ne : (h : Handle) → ids.get id m ≡ none → Tracked m u h → h.conn_id ≢ id
    unknown_ne h g (c, e, _, _, _) = λ p. cc

    pub Absent-unknown :
        (hs : List Handle) → ids.get id m ≡ none → All (Tracked m u) hs → Absent id hs
    Absent-unknown hs g = All-mono (Tracked m u) (λ h. unknown_ne h g) hs

    Tracked-put_ne :
        (v : ClientConn) (h : Handle)
        → h.conn_id ≢ id
        → Tracked m u h
        → Tracked (ids.put id v m) u h
    Tracked-put_ne v h n (c, e, a, b, s) = (
      c,
      rw (ids.get-put id h.conn_id v m, str_eq-false id h.conn_id (λ q. n (sym q))) e,
      a,
      b,
      s,
    )

    Tracked-del_ne : (h : Handle) → h.conn_id ≢ id → Tracked m u h → Tracked (ids.del id m) u h
    Tracked-del_ne h n (c, e, a, b, s) =
        (c, rw (ids.get-del id h.conn_id m, str_eq-false id h.conn_id (λ q. n (sym q))) e, a, b, s)

    -- Handles other than the one written stay tracked.
    pub All-Tracked-put :
        (v : ClientConn) (hs : List Handle)
        → Absent id hs
        → All (Tracked m u) hs
        → All (Tracked (ids.put id v m) u) hs
    All-Tracked-put v [] n t = tt
    All-Tracked-put v (h ∷ hs) n t = (Tracked-put_ne v h n.0 t.0, All-Tracked-put v hs n.1 t.1)

    pub All-Tracked-del :
        (hs : List Handle) → Absent id hs → All (Tracked m u) hs → All (Tracked (ids.del id m) u) hs
    All-Tracked-del [] n t = tt
    All-Tracked-del (h ∷ hs) n t = (Tracked-del_ne h n.0 t.0, All-Tracked-del hs n.1 t.1)

    -- So does a handle whose record changes in what Tracked does not read.
    Tracked-update :
        (k v : ClientConn) (h : Handle)
        → ids.get id m ≡ some k
        → v.uid ≡ k.uid
        → v.conn ≡ k.conn
        → (state_is k.state conn_state_opened ≡ false → state_is v.state conn_state_opened ≡ false)
        → Tracked m u h
        → Tracked (ids.put id v m) u h
    Tracked-update k v h g eu ec es (c, e, a, b, s) = elim (Bool-cases (str_eq id h.conn_id)) [
      | inl hit ↦
          let same : id ≡ h.conn_id = (eq_iff _ _).0 hit in
          (v, rw (ids.get-put id h.conn_id v m, hit) refl, cc, cc, es (cc))
      | inr miss ↦ (c, rw (ids.get-put id h.conn_id v m, miss) e, a, b, s)
    ]

    pub All-Tracked-update :
        (k v : ClientConn) (hs : List Handle)
        → ids.get id m ≡ some k
        → v.uid ≡ k.uid
        → v.conn ≡ k.conn
        → (state_is k.state conn_state_opened ≡ false → state_is v.state conn_state_opened ≡ false)
        → All (Tracked m u) hs
        → All (Tracked (ids.put id v m) u) hs
    All-Tracked-update k v hs g eu ec es =
        All-mono (Tracked m u) (λ h. Tracked-update k v h g eu ec es) hs
