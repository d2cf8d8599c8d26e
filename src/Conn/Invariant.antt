-- ===== src/Conn/Invariant.antt =====
-- What every operation keeps true of the two maps together.
use sdim.Conn.Wraps.{state_is}
use sdim.Conn.Wrap.{WrapInv}
use sdim.Conn.Tracked.{
  All-Tracked-put, Absent-unknown, Tracked, All-Tracked-update, All-Tracked-del, Absent-opened,
}
use sdim.Conn.Types.{ClientConnWrap, ClientConn, Settings, ConnManager, conn_state_opened}
use sdim.Base.Maps.{MapOf}
use sdim.Base.{
  none, ◌≡◌, some, String, ◌≢◌, sym, Bool-cases, ◌∙◌, str_eq, All, false, true, inl, eq_iff, ap,
  if◌then◌else◌, inr,
}

pub none_ne_some {ℓ} : {A : Type ℓ} {a : A} → none ≡ some a → ⊥
none_ne_some e = cc

module _ {U I : Type 0} (users : MapOf ClientConnWrap U) (ids : MapOf ClientConn I) where
  -- A user who has an entry: the uid is not empty, the wrap is well formed, and each of its
  -- connections is known to the manager as that user's, authenticated.
  pub record UserInv (st : Settings) (m : I) (u : String) (w : ClientConnWrap) : Type 0 where
    pub named : u ≢ ""
    pub wrap : WrapInv st w
    pub tracked : All (Tracked ids m u) w.conns

  pub record Inv (st : Settings) (us : U) (m : I) : Type 0 where
    pub keyed : (id : String) (k : ClientConn) → ids.get id m ≡ some k → k.conn_id ≡ id
    pub kept : (u : String) (w : ClientConnWrap) → users.get u us ≡ some w → UserInv st m u w

  abbrev pub IsValid : ConnManager U I → Type 0
  IsValid cm = Inv cm.settings cm.uid2conn cm.conn_id2conn

  -- An empty manager is valid.
  pub empty-Inv :
      (st : Settings) (us : U) (m : I)
      → ((u : String) → users.get u us ≡ none)
      → ((id : String) → ids.get id m ≡ none)
      → Inv st us m
  empty-Inv st us m eu em = record {
    keyed = λ id k e. absurd (none_ne_some (sym (em id) ∙ e));
    kept = λ u w e. absurd (none_ne_some (sym (eu u) ∙ e));
  }

  module _ {st : Settings} {us : U} {m : I} (inv : Inv st us m) where
    pub keyed-put :
        (id : String) (v : ClientConn)
        → v.conn_id ≡ id
        → (j : String) (k : ClientConn) → ids.get j (ids.put id v m) ≡ some k
        → k.conn_id ≡ j
    keyed-put id v q j k e = elim (Bool-cases (str_eq id j)) [
      | inl hit ↦
          let same : id ≡ j = (eq_iff _ _).0 hit in
          let found : some v ≡ some k =
            sym (ids.get-put id j v m ∙ ap (λ b. if b then some v else ids.get j m) hit) ∙ e in
          cc
      | inr miss ↦
          inv.keyed j k
            (sym (ids.get-put id j v m ∙ ap (λ b. if b then some v else ids.get j m) miss) ∙ e)
    ]

    pub keyed-del :
        (id j : String) (k : ClientConn) → ids.get j (ids.del id m) ≡ some k → k.conn_id ≡ j
    keyed-del id j k e = elim (Bool-cases (str_eq id j)) [
      | inl hit ↦ absurd (
          none_ne_some
            (sym (ids.get-del id j m ∙ ap (λ b. if b then none else ids.get j m) hit) ∙ e))
      | inr miss ↦
          inv.keyed j k
            (sym (ids.get-del id j m ∙ ap (λ b. if b then none else ids.get j m) miss) ∙ e)
    ]

    -- A connection under a new identifier.
    pub open-Inv :
        (id : String) (v : ClientConn)
        → ids.get id m ≡ none
        → v.conn_id ≡ id
        → Inv st us (ids.put id v m)
    open-Inv id v new q = record {
      keyed = keyed-put id v q;
      kept = λ u w e.
          let old = inv.kept u w e in
          record {
            named = old.named;
            wrap = old.wrap;
            tracked =
                All-Tracked-put ids m u id v w.conns
                  (Absent-unknown ids m u id w.conns new old.tracked) old.tracked;
          };
    }

    -- A change to a connection's record that no wrap reads.
    pub update-Inv :
        (id : String) (k v : ClientConn)
        → ids.get id m ≡ some k
        → v.conn_id ≡ k.conn_id
        → v.uid ≡ k.uid
        → v.conn ≡ k.conn
        → (state_is k.state conn_state_opened ≡ false → state_is v.state conn_state_opened ≡ false)
        → Inv st us (ids.put id v m)
    update-Inv id k v g q eu ec es = record {
      keyed = keyed-put id v (q ∙ inv.keyed id k g);
      kept = λ u w e.
          let old = inv.kept u w e in
          record {
            named = old.named;
            wrap = old.wrap;
            tracked = All-Tracked-update ids m u id k v w.conns g eu ec es old.tracked;
          };
    }

    -- A connection that never authenticated is forgotten.
    pub forget-Inv :
        (id : String) (k : ClientConn)
        → ids.get id m ≡ some k
        → state_is k.state conn_state_opened ≡ true
        → Inv st us (ids.del id m)
    forget-Inv id k g o = record {
      keyed = keyed-del id;
      kept = λ u w e.
          let old = inv.kept u w e in
          record {
            named = old.named;
            wrap = old.wrap;
            tracked =
                All-Tracked-del ids m u id w.conns
                  (Absent-opened ids m u id k w.conns g o old.tracked) old.tracked;
          };
    }
