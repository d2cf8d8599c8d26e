-- ===== src/Push/Reach.antt =====
-- What the handler of forwarded messages writes, over the connection manager.
use sdim.Codec.Frame.{new_forward_frame}
use sdim.Topic.Types.{MsgForwardPayload}
use sdim.Push.Bodies.{ForwardFrameBody, forward_body}
use sdim.Push.Delivery.{entry, turn, sends, flat_map, Delivers, push_members-written, reach}
use sdim.Push.Handlers.{Formed, handle_forward, forward_form, encoded, skip, formed}
use sdim.Conn.Ops.{get_users_conns, get_user_conns}
use sdim.Base.Maps.{lookup, lookup-insert, MapOf, insert}
use sdim.Base.{
  inl, inr, String, ℕ, List, All, Bool, ◌≡◌, ◌∷◌, if◌then◌else◌, str_eq, ◌||◌, none, sym, [], ◌++◌,
  ap, ◌∙◌, eq_iff, Bool-cases, refl, Option, some, map,
}
use sdim.Base.Slices.{Usli}
use sdim.Conn.Types.{Handle, ConnManager, ClientConn, ClientConnWrap}
use sdim.Base.{true, false}

All-map :
    {P Q : String → Type 0} (ms : List String) → ((m : String) → P m → Q m) → All P ms → All Q ms
All-map [] f h = tt
All-map (m ∷ ms) f h = (f m h.0, All-map ms f h.1)

flat_map-sends :
    (accepts : ℕ → Bool) (form : String → Formed) (out : String → List (ℕ × List ℕ))
    (conns : String → List ℕ) (ms : List String)
    → ((m : String) (later : List (ℕ × List ℕ))
        → turn accepts later (conns m) (form m) ≡ out m ++ later)
    → sends accepts form conns ms ≡ flat_map out ms
flat_map-sends accepts form out conns [] h = refl
flat_map-sends accepts form out conns (m ∷ ms) h =
    h m (sends accepts form conns ms)
    ∙ ap (◌++◌ (out m)) (flat_map-sends accepts form out conns ms h)

-- The writes for one member of a forwarded message.
abbrev pub copies :
    (ℕ → Bool)
    → (String → List ℕ)
    → (String → Option (List ℕ))
    → (ForwardFrameBody → Option (List ℕ))
    → MsgForwardPayload
    → String
    → List (ℕ × List ℕ)
copies accepts conns uuid fmt msp m = elim (fmt (forward_body msp m)) [
  | none ↦ []
  | some bodies ↦
      map (λ c. (c, encoded (new_forward_frame uuid msp.req_id bodies))) (reach accepts (conns m))
]

abbrev is_in : String → List String → Bool
is_in m [] = false
is_in m (u ∷ us) = str_eq u m || is_in m us

All-is_in : (ms : List String) → All (λ m. is_in m ms ≡ true) ms
All-is_in [] = tt
All-is_in (m ∷ ms) = (
  ap (λ b. b || is_in m ms) ((eq_iff m m).1 refl),
  All-map ms (λ x h. weaken (str_eq m x) h) (All-is_in ms),
)
  where
    weaken : {b : Bool} (a : Bool) → b ≡ true → (a || b) ≡ true
    weaken true h = refl
    weaken false h = h

module _ {U I : Type 0} (users : MapOf ClientConnWrap U) (ids : MapOf ClientConn I)
    (sl : Usli Handle) (cm : ConnManager U I) where
  abbrev conns_of : String → List ℕ
  conns_of m = get_user_conns users ids sl cm m

  lookup-entry :
      (m u : String) (cs : List ℕ) (rest : List (String × List ℕ)) (rest_in : Bool)
      → conns_of u ≡ cs
      → lookup m rest ≡ (if rest_in then entry (conns_of m) else none)
      → lookup m (elim cs [ [] ↦ rest | c ∷ cs ↦ insert u (c ∷ cs) rest ])
        ≡ (if str_eq u m || rest_in then entry (conns_of m) else none)
  lookup-entry m u cs rest rest_in h ih = elim (Bool-cases (str_eq u m)) [
    | inl e ↦ rw (e) (same cs (ap entry (ap conns_of (sym ((eq_iff u m).0 e)) ∙ h)) e)
    | inr n ↦ rw (n) (other cs n)
  ]
    where
      same :
          (cs : List ℕ)
          → entry (conns_of m) ≡ entry cs
          → str_eq u m ≡ true
          → lookup m (elim cs [ [] ↦ rest | c ∷ cs ↦ insert u (c ∷ cs) rest ]) ≡ entry (conns_of m)
      same [] q e = ih ∙ go rest_in ∙ sym q
        where
          go : (b : Bool) → (if b then entry (conns_of m) else none) ≡ none
          go true = q
          go false = refl
      same (c ∷ cs) q e = lookup-insert u m (c ∷ cs) rest ∙ rw (e) (sym q)

      other :
          (cs : List ℕ)
          → str_eq u m ≡ false
          → lookup m (elim cs [ [] ↦ rest | c ∷ cs ↦ insert u (c ∷ cs) rest ])
            ≡ (if rest_in then entry (conns_of m) else none)
      other [] n = ih
      other (c ∷ cs) n = lookup-insert u m (c ∷ cs) rest ∙ rw (n) ih

  lookup-get_users_conns :
      (m : String) (ms : List String)
      → lookup m (get_users_conns users ids sl cm ms)
        ≡ (if is_in m ms then entry (conns_of m) else none)
  unfolding get_users_conns lookup
  lookup-get_users_conns m [] = refl
  lookup-get_users_conns m (u ∷ us) =
      lookup-entry m u (conns_of u) (get_users_conns users ids sl cm us) (is_in m us) refl
        (lookup-get_users_conns m us)

  pub All-entry :
      (ms : List String)
      → All (λ m. entry (conns_of m) ≡ lookup m (get_users_conns users ids sl cm ms)) ms
  All-entry ms = All-map ms (λ m h. sym (lookup-get_users_conns m ms ∙ rw (h) refl)) (All-is_in ms)

  module _ {S : Type 0} {write : S → ℕ → List ℕ → S × Bool} {written : S → List (ℕ × List ℕ)}
      {accepts : ℕ → Bool} (lawful : Delivers write written accepts)
      (uuid : String → Option (List ℕ)) (fmt : ForwardFrameBody → Option (List ℕ)) where
    -- A forwarded message is written to the connections of its members and to no other, member by
    -- member: to each connection of a member, up to the first that refuses, the frame of the body
    -- made out to that member. A member whose body cannot be formatted gets nothing, and the
    -- members after it are served all the same.
    pub handle_forward-written :
        (msp : MsgForwardPayload) (s : S)
        → written (handle_forward write (get_users_conns users ids sl cm) uuid fmt (some msp) s)
          ≡ written s ++ flat_map (copies accepts conns_of uuid fmt msp) msp.members
    unfolding handle_forward forward_form
    handle_forward-written msp s =
        push_members-written lawful (forward_form uuid fmt msp) conns_of
          (get_users_conns users ids sl cm msp.members) msp.members s (All-entry msp.members)
        ∙ ap (◌++◌ (written s)) (
            flat_map-sends accepts (forward_form uuid fmt msp)
              (copies accepts conns_of uuid fmt msp) conns_of msp.members
              (λ m later. turn_is m later (fmt (forward_body msp m))))
      where
        turn_is :
            (m : String) (later : List (ℕ × List ℕ)) (o : Option (List ℕ))
            → turn accepts later (conns_of m) (elim o [
              | none ↦ skip
              | some bodies ↦ formed (new_forward_frame uuid msp.req_id bodies)
            ])
              ≡ elim o [
                | none ↦ []
                | some bodies ↦
                    map
                      (λ c. (c, encoded (new_forward_frame uuid msp.req_id bodies)))
                      (reach accepts (conns_of m))
              ]
                ++ later
        turn_is m later none = refl
        turn_is m later (some b) = refl
