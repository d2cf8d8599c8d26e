-- ===== src/Push/Delivery.antt =====
-- Which bytes a queue handler writes to which connections.
use mathlib.Core.List.{append-nil, append_assoc}
use sdim.Base.Maps.{lookup}
use sdim.Codec.Frame.{Frame}
use sdim.Push.Handlers.{
  write_conns, and_then, write_member, Formed, push_members, formed, encoded, stop, skip,
}
use sdim.Base.{
  ℕ, List, Bool, ◌∷◌, map, ◌≡◌, ◌++◌, if◌then◌else◌, [], sym, Option, ◌∙◌, String, none, ap, All,
  some, arith, subst,
}
use sdim.Base.{true, false}

-- What the writes come to while a payload is pushed: `written` is what has been written to whom,
-- and a connection takes every write or refuses every one.
pub record Delivers {S : Type 0} (write : S → ℕ → List ℕ → S × Bool)
    (written : S → List (ℕ × List ℕ)) (accepts : ℕ → Bool) : Type 0 where
  pub write-succeeds : (s : S) (c : ℕ) (b : List ℕ) → (write s c b).1 ≡ accepts c
  pub written-write :
      (s : S) (c : ℕ) (b : List ℕ)
      → written ((write s c b).0) ≡ (if accepts c then written s ++ (c, b) ∷ [] else written s)

-- The connections before the first that refuses.
abbrev pub reach : (ℕ → Bool) → List ℕ → List ℕ
reach accepts [] = []
reach accepts (c ∷ cs) = if accepts c then c ∷ reach accepts cs else []

abbrev pub flat_map : {A B : Type 0} → (A → List B) → List A → List B
flat_map f [] = []
flat_map f (x ∷ xs) = f x ++ flat_map f xs

-- The entry of a user with these connections in the answer of GetUsersConns.
abbrev pub entry : List ℕ → Option (List ℕ)
entry [] = none
entry (c ∷ cs) = some (c ∷ cs)

abbrev to_each : List ℕ → List ℕ → List (ℕ × List ℕ)
to_each b cs = map (λ c. (c, b)) cs

-- What a member's turn of the loop adds, with the rest of the loop.
abbrev pub turn : (ℕ → Bool) → List (ℕ × List ℕ) → List ℕ → Formed → List (ℕ × List ℕ)
turn accepts later conns stop = []
turn accepts later conns skip = later
turn accepts later conns (formed fr) = to_each (encoded fr) (reach accepts conns) ++ later

-- What the loop over the members writes, when `conns` are the connections of each.
abbrev pub sends :
    (ℕ → Bool) → (String → Formed) → (String → List ℕ) → List String → List (ℕ × List ℕ)
sends accepts form conns [] = []
sends accepts form conns (m ∷ ms) = turn accepts (sends accepts form conns ms) (conns m) (form m)

module _ {S : Type 0} {write : S → ℕ → List ℕ → S × Bool} {written : S → List (ℕ × List ℕ)}
    {accepts : ℕ → Bool} (lawful : Delivers write written accepts) where
  write_conns-written :
      (b cs : List ℕ) (s : S)
      → written (write_conns write b cs s) ≡ written s ++ to_each b (reach accepts cs)
  unfolding write_conns and_then
  write_conns-written b [] s = sym (append-nil (written s))
  write_conns-written b (c ∷ cs) s =
      go (write s c b) (accepts c) (write_conns-written b cs) (lawful.write-succeeds s c b)
        (lawful.written-write s c b)
    where
      go :
          (r : S × Bool) (a : Bool)
          → ((s' : S)
              → written (write_conns write b cs s') ≡ written s' ++ to_each b (reach accepts cs))
          → r.1 ≡ a
          → written r.0 ≡ (if a then written s ++ (c, b) ∷ [] else written s)
          → written (and_then (write_conns write b cs) r)
            ≡ written s ++ to_each b (if a then c ∷ reach accepts cs else [])
      go (s', true) true ih e w =
          ih s'
          ∙ ap (λ l. l ++ to_each b (reach accepts cs)) w
          ∙ append_assoc (written s) ((c, b) ∷ []) (to_each b (reach accepts cs))
      go (s', false) false ih e w = w ∙ sym (append-nil (written s))
      go (s', true) false ih e w = ground arith
      go (s', false) true ih e w = ground arith

  write_member-written :
      (uid2conns : List (String × List ℕ)) (m : String) (fr : Frame) (conns : List ℕ) (s : S)
      → entry conns ≡ lookup m uid2conns
      → written (write_member write uid2conns m fr s)
        ≡ written s ++ to_each (encoded fr) (reach accepts conns)
  unfolding write_member
  write_member-written uid2conns m fr [] s h =
      subst
        (λ o.
          written (elim o [ none ↦ s | some conns ↦ write_conns write (encoded fr) conns s ])
          ≡ written s ++ [])
        h (sym (append-nil (written s)))
  write_member-written uid2conns m fr (c ∷ cs) s h =
      subst
        (λ o.
          written (elim o [ none ↦ s | some conns ↦ write_conns write (encoded fr) conns s ])
          ≡ written s ++ to_each (encoded fr) (reach accepts (c ∷ cs)))
        h (write_conns-written (encoded fr) (c ∷ cs) s)

  pub push_members-written :
      (form : String → Formed) (conns : String → List ℕ) (uid2conns : List (String × List ℕ))
      (ms : List String) (s : S)
      → All (λ m. entry (conns m) ≡ lookup m uid2conns) ms
      → written (push_members write form uid2conns ms s) ≡ written s ++ sends accepts form conns ms
  unfolding push_members
  push_members-written form conns uid2conns [] s h = sym (append-nil (written s))
  push_members-written form conns uid2conns (m ∷ ms) s h =
      go (form m) (λ s'. push_members-written form conns uid2conns ms s' h.1)
    where
      rest : List (ℕ × List ℕ)
      rest = sends accepts form conns ms

      go :
          (f : Formed)
          → ((s' : S) → written (push_members write form uid2conns ms s') ≡ written s' ++ rest)
          → written (elim f [
            | stop ↦ s
            | skip ↦ push_members write form uid2conns ms s
            | formed fr ↦ push_members write form uid2conns ms (write_member write uid2conns m fr s)
          ])
            ≡ written s ++ turn accepts rest (conns m) f
      go stop ih = sym (append-nil (written s))
      go skip ih = ih s
      go (formed fr) ih =
          ih (write_member write uid2conns m fr s)
          ∙ ap (λ l. l ++ rest) (write_member-written uid2conns m fr (conns m) s h.0)
          ∙ append_assoc (written s) (to_each (encoded fr) (reach accepts (conns m))) rest
