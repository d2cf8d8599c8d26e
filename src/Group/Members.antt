-- ===== src/Group/Members.antt =====
-- The members of a group: who is told of a message, who is taken out, who is let in.
use sdim.Group.Ops.{forward_members}
use sdim.Group.Types.{GroupMebItem, grp_meb_normal}
use sdim.Base.Maps.{lookup, insert}
use sdim.Base.{
  List, String, ◌∷◌, ◌≡◌, ◌≢◌, [], ◌⊎◌, none, Bool-cases, some, str_eq-false, str_eq, inl, refl,
  subst, eq_iff, inr, str_ne, ◌==◌, sym, ◌∙◌, false, ◌↔◌, ==_iff, true, ap,
}

abbrev pub Has : String → List String → Type 0
Has a [] = ⊥
Has a (x ∷ xs) = (a ≡ x) ⊎ Has a xs

-- The keys of a Go map are distinct.
abbrev pub NoKey {ℓ} : {V : Type ℓ} → String → List (String × V) → Type 0
NoKey k [] = Unit {0}
NoKey k ((j, v) ∷ m) = (j ≢ k) × NoKey k m

abbrev pub DistinctKeys {ℓ} : {V : Type ℓ} → List (String × V) → Type 0
DistinctKeys [] = Unit {0}
DistinctKeys ((j, v) ∷ m) = NoKey j m × DistinctKeys m

NoKey-lookup {ℓ} : {V : Type ℓ} (k : String) (m : List (String × V)) → NoKey k m → lookup k m ≡ none
unfolding lookup
NoKey-lookup k [] n = refl
NoKey-lookup k ((j, v) ∷ m) n = rw (str_eq-false j k n.0) (NoKey-lookup k m n.1)

NoKey-insert {ℓ} :
    {V : Type ℓ} (k j : String) (v : V) (m : List (String × V))
    → j ≢ k
    → NoKey k m
    → NoKey k (insert j v m)
unfolding insert
NoKey-insert k j v [] n h = (n, tt)
NoKey-insert k j v ((i, w) ∷ m) n h = elim (Bool-cases (str_eq i j)) [
  | inl hit ↦ rw hit (n, h.1)
  | inr miss ↦ rw miss (h.0, NoKey-insert k j v m n h.1)
]

-- A write keeps the keys distinct.
pub DistinctKeys-insert {ℓ} :
    {V : Type ℓ} (j : String) (v : V) (m : List (String × V))
    → DistinctKeys m
    → DistinctKeys (insert j v m)
unfolding insert
DistinctKeys-insert j v [] d = (tt, tt)
DistinctKeys-insert j v ((i, w) ∷ m) d = elim (Bool-cases (str_eq i j)) [
  | inl hit ↦ rw hit (subst (λ k. NoKey k m) ((eq_iff _ _).0 hit) d.0, d.1)
  | inr miss ↦
      rw miss
        (NoKey-insert i j v m (λ q. str_ne i j miss (sym q)) d.0, DistinctKeys-insert j v m d.1)
]

-- An entry past the head of a map with distinct keys has another key.
lookup_later :
    (u j : String) (v item : GroupMebItem) (m : List (String × GroupMebItem))
    → NoKey j m
    → lookup u m ≡ some item
    → lookup u ((j, v) ∷ m) ≡ some item
unfolding lookup
lookup_later u j v item m n e = elim (Bool-cases (str_eq j u)) [
  | inl hit ↦
      let same : j ≡ u = (eq_iff _ _).0 hit in
      let gone : lookup u m ≡ none = subst (λ k. lookup k m ≡ none) same (NoKey-lookup j m n) in cc
  | inr miss ↦ rw miss e
]

-- A normal member other than the sender.
abbrev pub IsReceiver : String → List (String × GroupMebItem) → String → Type 0
IsReceiver sender items u =
    (item : GroupMebItem) × (lookup u items ≡ some item)
    × (u ≢ sender)
    × (item.state ≡ grp_meb_normal)

IsReceiver-later :
    (sender u j : String) (v : GroupMebItem) (m : List (String × GroupMebItem))
    → NoKey j m
    → IsReceiver sender m u
    → IsReceiver sender ((j, v) ∷ m) u
IsReceiver-later sender u j v m n (item, e, a, b) = (item, lookup_later u j v item m n e, a, b)

forward_members-IsReceiver :
    (sender u : String) (items : List (String × GroupMebItem))
    → DistinctKeys items
    → Has u (forward_members sender items)
    → IsReceiver sender items u
unfolding forward_members lookup
forward_members-IsReceiver sender u [] d h = absurd h
forward_members-IsReceiver sender u ((j, v) ∷ m) d h = elim (Bool-cases (str_eq j sender)) [
  | inl self ↦
      IsReceiver-later sender u j v m d.0 (forward_members-IsReceiver sender u m d.1 (rw self at h))
  | inr other ↦ elim (Bool-cases (v.state == grp_meb_normal)) [
    | inl normal ↦ elim (rw (other, normal) at h) [
      | inl here ↦ (
        v,
        rw ((eq_iff j u).1 (sym here)) refl,
        λ q. str_ne j sender other (sym here ∙ q),
        (==_iff _ _).0 normal,
      )
      | inr later ↦
          IsReceiver-later sender u j v m d.0 (forward_members-IsReceiver sender u m d.1 later)
    ]
    | inr not_normal ↦
        IsReceiver-later sender u j v m d.0
          (forward_members-IsReceiver sender u m d.1 (rw (other, not_normal) at h))
  ]
]

some_eq : {a b : GroupMebItem} → some a ≡ some b → a ≡ b
some_eq e = cc

Has-skip :
    (sender u j : String) (v : GroupMebItem) (m : List (String × GroupMebItem))
    → Has u (forward_members sender m)
    → Has u (forward_members sender ((j, v) ∷ m))
unfolding forward_members
Has-skip sender u j v m h = elim (Bool-cases (str_eq j sender)) [
  | inl self ↦ rw self h
  | inr other ↦ elim (Bool-cases (v.state == grp_meb_normal)) [
    | inl normal ↦ rw (other, normal) (inr h)
    | inr not_normal ↦ rw (other, not_normal) h
  ]
]

IsReceiver-forward_members :
    (sender u : String) (items : List (String × GroupMebItem))
    → IsReceiver sender items u
    → Has u (forward_members sender items)
unfolding lookup
IsReceiver-forward_members sender u [] (item, e, _, _) = cc
IsReceiver-forward_members sender u ((j, v) ∷ m) (item, e, n, s) = elim (Bool-cases (str_eq j u)) [
  | inl hit ↦ here ((eq_iff _ _).0 hit) (some_eq (rw hit at e))
  | inr miss ↦
      Has-skip sender u j v m (IsReceiver-forward_members sender u m (item, rw miss at e, n, s))
]
  where
    here : j ≡ u → v ≡ item → Has u (forward_members sender ((j, v) ∷ m))
    here q r =
        let other : str_eq j sender ≡ false = str_eq-false j sender (λ p. n (sym q ∙ p)) in
        let normal : (v.state == grp_meb_normal) ≡ true =
          (==_iff _ _).1 (ap (λ i. i.state) r ∙ s) in
        unfold forward_members in rw (other, normal) (inl (sym q))

-- A message is forwarded to exactly the members in the normal state, less the sender. The map of
-- members has distinct keys, as every Go map does.
pub forward_members_iff :
    (sender u : String) (items : List (String × GroupMebItem))
    → DistinctKeys items
    → Has u (forward_members sender items) ↔ IsReceiver sender items u
forward_members_iff sender u items d =
    (forward_members-IsReceiver sender u items d, IsReceiver-forward_members sender u items)
