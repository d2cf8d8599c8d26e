-- ===== src/Roster/Arrivals.antt =====
-- The request that adds members to a group.
use mathlib.Core.Option.{none-ne-some}
use mathlib.Core.Bool.{false≢true}
use sdim.Group.Ops.{on_group_meb_added}
use sdim.Roster.Tables.{ItemRow, add_members, find_group_items, get_role_in_group}
use sdim.Group.Removal.{mem}
use sdim.Group.Types.{grp_meb_normal, Groups, GroupItemRow, GroupRow}
use sdim.Roster.Rows.{in_table, known}
use sdim.Roster.Inserts.{uids_of, or_false, in_table-insert_members}
use sdim.Roster.Agree.{Agrees, on_group_meb_added-Agrees}
use sdim.Topic.Load.{UnitInfo}
use sdim.Roster.Requests.{
  Verdict, Desk, AddRemMembersReq, accepted, Roster, param_invalid, no_permission, rpc_failed,
  store_failed, publish, tell_added, added_in_store, Event, repository, enlisted, add_in_tx,
  manager, handle_add_members, add_known,
}
use sdim.Base.{
  true, false, Bool, List, String, ◌≡◌, ◌||◌, map, ◌&&◌, ◌∷◌, not, ap, refl, [], sym, ℕ,
  if◌then◌else◌, Option, some, ◌∙◌, none, ltb, subst,
}
use sdim.Handler.Types.{answered}

-- The table gained these users, if `done`, and the memory agrees with it.
abbrev pub Joined : Bool → List String → String → Roster → Roster → Type 0
Joined done uids grp_no r r' =
    Agrees grp_no r'.items r'.groups
    × ((u : String)
        → in_table grp_no u r'.items ≡ (in_table grp_no u r.items || (done && mem uids u)))

-- What a request to add members comes to; an accepted one has added them.
abbrev pub Outcome : List String → String → Roster → Roster × Verdict → Type 0
Outcome uids grp_no r x =
    (done : Bool) × Joined done uids grp_no r x.0 × (x.1 ≡ accepted → done ≡ true)

-- The users of the answer of the user server.
abbrev pub answered_uids : List (String × UnitInfo) → List String
answered_uids uid2info = map (λ kv. kv.1.uid) uid2info

pub uids_of-map :
    (uid2info : List (String × UnitInfo))
    → uids_of (map (λ kv. kv.1) uid2info) ≡ answered_uids uid2info
uids_of-map [] = refl
uids_of-map (kv ∷ rest) = ap (◌∷◌ kv.1.uid) (uids_of-map rest)

grow_bits : (t m w : Bool) → (m ≡ true → w ≡ true → t ≡ true) → (t || (m && not w)) ≡ (t || m)
grow_bits true m w h = refl
grow_bits false false w h = refl
grow_bits false true true h = h refl refl
grow_bits false true false h = refl

is_accepted : Verdict → Bool
is_accepted accepted = true
is_accepted param_invalid = false
is_accepted no_permission = false
is_accepted rpc_failed = false
is_accepted store_failed = false

module _ (desk : Desk) (req : AddRemMembersReq) (r : Roster) (uid2info : List (String × UnitInfo))
    (agrees : Agrees req.group_no r.items r.groups) (normal : desk.new_state ≡ grp_meb_normal)
    (never_kicked : (u : String)
      → mem (answered_uids uid2info) u ≡ true
      → known req.group_no u r.items ≡ true
      → in_table req.group_no u r.items ≡ true) where
  untouched :
      (v : Verdict) → is_accepted v ≡ false → Outcome (answered_uids uid2info) req.group_no r (r, v)
  unfolding is_accepted
  untouched v e = (
    false,
    (agrees, λ u. sym (or_false (in_table req.group_no u r.items))),
    λ q. absurd (false≢true (sym e ∙ ap is_accepted q)),
  )

  publish-Joined :
      (done : Bool) (e : Event) (r' : Roster)
      → Joined done (answered_uids uid2info) req.group_no r r'
      → Joined done (answered_uids uid2info) req.group_no r (publish desk e r')
  unfolding publish
  publish-Joined done e r' h = go (desk.publishes e)
    where
      go :
          (b : Bool)
          → Joined done
              (answered_uids uid2info)
              req.group_no
              r
              (if b then record r' { sent = e ∷ r'.sent } else r')
      go true = h
      go false = h

  tell_added-Joined :
      (done : Bool) (group_name : String) (count : ℕ) (r' : Roster)
      → Joined done (answered_uids uid2info) req.group_no r r'
      → Joined done
          (answered_uids uid2info)
          req.group_no
          r
          (tell_added desk req uid2info group_name count r')
  unfolding tell_added
  tell_added-Joined done group_name count r' h =
      publish-Joined done _ _ (publish-Joined done _ _ (publish-Joined done _ r' h))

  enlisted-Outcome :
      (group_name : String) (rows : List ItemRow) (x : Groups × Option ℕ)
      → ((u : String)
          → in_table req.group_no u rows
            ≡ (in_table req.group_no u r.items || mem (answered_uids uid2info) u))
      → Agrees req.group_no rows x.0
      → Outcome
          (answered_uids uid2info)
          req.group_no
          r
          (enlisted desk req uid2info group_name rows r x)
  unfolding enlisted
  enlisted-Outcome group_name rows (groups, none) grown a = (true, (a, grown), λ q. refl)
  enlisted-Outcome group_name rows (groups, some count) grown a = go desk.submit
    where
      r' : Roster
      r' = record r { items = rows; groups = groups }

      told : Roster
      told = tell_added desk req uid2info group_name count r'

      result : Bool → Roster × Verdict
      result b = (if b then told else r', accepted)

      go : (b : Bool) → Outcome (answered_uids uid2info) req.group_no r (result b)
      go true = (true, tell_added-Joined true group_name count r' (a, grown), λ q. refl)
      go false = (true, (a, grown), λ q. refl)

  reads_table :
      (rows : List ItemRow) (found : List GroupItemRow)
      → (repository desk rows).find_group_items req.group_no ≡ some found
      → found ≡ find_group_items req.group_no rows
  reads_table rows found e = go desk.reads e
    where
      go :
          (b : Bool)
          → (if b then some (find_group_items req.group_no rows) else none) ≡ some found
          → found ≡ find_group_items req.group_no rows
      go true q = sym (ap (λ o. elim o [ none ↦ found | some f ↦ f ]) q)
      go false q = absurd (none-ne-some found q)

  added_in_store-Outcome :
      (group_name : String) (rows : List ItemRow)
      → ((u : String)
          → in_table req.group_no u rows
            ≡ (in_table req.group_no u r.items || mem (answered_uids uid2info) u))
      → Outcome
          (answered_uids uid2info)
          req.group_no
          r
          (added_in_store desk req uid2info group_name rows r)
  unfolding added_in_store
  added_in_store-Outcome group_name rows grown =
      enlisted-Outcome group_name rows
        (on_group_meb_added (repository desk rows) r.groups req.group_no (answered_uids uid2info)
          desk.mills)
        grown
        (on_group_meb_added-Agrees req.group_no (answered_uids uid2info) desk.mills r.items rows
          (repository desk rows) grown (reads_table rows) r.groups agrees)

  -- The rows that AddMembers leaves.
  add_members-grown :
      (rows : List ItemRow)
      → add_members desk.new_state req.group_no desk.mills (map (λ kv. kv.1) uid2info) r.items
        ≡ some rows
      → (u : String)
      → in_table req.group_no u rows
        ≡ (in_table req.group_no u r.items || mem (answered_uids uid2info) u)
  unfolding add_members
  add_members-grown rows e u = go (map (λ kv. kv.1) uid2info) (uids_of-map uid2info) e
    where
      go :
          (infos : List UnitInfo)
          → uids_of infos ≡ answered_uids uid2info
          → add_members desk.new_state req.group_no desk.mills infos r.items ≡ some rows
          → in_table req.group_no u rows
            ≡ (in_table req.group_no u r.items || mem (answered_uids uid2info) u)
      go [] q p = absurd (none-ne-some rows p)
      go (info ∷ infos) q p =
          ap (λ o. elim o [ none ↦ false | some x ↦ in_table req.group_no u x ]) (sym p)
          ∙ in_table-insert_members desk.new_state req.group_no u desk.mills (info ∷ infos) r.items
              normal
          ∙ ap
              (λ l.
                in_table req.group_no u r.items || (mem l u && not (known req.group_no u r.items)))
              q
          ∙ grow_bits (in_table req.group_no u r.items) (mem (answered_uids uid2info) u)
              (known req.group_no u r.items) (never_kicked u)

  add_in_tx-Outcome :
      (role : Option ℕ)
      → Outcome (answered_uids uid2info) req.group_no r (add_in_tx desk req uid2info r role)
  unfolding add_in_tx is_accepted
  add_in_tx-Outcome none = untouched no_permission refl
  add_in_tx-Outcome (some role) = go (ltb manager role)
    where
      described : List ItemRow → Option GroupRow → Roster × Verdict
      described rows o = elim o [
        | none ↦ (r, store_failed)
        | some grp ↦ added_in_store desk req uid2info grp.group_name rows r
      ]

      inserted : Option (List ItemRow) → Roster × Verdict
      inserted o = elim o [
        | none ↦ (r, store_failed)
        | some rows ↦ described rows (desk.find_group_info req.group_no)
      ]

      result : Bool → Roster × Verdict
      result b =
          if b
          then (r, no_permission)
          else inserted (
              add_members desk.new_state req.group_no desk.mills (map (λ kv. kv.1) uid2info)
                r.items)

      by_group :
          (rows : List ItemRow) (o : Option GroupRow)
          → ((u : String)
              → in_table req.group_no u rows
                ≡ (in_table req.group_no u r.items || mem (answered_uids uid2info) u))
          → Outcome (answered_uids uid2info) req.group_no r (described rows o)
      by_group rows none grown = untouched store_failed refl
      by_group rows (some grp) grown = added_in_store-Outcome grp.group_name rows grown

      by_rows :
          (o : Option (List ItemRow))
          → add_members desk.new_state req.group_no desk.mills (map (λ kv. kv.1) uid2info) r.items
            ≡ o
          → Outcome (answered_uids uid2info) req.group_no r (inserted o)
      by_rows none e = untouched store_failed refl
      by_rows (some rows) e =
          by_group rows (desk.find_group_info req.group_no) (add_members-grown rows e)

      go : (b : Bool) → Outcome (answered_uids uid2info) req.group_no r (result b)
      go true = untouched no_permission refl
      go false =
          by_rows
            (add_members desk.new_state req.group_no desk.mills (map (λ kv. kv.1) uid2info) r.items)
            refl

  -- The request to add members refines the union of sets, where the user server knows the users,
  -- the column of a new row's state has the normal state as its default, and none of the users was
  -- taken out of the group before: an accepted request adds exactly the users of the user server's
  -- answer to the members of the table, and one that is not accepted adds these or none. The memory
  -- of the group manager, where the group is in it, agrees with the table afterwards, also when the
  -- request has loaded it.
  pub handle_add_members-Outcome :
      desk.users_unit_info (req.uid ∷ req.members) ≡ answered uid2info
      → Outcome (answered_uids uid2info) req.group_no r (handle_add_members desk req r)
  unfolding handle_add_members add_known is_accepted
  handle_add_members-Outcome known_users = by_members req.members
    where
      committed : Bool → Roster × Verdict
      committed b =
          if b
          then add_in_tx desk req uid2info r (get_role_in_group req.group_no req.uid r.items)
          else (r, store_failed)

      by_commit : (b : Bool) → Outcome (answered_uids uid2info) req.group_no r (committed b)
      by_commit true = add_in_tx-Outcome (get_role_in_group req.group_no req.uid r.items)
      by_commit false = untouched store_failed refl

      result : List String → Roster × Verdict
      result ms = elim ms [
        | [] ↦ (r, param_invalid)
        | _ ∷ _ ↦ add_known desk req r (desk.users_unit_info (req.uid ∷ req.members))
      ]

      by_members : (ms : List String) → Outcome (answered_uids uid2info) req.group_no r (result ms)
      by_members [] = untouched param_invalid refl
      by_members (m ∷ ms) =
          subst (λ a. Outcome (answered_uids uid2info) req.group_no r (add_known desk req r a))
            (sym known_users) (by_commit desk.commits)
