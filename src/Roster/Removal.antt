-- ===== src/Roster/Removal.antt =====
-- The request that takes members out of a group.
use sdim.Topic.Groups.{generate_group_chat_conv_id}
use sdim.Roster.Hints.{UidNickname, build_remove_info_fmt}
use sdim.Group.Ops.{on_group_meb_removed}
use sdim.Topic.Load.{UnitInfo}
use sdim.Roster.Tables.{ItemRow, get_role_in_group, remove_members}
use sdim.Group.Removal.{mem}
use sdim.Roster.Rows.{in_table, remove_members-in_table}
use sdim.Roster.Agree.{Agrees, on_group_meb_removed-Agrees}
use sdim.Roster.Requests.{
  Desk, AddRemMembersReq, Roster, publish, tell_removed, removed_in_store, manager, Event, accepted,
  received, store_failed, cmd_payload, group_removed, notified, group_notice, removed_uids,
  remove_in_tx, handle_remove_members, Verdict, no_permission,
}
use sdim.Base.{
  true, false, Option, Bool, ℕ, some, not, ltb, String, ◌≡◌, ◌&&◌, List, if◌then◌else◌, none, refl,
  ◌∷◌, [], sym, ◌∙◌,
}
use sdim.Handler.Types.{call_failed, not_ok, answered, RpcAnswer}

-- The role of an operator who may change the members.
abbrev pub permitted : Option ℕ → Bool
permitted none = false
permitted (some role) = not (ltb manager role)

-- The table lost these members, if `done`, and the memory agrees with it.
abbrev pub Took : Bool → AddRemMembersReq → Roster → Roster → Type 0
Took done req r r' =
    Agrees req.group_no r'.items r'.groups
    × ((u : String)
        → in_table req.group_no u r'.items
          ≡ (in_table req.group_no u r.items && not (done && mem req.members u)))

unmoved : (t m : Bool) → false ≡ (t && m) → t ≡ (t && not m)
unmoved true true e = sym e
unmoved true false e = refl
unmoved false m e = refl

module _ (desk : Desk) (req : AddRemMembersReq) (r : Roster)
    (agrees : Agrees req.group_no r.items r.groups) where
  and_true : (b : Bool) → b ≡ (b && true)
  and_true true = refl
  and_true false = refl

  kept : Took false req r r
  kept = (agrees, λ u. and_true (in_table req.group_no u r.items))

  publish-Took :
      (done : Bool) (e : Event) (r' : Roster)
      → Took done req r r'
      → Took done req r (publish desk e r')
  unfolding publish
  publish-Took done e r' h = go (desk.publishes e)
    where
      go : (b : Bool) → Took done req r (if b then record r' { sent = e ∷ r'.sent } else r')
      go true = h
      go false = h

  tell_removed-Took :
      (done : Bool) (rem_uids : List String) (a : RpcAnswer (List (String × UnitInfo)))
      (r' : Roster)
      → Took done req r r'
      → Took done req r (tell_removed desk req rem_uids a r')
  unfolding tell_removed
  tell_removed-Took done rem_uids (call_failed e) r' h = h
  tell_removed-Took done rem_uids (not_ok code msg) r' h = h
  tell_removed-Took done rem_uids (answered uid2info) r' h =
      go (build_remove_info_fmt desk.decimal uid2info (req.uid ∷ req.members))
    where
      told : (String × List UidNickname) → Event
      told hint =
          received
            (cmd_payload desk req.group_no (req.uid ∷ req.members) (group_removed hint.1 hint.0))

      notice : Event
      notice = notified (
          group_notice "GroupRemoveMembers" (req.uid ∷ req.members)
            (removed_uids (generate_group_chat_conv_id req.group_no) req.group_no rem_uids))

      result : Option (String × List UidNickname) → Roster
      result o = elim o [
        | none ↦ r'
        | some hint ↦
            if desk.publishes (told hint)
            then publish desk notice (publish desk (told hint) r')
            else r'
      ]

      go : (o : Option (String × List UidNickname)) → Took done req r (result o)
      go none = h
      go (some hint) = sent (desk.publishes (told hint))
        where
          sent :
              (b : Bool)
              → Took done req r
                  (if b then publish desk notice (publish desk (told hint) r') else r')
          sent true =
              publish-Took done notice (publish desk (told hint) r')
                (publish-Took done (told hint) r' h)
          sent false = h

  removed_in_store-Took :
      (x : List ItemRow × List String)
      → Agrees req.group_no x.0 (on_group_meb_removed r.groups req.group_no x.1)
      → ((u : String)
          → in_table req.group_no u x.0
            ≡ (in_table req.group_no u r.items && not (mem req.members u)))
      → ((u : String) → mem x.1 u ≡ (in_table req.group_no u r.items && mem req.members u))
      → Took true req r (removed_in_store desk req x r).0
  unfolding removed_in_store
  removed_in_store-Took (rows, []) a t m = (
    λ info e u.
        agrees info e u
        ∙ unmoved (in_table req.group_no u r.items) (mem req.members u) (m u)
        ∙ sym (t u),
    t,
  )
  removed_in_store-Took (rows, uid ∷ uids) a t m = go desk.submit
    where
      r' : Roster
      r' = record r {
        items = rows;
        groups = on_group_meb_removed r.groups req.group_no (uid ∷ uids);
      }

      told : Roster
      told = tell_removed desk req (uid ∷ uids) (desk.users_unit_info (req.uid ∷ req.members)) r'

      result : Bool → Roster × Verdict
      result b = if b then (told, accepted) else (r', store_failed)

      go : (b : Bool) → Took true req r (result b).0
      go true =
          tell_removed-Took true (uid ∷ uids) (desk.users_unit_info (req.uid ∷ req.members)) r'
            (a, t)
      go false = (a, t)

  remove_in_tx-Took :
      (role : Option ℕ) → Took (permitted role) req r (remove_in_tx desk req r role).0
  unfolding remove_in_tx
  remove_in_tx-Took none = kept
  remove_in_tx-Took (some role) = go (ltb manager role)
    where
      after : Roster × Verdict
      after = removed_in_store desk req (remove_members req.group_no req.members r.items) r

      result : Bool → Roster × Verdict
      result b = if b then (r, no_permission) else after

      go : (b : Bool) → Took (not b) req r (result b).0
      go true = kept
      go false =
          removed_in_store-Took (remove_members req.group_no req.members r.items)
            (on_group_meb_removed-Agrees req.group_no req.members r.items r.groups agrees)
            (λ u. (remove_members-in_table req.group_no u req.members r.items).0)
            (λ u. (remove_members-in_table req.group_no u req.members r.items).1)

  -- The request to remove members refines the removal from a set: when the operator is an owner
  -- or a manager in the normal state and the transaction commits, the members of the group are
  -- those from before without the ones named, and otherwise they are the same, whatever becomes of
  -- the events. The memory of the group manager, where the group is in it, agrees with the table
  -- afterwards as it did before.
  pub handle_remove_members-Took :
      Took
        (desk.commits && permitted (get_role_in_group req.group_no req.uid r.items))
        req
        r
        (handle_remove_members desk req r).0
  unfolding handle_remove_members
  handle_remove_members-Took = go desk.commits
    where
      role : Option ℕ
      role = get_role_in_group req.group_no req.uid r.items

      result : Bool → Roster × Verdict
      result b = if b then remove_in_tx desk req r role else (r, store_failed)

      go : (b : Bool) → Took (b && permitted role) req r (result b).0
      go true = remove_in_tx-Took role
      go false = kept
