-- ===== src/Roster/Founded.antt =====
-- A group that has been started, in the table and in memory.
use sdim.Roster.Roles.{
  in_table-create_items, in_items-created_mebs, has_role, has_role-create_roles,
}
use sdim.Topic.Groups.{upsert_group_chat_conv, generate_group_chat_conv_id}
use sdim.Roster.Requests.{param_invalid}
use sdim.Handler.Types.{answered, RpcAnswer}
use sdim.Topic.Types.{ConvManager}
use sdim.Roster.Arrivals.{answered_uids, uids_of-map}
use sdim.Roster.Founding.{
  Office, StartGroupChatReq, Hall, found_group, handle_start_group_chat, tell_founded, start_with,
  found_known, alone, founded_rows,
}
use mathlib.Core.Bool.{false≢true}
use sdim.Roster.Requests.{store_failed, accepted, publish, Event, Roster, Verdict}
use sdim.Roster.Inserts.{uids_of, or_false}
use sdim.Roster.Rows.{in_items, in_table, known}
use sdim.Group.Removal.{mem}
use sdim.Group.Types.{grp_meb_normal, GroupInfo}
use sdim.Topic.Load.{UnitInfo}
use sdim.Group.Ops.{created_mebs, on_group_created}
use sdim.Roster.Tables.{create_roles, create_items, ItemRow, has_key}
use sdim.Base.Maps.{lookup, lookup-insert_self}
use sdim.Base.{
  true, false, String, List, Bool, ◌≡◌, ◌||◌, ◌∷◌, ◌&&◌, if◌then◌else◌, [], ◌∙◌, not, ap, refl, ap₂,
  ◌≢◌, sym, ◌==◌, map, some, subst, ltb, length,
}

param_invalid≢accepted : param_invalid ≢ accepted
param_invalid≢accepted e = cc

store_failed≢accepted : store_failed ≢ accepted
store_failed≢accepted e = cc

unknown-in_table :
    (grp_no u : String) (rows : List ItemRow)
    → known grp_no u rows ≡ false
    → in_table grp_no u rows ≡ false
unknown-in_table grp_no u [] e = refl
unknown-in_table grp_no u (row ∷ rows) e =
    let h = no_row (has_key grp_no u row) (known grp_no u rows) (row.state == grp_meb_normal) e in
    ap (λ b. b || in_table grp_no u rows) h.0 ∙ unknown-in_table grp_no u rows h.1
  where
    no_row : (a b c : Bool) → (a || b) ≡ false → ((a && c) ≡ false) × (b ≡ false)
    no_row true b c e = absurd (false≢true (sym e))
    no_row false b c e = (refl, e)

module _ (office : Office) (req : StartGroupChatReq) (uid2info : List (String × UnitInfo))
    (h : Hall) (normal : office.desk.new_state ≡ grp_meb_normal)
    (fresh : (u : String) → known office.grp_no u h.roster.items ≡ false) where
  -- The group has exactly the users of the answer, in the table and in memory.
  abbrev pub Whole : Hall → Type 0
  Whole h' =
      ((u : String) → in_table office.grp_no u h'.roster.items ≡ mem (answered_uids uid2info) u)
      × ((info : GroupInfo) × (lookup office.grp_no h'.roster.groups ≡ some info)
          × (info.owner_uid ≡ req.owner_uid)
          × ((u : String) → in_items u info.meb2item ≡ mem (answered_uids uid2info) u))

  publish-Whole :
      (e : Event) (r : Roster) (cm : ConvManager)
      → Whole (record { roster = r; cm = cm })
      → Whole (record { roster = publish office.desk e r; cm = cm })
  unfolding publish
  publish-Whole e r cm w = go (office.desk.publishes e)
    where
      go :
          (b : Bool)
          → Whole (record { roster = (if b then record r { sent = e ∷ r.sent } else r); cm = cm })
      go true = w
      go false = w

  in_new_table :
      (u : String)
      → in_table office.grp_no u (
          create_items office.desk.new_state office.grp_no req.owner_uid office.desk.mills
            (map (λ kv. kv.1) uid2info)
            h.roster.items)
        ≡ mem (answered_uids uid2info) u
  in_new_table u =
      in_table-create_items office.desk.new_state office.grp_no req.owner_uid u office.desk.mills
        (map (λ kv. kv.1) uid2info) h.roster.items normal
      ∙ ap₂ (λ t w. t || (mem (uids_of (map (λ kv. kv.1) uid2info)) u && not w))
          (unknown-in_table office.grp_no u h.roster.items (fresh u)) (fresh u)
      ∙ ap (λ l. mem l u && true) (uids_of-map uid2info)
      ∙ and_true (mem (answered_uids uid2info) u)
    where
      and_true : (b : Bool) → (b && true) ≡ b
      and_true true = refl
      and_true false = refl

  in_new_memory :
      (u : String)
      → in_items u (
          created_mebs office.desk.mills
            (create_roles req.owner_uid (map (λ kv. kv.1) uid2info) [])
            [])
        ≡ mem (answered_uids uid2info) u
  unfolding lookup
  in_new_memory u =
      in_items-created_mebs u office.desk.mills
        (create_roles req.owner_uid (map (λ kv. kv.1) uid2info) []) []
      ∙ or_false (has_role u (create_roles req.owner_uid (map (λ kv. kv.1) uid2info) []))
      ∙ has_role-create_roles u req.owner_uid (map (λ kv. kv.1) uid2info) []
      ∙ or_false (mem (uids_of (map (λ kv. kv.1) uid2info)) u)
      ∙ ap (λ l. mem l u) (uids_of-map uid2info)

  found_group-Whole :
      (new_mebs : List String) → Whole (found_group office req new_mebs uid2info h).0
  unfolding found_group founded_rows tell_founded on_group_created
  found_group-Whole new_mebs = publish-Whole _ _ cm (
      publish-Whole _ _ cm (
        in_new_table,
        (_, lookup-insert_self office.grp_no _ h.roster.groups, refl, in_new_memory),
      ))
    where
      cm : ConvManager
      cm =
          (upsert_group_chat_conv h.cm (generate_group_chat_conv_id office.grp_no) office.grp_no
            req.avatar req.avatar new_mebs).0

  -- A group chat that is accepted has exactly the users that the user server knows as its members,
  -- in the table and in the memory of the group manager, and the one who started it as its owner in
  -- memory. The user server answers, the default of the state column is the normal state, and no
  -- row of the table has the new number of the group.
  pub handle_start_group_chat-Whole :
      office.desk.users_unit_info (req.owner_uid ∷ office.distinct req.members) ≡ answered uid2info
      → (handle_start_group_chat office req h).1 ≡ accepted
      → Whole (handle_start_group_chat office req h).0
  unfolding handle_start_group_chat start_with found_known
  handle_start_group_chat-Whole known_users = by_members req.members
    where
      mebs : List String
      mebs = office.distinct req.members

      found : RpcAnswer (List (String × UnitInfo)) → Hall × Verdict
      found a = found_known office req (req.owner_uid ∷ mebs) h a

      asked : Bool → Bool → Hall × Verdict
      asked self over =
          if self
          then (h, param_invalid)
          else if over
          then (h, param_invalid)
          else found (office.desk.users_unit_info (req.owner_uid ∷ mebs))

      committed : Bool → Bool → Hall × Verdict
      committed commits caches =
          if not commits
          then (h, store_failed)
          else if caches
          then found_group office req (req.owner_uid ∷ mebs) uid2info h
          else (
            record h { roster = record h.roster { items = founded_rows office req uid2info h } },
            store_failed,
          )

      by_commit :
          (commits caches : Bool)
          → (committed commits caches).1 ≡ accepted
          → Whole (committed commits caches).0
      by_commit true true e = found_group-Whole (req.owner_uid ∷ mebs)
      by_commit true false e = absurd (store_failed≢accepted e)
      by_commit false caches e = absurd (store_failed≢accepted e)

      by_checks : (self over : Bool) → (asked self over).1 ≡ accepted → Whole (asked self over).0
      by_checks true over e = absurd (param_invalid≢accepted e)
      by_checks false true e = absurd (param_invalid≢accepted e)
      by_checks false false e =
          subst (λ a. (found a).1 ≡ accepted → Whole (found a).0) (sym known_users)
            (by_commit office.desk.commits office.caches) e

      result : List String → Hall × Verdict
      result ms = elim ms [
        | [] ↦ (h, param_invalid)
        | _ ∷ _ ↦
            asked (alone req.owner_uid mebs)
              (ltb 0 req.limited_num && ltb req.limited_num (length (req.owner_uid ∷ mebs)))
      ]

      by_members : (ms : List String) → (result ms).1 ≡ accepted → Whole (result ms).0
      by_members [] e = absurd (param_invalid≢accepted e)
      by_members (m ∷ ms) e =
          by_checks (alone req.owner_uid mebs)
            (ltb 0 req.limited_num && ltb req.limited_num (length (req.owner_uid ∷ mebs))) e
