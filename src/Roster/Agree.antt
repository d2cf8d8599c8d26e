-- ===== src/Roster/Agree.antt =====
-- The memory of the group manager and the table agree on who is a member.
use sdim.Roster.Inserts.{in_items-load_items}
use mathlib.Core.Option.{Mem, none-ne-some, some-injective}
use sdim.Group.Removal.{mem, kicked, lookup-enrol, lookup-kick, fresh_item}
use sdim.Base.Maps.{lookup, insert, lookup-insert_self}
use sdim.Roster.Rows.{in_items, in_table, normal_item, if_apply, remove_members-in_table}
use sdim.Group.Types.{
  GroupMebItem, Groups, GroupInfo, grp_meb_normal, GroupRepository, GroupItemRow, GroupRow,
}
use sdim.Roster.Tables.{ItemRow, remove_members, find_group_items}
use sdim.Group.Ops.{
  on_group_meb_removed, kick, enrol, init_group_info_lazy, on_group_meb_added, loaded_group,
}
use sdim.Base.{
  true, false, String, Bool, List, ℕ, ◌&&◌, not, ◌≡◌, refl, Option, some, ◌||◌, if◌then◌else◌, none,
  ap, subst, sym, ◌==◌, ◌∙◌, ap₂, length, [],
}
use mathlib.Core.Option

-- When the group is in memory, the memory and the table have the same members in the normal state.
abbrev pub Agrees : String → List ItemRow → Groups → Type 0
Agrees grp_no rows gs =
    (info : GroupInfo)
    → lookup grp_no gs ≡ some info
    → (u : String) → in_items u info.meb2item ≡ in_table grp_no u rows

in_items-kick :
    (u : String) (uids : List String) (items : List (String × GroupMebItem))
    → in_items u (kick uids items) ≡ (in_items u items && not (mem uids u))
in_items-kick u uids items =
    ap normal_item (lookup-kick uids u items)
    ∙ if_apply normal_item (mem uids u) (Option.map kicked (lookup u items)) (lookup u items)
    ∙ bits (mem uids u) (lookup u items)
  where
    bits :
        (m : Bool) (o : Option GroupMebItem)
        → (if m then normal_item (Option.map kicked o) else normal_item o)
          ≡ (normal_item o && not m)
    bits true none = refl
    bits true (some item) = never (item.state == grp_meb_normal)
      where
        never : (b : Bool) → false ≡ (b && false)
        never true = refl
        never false = refl
    bits false none = refl
    bits false (some item) = keep (item.state == grp_meb_normal)
      where
        keep : (b : Bool) → b ≡ (b && true)
        keep true = refl
        keep false = refl

pub in_items-enrol :
    (u : String) (mills : ℕ) (uids : List String) (items : List (String × GroupMebItem))
    → in_items u (enrol mills uids items) ≡ (mem uids u || in_items u items)
in_items-enrol u mills uids items =
    ap normal_item (lookup-enrol mills uids u items)
    ∙ if_apply normal_item (mem uids u) (some (fresh_item mills)) (lookup u items)
    ∙ bits (mem uids u)
  where
    bits : (m : Bool) → (if m then true else in_items u items) ≡ (m || in_items u items)
    bits true = refl
    bits false = refl

pub of_some : {x y : GroupInfo} → some x ≡ some y → x ≡ y
of_some {x} e = ap (λ o. elim o [ none ↦ x | some z ↦ z ]) e

Agrees-insert :
    (grp_no : String) (rows : List ItemRow) (gs : Groups) (info : GroupInfo)
    → ((u : String) → in_items u info.meb2item ≡ in_table grp_no u rows)
    → Agrees grp_no rows (insert grp_no info gs)
Agrees-insert grp_no rows gs info h found e u =
    subst (λ i. in_items u i.meb2item ≡ in_table grp_no u rows)
      (of_some (sym (lookup-insert_self grp_no info gs) ∙ e)) (h u)

minus_found : (t m : Bool) → (t && not (t && m)) ≡ (t && not m)
minus_found true m = refl
minus_found false m = refl

pub on_group_meb_removed-Agrees :
    (grp_no : String) (members : List String) (rows : List ItemRow) (gs : Groups)
    → Agrees grp_no rows gs
    → Agrees grp_no
        (remove_members grp_no members rows).0
        (on_group_meb_removed gs grp_no (remove_members grp_no members rows).1)
unfolding on_group_meb_removed
on_group_meb_removed-Agrees grp_no members rows gs h = go (lookup grp_no gs) refl
  where
    go :
        (o : Option GroupInfo)
        → lookup grp_no gs ≡ o
        → Agrees grp_no (remove_members grp_no members rows).0 (elim o [
          | none ↦ gs
          | some info ↦
              insert grp_no
                (record info {
                  meb2item = kick (remove_members grp_no members rows).1 info.meb2item;
                })
                gs
        ])
    go none e = λ info q u. absurd (none-ne-some info (sym e ∙ q))
    go (some info) e =
        Agrees-insert grp_no (remove_members grp_no members rows).0 gs
          (record info { meb2item = kick (remove_members grp_no members rows).1 info.meb2item })
          (λ u.
            in_items-kick u (remove_members grp_no members rows).1 info.meb2item
            ∙ ap₂ (λ i m. i && not m) (h info e u) (remove_members-in_table grp_no u members rows).1
            ∙ minus_found (in_table grp_no u rows) (mem members u)
            ∙ sym (remove_members-in_table grp_no u members rows).0)

or_comm : (m t : Bool) → (m || t) ≡ (t || m)
or_comm true true = refl
or_comm true false = refl
or_comm false true = refl
or_comm false false = refl

or_again : (m t : Bool) → (m || (t || m)) ≡ (t || m)
or_again true true = refl
or_again true false = refl
or_again false true = refl
or_again false false = refl

-- A group that is loaded from the table has its members.
loaded_group-in_items :
    (grp_no u : String) (row : GroupRow) (rows : List ItemRow)
    → in_items u (loaded_group grp_no row (find_group_items grp_no rows)).meb2item
      ≡ in_table grp_no u rows
unfolding loaded_group find_group_items lookup
loaded_group-in_items grp_no u row rows = in_items-load_items grp_no u "" rows []

module _ (grp_no : String) (uids : List String) (mills : ℕ) (rows rows' : List ItemRow)
    (gr : GroupRepository)
    (grown : (u : String) → in_table grp_no u rows' ≡ (in_table grp_no u rows || mem uids u))
    (reads : (found : List GroupItemRow)
      → gr.find_group_items grp_no ≡ some found
      → found ≡ find_group_items grp_no rows') where
  -- A group to which the members can be added.
  abbrev Ready : Groups → Type 0
  Ready gs =
      (info : GroupInfo)
      → lookup grp_no gs ≡ some info
      → (u : String) → (mem uids u || in_items u info.meb2item) ≡ in_table grp_no u rows'

  enrolled : Groups × Option GroupInfo → Groups × Option ℕ
  enrolled r = elim r.1 [
    | none ↦ (r.0, none)
    | some _ ↦ elim (lookup grp_no r.0) [
      | none ↦ (r.0, some 0)
      | some info ↦
          let items = enrol mills uids info.meb2item in
          (insert grp_no (record info { meb2item = items }) r.0, some (length items))
    ]
  ]

  enrolled-Agrees :
      (gs : Groups) (o : Option GroupInfo)
      → Ready gs
      → (o ≡ none → Agrees grp_no rows' gs)
      → Agrees grp_no rows' (enrolled (gs, o)).0
  unfolding enrolled
  enrolled-Agrees gs none ready a = a refl
  enrolled-Agrees gs (some known_info) ready a = go (lookup grp_no gs) refl
    where
      go :
          (l : Option GroupInfo)
          → lookup grp_no gs ≡ l
          → Agrees grp_no rows'
              (elim l as (λ _. Groups × Option ℕ) [
                | none ↦ (gs, some 0)
                | some info ↦
                    let items = enrol mills uids info.meb2item in
                    (insert grp_no (record info { meb2item = items }) gs, some (length items))
              ]).0
      go none e = λ info q u. absurd (none-ne-some info (sym e ∙ q))
      go (some info) e =
          Agrees-insert grp_no rows' gs (record info { meb2item = enrol mills uids info.meb2item })
            (λ u. in_items-enrol u mills uids info.meb2item ∙ ready info e u)

  loaded_ready :
      (row : GroupRow) (found : List GroupItemRow)
      → found ≡ find_group_items grp_no rows'
      → (u : String)
      → (mem uids u || in_items u (loaded_group grp_no row found).meb2item)
        ≡ in_table grp_no u rows'
  loaded_ready row found e u =
      ap (λ f. mem uids u || in_items u (loaded_group grp_no row f).meb2item) e
      ∙ ap (λ b. mem uids u || b) (loaded_group-in_items grp_no u row rows')
      ∙ ap (λ b. mem uids u || b) (grown u)
      ∙ or_again (mem uids u) (in_table grp_no u rows)
      ∙ sym (grown u)

  pub on_group_meb_added-Agrees :
      (gs : Groups)
      → Agrees grp_no rows gs
      → Agrees grp_no rows' (on_group_meb_added gr gs grp_no uids mills).0
  unfolding on_group_meb_added init_group_info_lazy enrolled
  on_group_meb_added-Agrees gs a = in_memory (lookup grp_no gs) refl
    where
      missing : lookup grp_no gs ≡ none → Agrees grp_no rows' gs
      missing e = λ info q u. absurd (none-ne-some info (sym e ∙ q))

      loaded : GroupRow → List GroupItemRow → Groups × Option GroupInfo
      loaded row found =
          let info = loaded_group grp_no row found in (insert grp_no info gs, some info)

      read :
          (row : GroupRow) (f : Option (List GroupItemRow))
          → lookup grp_no gs ≡ none
          → gr.find_group_items grp_no ≡ f
          → Agrees grp_no rows'
              (enrolled (elim f as (λ _. Groups × Option GroupInfo) [
                | none ↦ (gs, none)
                | some found ↦ loaded row found
              ])).0
      read row none e q = missing e
      read row (some found) e q =
          enrolled-Agrees (insert grp_no (loaded_group grp_no row found) gs)
            (some (loaded_group grp_no row found))
            (λ i p u.
              subst (λ i. (mem uids u || in_items u i.meb2item) ≡ in_table grp_no u rows')
                (of_some (sym (lookup-insert_self grp_no (loaded_group grp_no row found) gs) ∙ p))
                (loaded_ready row found (reads found q) u))
            (λ p. absurd (none-ne-some (loaded_group grp_no row found) (sym p)))

      from_table :
          (i : Option GroupRow)
          → lookup grp_no gs ≡ none
          → Agrees grp_no rows'
              (enrolled (elim i as (λ _. Groups × Option GroupInfo) [
                | none ↦ (gs, none)
                | some row ↦ elim (gr.find_group_items grp_no) as (λ _. Groups × Option GroupInfo) [
                  | none ↦ (gs, none)
                  | some found ↦ loaded row found
                ]
              ])).0
      from_table none e = missing e
      from_table (some row) e = read row (gr.find_group_items grp_no) e refl

      in_memory :
          (l : Option GroupInfo)
          → lookup grp_no gs ≡ l
          → Agrees grp_no rows'
              (enrolled (elim l as (λ _. Groups × Option GroupInfo) [
                | some info ↦ (gs, some info)
                | none ↦ elim (gr.find_group_info grp_no) as (λ _. Groups × Option GroupInfo) [
                  | none ↦ (gs, none)
                  | some row ↦
                      elim (gr.find_group_items grp_no) as (λ _. Groups × Option GroupInfo) [
                        | none ↦ (gs, none)
                        | some found ↦ loaded row found
                      ]
                ]
              ])).0
      in_memory none e = from_table (gr.find_group_info grp_no) e
      in_memory (some info) e =
          enrolled-Agrees gs (some info)
            (λ i q u.
              ap (λ b. mem uids u || b) (a i q u)
              ∙ or_comm (mem uids u) (in_table grp_no u rows)
              ∙ sym (grown u))
            (λ q. absurd (none-ne-some info (sym q)))
