-- ===== src/Roster/Readmitted.antt =====
-- A member who was taken out of a group and is added again.
use sdim.Base.Maps.{lookup, insert, lookup-insert_self}
use sdim.Group.Ops.{on_group_meb_added, init_group_info_lazy, enrol}
use sdim.Roster.Tables.{ItemRow, insert_members}
use sdim.Group.Removal.{mem}
use sdim.Group.Types.{grp_meb_normal, Groups, GroupRepository, GroupInfo}
use sdim.Roster.Rows.{in_table, known, in_items}
use sdim.Roster.Inserts.{uids_of, in_table-insert_members}
use sdim.Roster.Agree.{of_some, in_items-enrol}
use sdim.Topic.Load.{UnitInfo}
use sdim.Base.{
  true, false, List, String, ◌≡◌, ◌||◌, ◌&&◌, not, ap, refl, sym, ℕ, Option, some, ◌∙◌, ap₂,
}

init-some :
    (gr : GroupRepository) (gs : Groups) (grp_no : String) (info : GroupInfo)
    → lookup grp_no gs ≡ some info
    → init_group_info_lazy gr gs grp_no ≡ (gs, some info)
unfolding init_group_info_lazy
init-some gr gs grp_no info e = rw (e, init_group_info_lazy) refl

on_group_meb_added-some :
    (gr : GroupRepository) (gs : Groups) (grp_no : String) (uids : List String) (mills : ℕ)
    (info : GroupInfo)
    → lookup grp_no gs ≡ some info
    → (on_group_meb_added gr gs grp_no uids mills).0
      ≡ insert grp_no (record info { meb2item = enrol mills uids info.meb2item }) gs
unfolding on_group_meb_added
on_group_meb_added-some gr gs grp_no uids mills info e =
    rw (init-some gr gs grp_no info e, on_group_meb_added)
      (rw (init-some gr gs grp_no info e) (
        rw (e) (
          ap
            (λ (x : Groups × Option GroupInfo).
              insert grp_no (record info { meb2item = enrol mills uids info.meb2item }) x.0)
            (init-some gr gs grp_no info e))))

-- The bug: whoever was taken out of a group and is added again has a row that keeps the kicked
-- state, so the table does not count him among the members, while the memory does. The group is in
-- memory when the request comes, its table has a row of his that is not in the normal state, and
-- he is among those that are added.
pub readmitted_only_in_memory :
    (gr : GroupRepository) (gs : Groups) (new_state : ℕ) (grp_no u : String) (mills : ℕ)
    (infos : List UnitInfo) (rows : List ItemRow) (info : GroupInfo)
    → new_state ≡ grp_meb_normal
    → lookup grp_no gs ≡ some info
    → mem (uids_of infos) u ≡ true
    → known grp_no u rows ≡ true
    → in_table grp_no u rows ≡ false
    → (in_table grp_no u (insert_members new_state grp_no mills infos rows) ≡ false)
      × ((after : GroupInfo)
          → lookup grp_no (on_group_meb_added gr gs grp_no (uids_of infos) mills).0 ≡ some after
          → in_items u after.meb2item ≡ true)
readmitted_only_in_memory gr gs new_state grp_no u mills infos rows info n e m k t = (
  in_table-insert_members new_state grp_no u mills infos rows n
      ∙ ap₂ (λ a b. a || b) t (ap₂ (λ a b. a && not b) m k),
  λ after q.
      ap (in_items u) (
        ap (λ i. i.meb2item)
          (sym (
            of_some (
              sym (
                lookup-insert_self grp_no
                  (record info { meb2item = enrol mills (uids_of infos) info.meb2item }) gs)
              ∙ ap (lookup grp_no)
                  (sym (on_group_meb_added-some gr gs grp_no (uids_of infos) mills info e))
              ∙ q))))
      ∙ in_items-enrol u mills (uids_of infos) info.meb2item
      ∙ ap (λ b. b || in_items u info.meb2item) m,
)
