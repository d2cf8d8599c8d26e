-- ===== src/Roster/Roles.antt =====
-- The members of a group that has been started, by the map of roles and by the rows.
use sdim.Base.Ints.{pos}
use sdim.Roster.Inserts.{
  uids_of, in_items-insert, nobody, in_table-insert_or_update, known-insert_or_update, members_bits,
}
use sdim.Roster.Rows.{in_items, in_table, if_apply, known}
use sdim.Group.Removal.{mem}
use sdim.Group.Types.{GroupMebItem, grp_meb_normal}
use sdim.Topic.Load.{UnitInfo}
use sdim.Group.Ops.{created_mebs}
use sdim.Roster.Tables.{create_roles, create_items, new_row, ItemRow, role_of, insert_or_update}
use sdim.Base.Maps.{insert}
use sdim.Base.{
  true, false, String, List, ℕ, Bool, ◌≡◌, str_eq, ◌||◌, ◌∷◌, ◌&&◌, if◌then◌else◌, [], ◌∙◌, not, ap,
  eq_iff, refl, ap₂,
}

-- A map of roles has the user.
abbrev pub has_role : String → List (String × ℕ) → Bool
has_role u [] = false
has_role u ((k, role) ∷ rest) = str_eq k u || has_role u rest

has_role-insert :
    (u k : String) (role : ℕ) (m : List (String × ℕ))
    → has_role u (insert k role m) ≡ (str_eq k u || has_role u m)
unfolding insert
has_role-insert u k role [] = refl
has_role-insert u k role ((j, old) ∷ rest) =
    if_apply (has_role u) (str_eq j k) ((k, role) ∷ rest) ((j, old) ∷ insert k role rest)
    ∙ ap (λ t. if str_eq j k then str_eq k u || has_role u rest else str_eq j u || t)
        (has_role-insert u k role rest)
    ∙ bits (str_eq j k) (str_eq k u) (str_eq j u) (has_role u rest)
        (λ e. ap (λ x. str_eq x u) ((eq_iff j k).0 e))
  where
    bits :
        (jk ku ju r : Bool)
        → (jk ≡ true → ju ≡ ku)
        → (if jk then ku || r else ju || (ku || r)) ≡ (ku || (ju || r))
    bits true true ju r h = refl
    bits true false ju r h = rw (h refl) refl
    bits false true true r h = refl
    bits false true false r h = refl
    bits false false ju r h = refl

pub has_role-create_roles :
    (u owner_uid : String) (infos : List UnitInfo) (m : List (String × ℕ))
    → has_role u (create_roles owner_uid infos m) ≡ (mem (uids_of infos) u || has_role u m)
unfolding create_roles
has_role-create_roles u owner_uid [] m = refl
has_role-create_roles u owner_uid (info ∷ infos) m =
    has_role-create_roles u owner_uid infos (insert info.uid (role_of owner_uid info) m)
    ∙ ap (λ b. mem (uids_of infos) u || b) (has_role-insert u info.uid (role_of owner_uid info) m)
    ∙ swap (mem (uids_of infos) u) (str_eq info.uid u) (has_role u m)
  where
    swap : (a b c : Bool) → (a || (b || c)) ≡ ((b || a) || c)
    swap true true c = refl
    swap true false c = refl
    swap false true c = refl
    swap false false c = refl

pub in_items-created_mebs :
    (u : String) (mills : ℕ) (roles : List (String × ℕ)) (items : List (String × GroupMebItem))
    → in_items u (created_mebs mills roles items) ≡ (has_role u roles || in_items u items)
unfolding created_mebs
in_items-created_mebs u mills [] items = refl
in_items-created_mebs u mills ((uid, role) ∷ roles) items =
    in_items-created_mebs u mills roles (insert uid item items)
    ∙ ap (λ b. has_role u roles || b) (in_items-insert u uid item items)
    ∙ bits (str_eq uid u) (has_role u roles) (in_items u items)
  where
    item : GroupMebItem
    item = record {
      role = role;
      state = grp_meb_normal;
      forbidden_sec = 0;
      forbidden_at = pos 0;
      cts = mills;
      uts = mills;
    }

    bits : (e r i : Bool) → (r || (if e then true else i)) ≡ ((e || r) || i)
    bits true true i = refl
    bits true false i = refl
    bits false r i = refl

-- CreateGroupChat makes members of those of whom the group has no row.
pub in_table-create_items :
    (new_state : ℕ) (grp_no owner_uid u : String) (cts : ℕ) (infos : List UnitInfo)
    (rows : List ItemRow)
    → new_state ≡ grp_meb_normal
    → in_table grp_no u (create_items new_state grp_no owner_uid cts infos rows)
      ≡ (in_table grp_no u rows || (mem (uids_of infos) u && not (known grp_no u rows)))
unfolding create_items new_row
in_table-create_items new_state grp_no owner_uid u cts [] rows n =
    nobody (in_table grp_no u rows) (known grp_no u rows)
in_table-create_items new_state grp_no owner_uid u cts (info ∷ infos) rows n =
    in_table-create_items new_state grp_no owner_uid u cts infos (insert_or_update new rows) n
    ∙ ap₂ (λ t w. t || (mem (uids_of infos) u && not w)) (in_table-insert_or_update new u n rows)
        (known-insert_or_update new u n rows)
    ∙ members_bits (in_table grp_no u rows) (str_eq info.uid u) (known grp_no u rows)
        (mem (uids_of infos) u)
  where
    new : ItemRow
    new = new_row new_state grp_no (role_of owner_uid info) cts info
