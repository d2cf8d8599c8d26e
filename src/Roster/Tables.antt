-- ===== src/Roster/Tables.antt =====
-- group_repository.go: its statements on the table t_group_item, read as what SQL says of them. A
-- key of the table is a group and a uid. The order of rows is that of insertion.
use sdim.Base.Ints.{ℤ, pos}
use sdim.Group.Types.{GroupItemRow, owner, ordinary_meb, grp_meb_normal, grp_meb_kicked}
use sdim.Topic.Load.{UnitInfo}
use sdim.Base.Maps.{insert}
use sdim.Base.{
  ℕ, String, List, [], ◌∷◌, Option, none, some, Bool, ◌&&◌, str_eq, ◌==◌, if◌then◌else◌, map,
}
use sdim.Group.Removal.{mem}

pub record ItemRow : Type 0 where
  pub group_no : String
  pub uid : String
  pub state : ℕ
  pub role : ℕ
  pub meb_avatar : String
  pub meb_nickname : String
  pub remark : Option String
  pub forbidden_dur : ℕ
  pub forbidden_at : ℤ
  pub cts : ℕ
  pub uts : ℕ

abbrev pub has_key : String → String → ItemRow → Bool
has_key grp_no uid row = str_eq row.group_no grp_no && str_eq row.uid uid

-- INSERT ... ON DUPLICATE KEY UPDATE of the avatar, the nickname and the time.
unfoldable pub insert_or_update : ItemRow → List ItemRow → List ItemRow
insert_or_update row [] = row ∷ []
insert_or_update row (r ∷ rows) =
    let rest = insert_or_update row rows in
    if has_key row.group_no row.uid r
    then record r { meb_avatar = row.meb_avatar; meb_nickname = row.meb_nickname; uts = row.uts }
      ∷ rows
    else r ∷ rest

-- A row that a statement inserts; `new_state` is the default of the column.
unfoldable pub new_row : ℕ → String → ℕ → ℕ → UnitInfo → ItemRow
new_row new_state grp_no role mills info = record {
  group_no = grp_no;
  uid = info.uid;
  state = new_state;
  role = role;
  meb_avatar = info.avatar;
  meb_nickname = info.nickname;
  remark = none;
  forbidden_dur = 0;
  forbidden_at = pos 0;
  cts = mills;
  uts = mills;
}

unfoldable pub role_of : String → UnitInfo → ℕ
role_of owner_uid info = if str_eq info.uid owner_uid then owner else ordinary_meb

-- The loop of CreateGroupChat over the members: the map of roles, and the rows.
unfoldable pub create_roles : String → List UnitInfo → List (String × ℕ) → List (String × ℕ)
unfolding role_of
create_roles owner_uid [] uid2role = uid2role
create_roles owner_uid (info ∷ infos) uid2role =
    create_roles owner_uid infos (insert info.uid (role_of owner_uid info) uid2role)

unfoldable pub create_items : ℕ → String → String → ℕ → List UnitInfo → List ItemRow → List ItemRow
unfolding insert_or_update new_row role_of
create_items new_state grp_no owner_uid cts [] rows = rows
create_items new_state grp_no owner_uid cts (info ∷ infos) rows =
    create_items new_state grp_no owner_uid cts infos
      (insert_or_update (new_row new_state grp_no (role_of owner_uid info) cts info) rows)

-- `group_no = ? and state = ?`
abbrev pub is_normal_in : String → ItemRow → Bool
is_normal_in grp_no row = str_eq row.group_no grp_no && row.state == grp_meb_normal

abbrev pub where_rows : (ItemRow → Bool) → List ItemRow → List ItemRow
where_rows p [] = []
where_rows p (row ∷ rows) = if p row then row ∷ where_rows p rows else where_rows p rows

-- What the group manager reads of a row.
abbrev pub item_row : ItemRow → GroupItemRow
item_row row = record {
  uid = row.uid;
  role = row.role;
  state = row.state;
  forbidden_dur = row.forbidden_dur;
  forbidden_at = row.forbidden_at;
  cts = row.cts;
  uts = row.uts;
}

unfoldable pub find_group_items : String → List ItemRow → List GroupItemRow
find_group_items grp_no rows = map item_row (where_rows (is_normal_in grp_no) rows)

-- Without a condition on the state.
unfoldable pub find_group_meb_uids : String → List ItemRow → List String
find_group_meb_uids grp_no rows =
    map (λ row. row.uid) (where_rows (λ row. str_eq row.group_no grp_no) rows)

-- One statement for all members. Without a member the statement has no values and is refused.
unfoldable pub insert_members : ℕ → String → ℕ → List UnitInfo → List ItemRow → List ItemRow
unfolding insert_or_update new_row
insert_members new_state grp_no mills [] rows = rows
insert_members new_state grp_no mills (info ∷ infos) rows =
    insert_members new_state grp_no mills infos
      (insert_or_update (new_row new_state grp_no ordinary_meb mills info) rows)

unfoldable pub add_members : ℕ → String → ℕ → List UnitInfo → List ItemRow → Option (List ItemRow)
unfolding insert_members
add_members new_state grp_no mills [] rows = none
add_members new_state grp_no mills (info ∷ infos) rows =
    some (insert_members new_state grp_no mills (info ∷ infos) rows)

-- UPDATE ... SET state = kicked WHERE group_no = ? and uid in ?
unfoldable pub set_kicked : String → List String → List ItemRow → List ItemRow
set_kicked grp_no uids [] = []
set_kicked grp_no uids (row ∷ rows) =
    let rest = set_kicked grp_no uids rows in
    if str_eq row.group_no grp_no && mem uids row.uid
    then record row { state = grp_meb_kicked } ∷ rest
    else row ∷ rest

unfoldable pub remove_members : String → List String → List ItemRow → List ItemRow × List String
unfolding set_kicked
remove_members grp_no members rows =
    let exists_uids =
      map (λ row. row.uid)
        (where_rows (λ row. is_normal_in grp_no row && mem members row.uid) rows) in
    elim exists_uids [
      | [] ↦ (rows, [])
      | uid ∷ uids ↦ (set_kicked grp_no (uid ∷ uids) rows, uid ∷ uids)
    ]

-- The role of a member in the normal state; `none` is dbr.ErrNotFound.
unfoldable pub get_role_in_group : String → String → List ItemRow → Option ℕ
get_role_in_group grp_no uid rows =
    elim (where_rows (λ row. has_key grp_no uid row && row.state == grp_meb_normal) rows) [
      | [] ↦ none
      | row ∷ _ ↦ some row.role
    ]
