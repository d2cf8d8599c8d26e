-- ===== src/Roster/Inserts.antt =====
-- Who is a member after members are inserted, in the table and in memory.
use sdim.Base.Maps.{insert, lookup-insert, lookup}
use sdim.Group.Removal.{mem}
use sdim.Group.Ops.{load_items, item_of}
use sdim.Roster.Rows.{normal_row, in_table, known, if_apply, in_items, normal_item}
use sdim.Group.Types.{grp_meb_normal, GroupMebItem, ordinary_meb, owner}
use sdim.Topic.Load.{UnitInfo}
use sdim.Roster.Tables.{
  ItemRow, has_key, insert_or_update, insert_members, new_row, item_row, where_rows, is_normal_in,
}
use sdim.Base.{
  true, false, Bool, String, List, ◌||◌, ◌≡◌, str_eq, ◌&&◌, map, if◌then◌else◌, refl, not, sym, ap,
  eq_iff, ◌∙◌, ◌∷◌, [], ℕ, ap₂, ◌==◌, some,
}

pub or_false : (b : Bool) → (b || false) ≡ b
or_false true = refl
or_false false = refl

or_assoc : (a b c : Bool) → (a || (b || c)) ≡ ((a || b) || c)
or_assoc true b c = refl
or_assoc false b c = refl

table_bits :
    (k n t e ku w : Bool)
    → (e ≡ true → ku ≡ k)
    → (if k then n || t else n || (t || (e && not w))) ≡ ((n || t) || (e && not (ku || w)))
table_bits true n t false ku w h = sym (or_false (n || t))
table_bits false n t false ku w h = or_assoc n t false
table_bits true n t true ku w h = rw (h refl) (sym (or_false (n || t)))
table_bits false n t true ku w h = rw (h refl) (or_assoc n t (not w))

known_bits :
    (k ku w e : Bool)
    → (e ≡ true → ku ≡ k)
    → (if k then ku || w else ku || (w || e)) ≡ ((ku || w) || e)
known_bits true ku w false h = sym (or_false (ku || w))
known_bits false ku w e h = or_assoc ku w e
known_bits true ku w true h = rw (h refl) refl

has_key-same :
    (grp_no u v : String) (r : ItemRow)
    → str_eq v u ≡ true
    → has_key grp_no u r ≡ has_key grp_no v r
has_key-same grp_no u v r e = ap (λ x. has_key grp_no x r) (sym ((eq_iff v u).0 e))

module _ (new : ItemRow) (u : String) (normal : new.state ≡ grp_meb_normal) where
  normal-new : normal_row new.group_no u new ≡ str_eq new.uid u
  normal-new = rw ((eq_iff new.group_no new.group_no).1 refl, normal) (and_true (str_eq new.uid u))
    where
      and_true : (b : Bool) → (b && true) ≡ b
      and_true true = refl
      and_true false = refl

  pub in_table-insert_or_update :
      (rows : List ItemRow)
      → in_table new.group_no u (insert_or_update new rows)
        ≡ (in_table new.group_no u rows || (str_eq new.uid u && not (known new.group_no u rows)))
  unfolding insert_or_update
  in_table-insert_or_update [] = ap (λ b. b || false) normal-new ∙ last (str_eq new.uid u)
    where
      last : (b : Bool) → (b || false) ≡ (b && true)
      last true = refl
      last false = refl
  in_table-insert_or_update (r ∷ rows) =
      if_apply (in_table new.group_no u) (has_key new.group_no new.uid r)
        (record r { meb_avatar = new.meb_avatar; meb_nickname = new.meb_nickname; uts = new.uts }
          ∷ rows)
        (r ∷ insert_or_update new rows)
      ∙ ap
          (λ t.
            if has_key new.group_no new.uid r
            then normal_row new.group_no u r || in_table new.group_no u rows
            else normal_row new.group_no u r || t)
          (in_table-insert_or_update rows)
      ∙ table_bits (has_key new.group_no new.uid r) (normal_row new.group_no u r)
          (in_table new.group_no u rows) (str_eq new.uid u) (has_key new.group_no u r)
          (known new.group_no u rows) (has_key-same new.group_no u new.uid r)

  pub known-insert_or_update :
      (rows : List ItemRow)
      → known new.group_no u (insert_or_update new rows)
        ≡ (known new.group_no u rows || str_eq new.uid u)
  unfolding insert_or_update
  known-insert_or_update [] =
      rw ((eq_iff new.group_no new.group_no).1 refl) (or_false (str_eq new.uid u))
  known-insert_or_update (r ∷ rows) =
      if_apply (known new.group_no u) (has_key new.group_no new.uid r)
        (record r { meb_avatar = new.meb_avatar; meb_nickname = new.meb_nickname; uts = new.uts }
          ∷ rows)
        (r ∷ insert_or_update new rows)
      ∙ ap
          (λ t.
            if has_key new.group_no new.uid r
            then has_key new.group_no u r || known new.group_no u rows
            else has_key new.group_no u r || t)
          (known-insert_or_update rows)
      ∙ known_bits (has_key new.group_no new.uid r) (has_key new.group_no u r)
          (known new.group_no u rows) (str_eq new.uid u) (has_key-same new.group_no u new.uid r)

pub members_bits :
    (t e w m : Bool) → ((t || (e && not w)) || (m && not (w || e))) ≡ (t || ((e || m) && not w))
members_bits true e w m = refl
members_bits false true true true = refl
members_bits false true true false = refl
members_bits false true false true = refl
members_bits false true false false = refl
members_bits false false true true = refl
members_bits false false true false = refl
members_bits false false false true = refl
members_bits false false false false = refl

abbrev pub uids_of : List UnitInfo → List String
uids_of infos = map (λ i. i.uid) infos

pub nobody : (t w : Bool) → t ≡ (t || (false && not w))
nobody true w = refl
nobody false w = refl

-- AddMembers makes members of those of whom the group has no row; a row that is there keeps its
-- state.
pub in_table-insert_members :
    (new_state : ℕ) (grp_no u : String) (mills : ℕ) (infos : List UnitInfo) (rows : List ItemRow)
    → new_state ≡ grp_meb_normal
    → in_table grp_no u (insert_members new_state grp_no mills infos rows)
      ≡ (in_table grp_no u rows || (mem (uids_of infos) u && not (known grp_no u rows)))
unfolding insert_members new_row
in_table-insert_members new_state grp_no u mills [] rows n =
    nobody (in_table grp_no u rows) (known grp_no u rows)
in_table-insert_members new_state grp_no u mills (info ∷ infos) rows n =
    in_table-insert_members new_state grp_no u mills infos (insert_or_update new rows) n
    ∙ ap₂ (λ t w. t || (mem (uids_of infos) u && not w)) (in_table-insert_or_update new u n rows)
        (known-insert_or_update new u n rows)
    ∙ members_bits (in_table grp_no u rows) (str_eq info.uid u) (known grp_no u rows)
        (mem (uids_of infos) u)
  where
    new : ItemRow
    new = new_row new_state grp_no ordinary_meb mills info

load_bits :
    (g s e i t : Bool)
    → (if g && s then (if e then s else i) || t else i || t) ≡ (i || (((g && e) && s) || t))
load_bits false s e i t = refl
load_bits true false true i t = refl
load_bits true false false i t = refl
load_bits true true false i t = refl
load_bits true true true true t = refl
load_bits true true true false t = refl

pub in_items-insert :
    (u key : String) (item : GroupMebItem) (items : List (String × GroupMebItem))
    → in_items u (insert key item items)
      ≡ (if str_eq key u then item.state == grp_meb_normal else in_items u items)
in_items-insert u key item items =
    ap normal_item (lookup-insert key u item items)
    ∙ if_apply normal_item (str_eq key u) (some item) (lookup u items)

-- The group manager reads the members of a group that is not in memory from the table.
pub in_items-load_items :
    (grp_no u owner_uid : String) (rows : List ItemRow) (items : List (String × GroupMebItem))
    → in_items u
        (load_items (map item_row (where_rows (is_normal_in grp_no) rows)) owner_uid items).1
      ≡ (in_items u items || in_table grp_no u rows)
unfolding load_items
in_items-load_items grp_no u owner_uid [] items = sym (or_false (in_items u items))
in_items-load_items grp_no u owner_uid (row ∷ rows) items =
    if_apply (λ rs. in_items u (load_items (map item_row rs) owner_uid items).1)
      (is_normal_in grp_no row) (row ∷ where_rows (is_normal_in grp_no) rows)
      (where_rows (is_normal_in grp_no) rows)
    ∙ ap₂ (λ x y. if is_normal_in grp_no row then x else y)
        (in_items-load_items grp_no u
            (if row.role == owner && str_eq owner_uid "" then row.uid else owner_uid) rows
            (insert row.uid (item_of (item_row row)) items)
          ∙ ap (λ b. b || in_table grp_no u rows)
              (in_items-insert u row.uid (item_of (item_row row)) items))
        (in_items-load_items grp_no u owner_uid rows items)
    ∙ load_bits (str_eq row.group_no grp_no) (row.state == grp_meb_normal) (str_eq row.uid u)
        (in_items u items) (in_table grp_no u rows)
