-- ===== src/Roster/Rows.antt =====
-- Who is a member, by the table and by the memory, and what the statements and the operations of
-- the group manager do to that.
use sdim.Group.Removal.{mem}
use sdim.Base.Maps.{lookup}
use sdim.Group.Types.{GroupMebItem, grp_meb_normal, grp_meb_kicked}
use sdim.Roster.Tables.{ItemRow, has_key, set_kicked, where_rows, is_normal_in, remove_members}
use sdim.Base.{
  true, false, String, Option, Bool, List, ◌&&◌, ◌∷◌, not, some, if◌then◌else◌, ◌==◌, ◌||◌, str_eq,
  ◌≡◌, [], none, refl, ◌∙◌, map, ap, sym, eq_iff, ap₂,
}

abbrev pub normal_row : String → String → ItemRow → Bool
normal_row grp_no u row = has_key grp_no u row && row.state == grp_meb_normal

-- A row of the table says that the user is in the group, in the normal state.
abbrev pub in_table : String → String → List ItemRow → Bool
in_table grp_no u [] = false
in_table grp_no u (row ∷ rows) = normal_row grp_no u row || in_table grp_no u rows

-- The table has a row for the user in the group, whatever its state.
abbrev pub known : String → String → List ItemRow → Bool
known grp_no u [] = false
known grp_no u (row ∷ rows) = has_key grp_no u row || known grp_no u rows

abbrev pub normal_item : Option GroupMebItem → Bool
normal_item none = false
normal_item (some item) = item.state == grp_meb_normal

-- The memory says so.
abbrev pub in_items : String → List (String × GroupMebItem) → Bool
in_items u items = normal_item (lookup u items)

-- Truth tables.
and_not : (a b m : Bool) → ((a && not m) || (b && not m)) ≡ ((a || b) && not m)
and_not true true true = refl
and_not true true false = refl
and_not true false true = refl
and_not true false false = refl
and_not false b m = refl

kick_bits :
    (g m e s mu : Bool)
    → (e ≡ true → m ≡ mu)
    → (if g && m then (g && e) && false else (g && e) && s) ≡ (((g && e) && s) && not mu)
kick_bits false m e s mu h = refl
kick_bits true true false s mu h = refl
kick_bits true false false s mu h = refl
kick_bits true m true s mu h = rw (h refl) (go mu s)
  where
    go : (mu s : Bool) → (if mu then false else s) ≡ (s && not mu)
    go true true = refl
    go true false = refl
    go false true = refl
    go false false = refl

pub if_apply :
    {A B : Type 0} (f : A → B) (b : Bool) (x y : A)
    → f (if b then x else y) ≡ (if b then f x else f y)
if_apply f true x y = refl
if_apply f false x y = refl

kick_row :
    (grp_no u : String) (uids : List String) (row : ItemRow)
    → normal_row grp_no u (
        if str_eq row.group_no grp_no && mem uids row.uid
        then record row { state = grp_meb_kicked }
        else row)
      ≡ (normal_row grp_no u row && not (mem uids u))
kick_row grp_no u uids row =
    if_apply (normal_row grp_no u) (str_eq row.group_no grp_no && mem uids row.uid)
      (record row { state = grp_meb_kicked }) row
    ∙ kick_bits (str_eq row.group_no grp_no) (mem uids row.uid) (str_eq row.uid u)
        (row.state == grp_meb_normal) (mem uids u) (λ e. ap (mem uids) ((eq_iff row.uid u).0 e))

in_table-set_kicked :
    (grp_no u : String) (uids : List String) (rows : List ItemRow)
    → in_table grp_no u (set_kicked grp_no uids rows) ≡ (in_table grp_no u rows && not (mem uids u))
unfolding set_kicked
in_table-set_kicked grp_no u uids [] = refl
in_table-set_kicked grp_no u uids (row ∷ rows) =
    if_apply (in_table grp_no u) (str_eq row.group_no grp_no && mem uids row.uid)
      (record row { state = grp_meb_kicked } ∷ set_kicked grp_no uids rows)
      (row ∷ set_kicked grp_no uids rows)
    ∙ sym (
        if_apply (λ r. normal_row grp_no u r || in_table grp_no u (set_kicked grp_no uids rows))
          (str_eq row.group_no grp_no && mem uids row.uid) (record row { state = grp_meb_kicked })
          row)
    ∙ ap₂ (◌||◌) (kick_row grp_no u uids row) (in_table-set_kicked grp_no u uids rows)
    ∙ and_not (normal_row grp_no u row) (in_table grp_no u rows) (mem uids u)

-- The uids that RemoveMembers finds.
abbrev pub found_uids : String → List String → List ItemRow → List String
found_uids grp_no members rows =
    map (λ row. row.uid) (where_rows (λ row. is_normal_in grp_no row && mem members row.uid) rows)

found_bits :
    (g s m e r mu : Bool)
    → (e ≡ true → m ≡ mu)
    → (if (g && s) && m then e || (r && mu) else r && mu) ≡ ((((g && e) && s) || r) && mu)
found_bits false s m e r mu h = refl
found_bits true false m e r mu h = go e
  where
    go : (e : Bool) → (r && mu) ≡ (((e && false) || r) && mu)
    go true = refl
    go false = refl
found_bits true true true false r mu h = refl
found_bits true true false false r mu h = refl
found_bits true true m true r mu h = rw (h refl) (go mu r)
  where
    go : (mu r : Bool) → (if mu then true else r && mu) ≡ mu
    go true r = refl
    go false true = refl
    go false false = refl

mem-found_uids :
    (grp_no u : String) (members : List String) (rows : List ItemRow)
    → mem (found_uids grp_no members rows) u ≡ (in_table grp_no u rows && mem members u)
mem-found_uids grp_no u members [] = refl
mem-found_uids grp_no u members (row ∷ rows) =
    if_apply (λ rs. mem (map (λ r. r.uid) rs) u) (is_normal_in grp_no row && mem members row.uid)
      (row ∷ where_rows (λ r. is_normal_in grp_no r && mem members r.uid) rows)
      (where_rows (λ r. is_normal_in grp_no r && mem members r.uid) rows)
    ∙ ap
        (λ rest.
          if is_normal_in grp_no row && mem members row.uid then str_eq row.uid u || rest else rest)
        (mem-found_uids grp_no u members rows)
    ∙ found_bits (str_eq row.group_no grp_no) (row.state == grp_meb_normal) (mem members row.uid)
        (str_eq row.uid u) (in_table grp_no u rows) (mem members u)
        (λ e. ap (mem members) ((eq_iff row.uid u).0 e))

minus_bits : (t m : Bool) → (t && not (t && m)) ≡ (t && not m)
minus_bits true m = refl
minus_bits false m = refl

-- What RemoveMembers does to the table, and whom it answers.
pub remove_members-in_table :
    (grp_no u : String) (members : List String) (rows : List ItemRow)
    → (in_table grp_no u (remove_members grp_no members rows).0
        ≡ (in_table grp_no u rows && not (mem members u)))
      × (mem (remove_members grp_no members rows).1 u ≡ (in_table grp_no u rows && mem members u))
unfolding remove_members
remove_members-in_table grp_no u members rows =
    go (found_uids grp_no members rows) (mem-found_uids grp_no u members rows)
  where
    go :
        (ex : List String)
        → mem ex u ≡ (in_table grp_no u rows && mem members u)
        → (in_table grp_no u
              (elim ex as (λ _. List ItemRow × List String) [
                | [] ↦ (rows, [])
                | uid ∷ uids ↦ (set_kicked grp_no (uid ∷ uids) rows, uid ∷ uids)
              ]).0
            ≡ (in_table grp_no u rows && not (mem members u)))
          × (mem
                (elim ex as (λ _. List ItemRow × List String) [
                  | [] ↦ (rows, [])
                  | uid ∷ uids ↦ (set_kicked grp_no (uid ∷ uids) rows, uid ∷ uids)
                ]).1
                u
              ≡ (in_table grp_no u rows && mem members u))
    go [] e = (none_found (in_table grp_no u rows) (mem members u) e, e)
      where
        none_found : (t m : Bool) → false ≡ (t && m) → t ≡ (t && not m)
        none_found true true e = sym e ∙ refl
        none_found true false e = refl
        none_found false m e = refl
    go (uid ∷ uids) e = (
      in_table-set_kicked grp_no u (uid ∷ uids) rows
          ∙ ap (λ b. in_table grp_no u rows && not b) e
          ∙ minus_bits (in_table grp_no u rows) (mem members u),
      e,
    )
