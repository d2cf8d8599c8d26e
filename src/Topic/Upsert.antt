-- ===== src/Topic/Upsert.antt =====
-- UpsertGroupChatConv: what it does to the lists of the members.
use sdim.Base.{true, false}
use sdim.Topic.Sent.{among}
use sdim.Topic.Cells.{cell_in, cell}
use sdim.Base.Maps.{lookup, lookup-insert_self, lookup-insert_ne, insert, lookup-insert}
use sdim.Topic.Groups.{group_member_conv, upsert_item, upsert_members, upsert_group_chat_conv}
use sdim.Topic.Types.{MemberConv, MemberConvWrap, ConvManager}
use sdim.Base.{
  String, Option, some, ◌≡◌, none, ◌≢◌, refl, eq_iff, str_eq-false, Option-cases, inl, inr, List,
  Bool, if◌then◌else◌, str_eq, ◌&&◌, Bool-cases, ◌||◌, ◌∷◌, subst, ◌∙◌, str_ne, ap, [],
}

module _ (conv_id group_no icon title : String) where
  fresh : MemberConv
  fresh = group_member_conv conv_id group_no icon title

  retitled : MemberConv → MemberConv
  retitled item = record item { icon = icon; title = title }

  -- A member's cell afterwards: the old one with another picture and title, or a blank one.
  abbrev pub upserted : Option MemberConv → MemberConv
  upserted none = group_member_conv conv_id group_no icon title
  upserted (some item) = record item { icon = icon; title = title }

  upserted_twice : (o : Option MemberConv) → upserted (some (upserted o)) ≡ upserted o
  unfolding group_member_conv
  upserted_twice none = refl
  upserted_twice (some item) = refl

  upsert_item_self :
      (o : Option MemberConvWrap)
      → lookup conv_id (upsert_item retitled fresh conv_id o) ≡ some (upserted (cell_in conv_id o))
  unfolding upsert_item fresh retitled lookup
  upsert_item_self none = rw ((eq_iff conv_id conv_id).1 refl) refl
  upsert_item_self (some wrap) = elim (Option-cases (lookup conv_id wrap)) [
    | inl absent ↦ rw (absent, upsert_item) (lookup-insert_self conv_id fresh wrap)
    | inr (item, e) ↦ rw (e, upsert_item) (lookup-insert_self conv_id (retitled item) wrap)
  ]

  upsert_item-other :
      (k : String) (o : Option MemberConvWrap)
      → conv_id ≢ k
      → lookup k (upsert_item retitled fresh conv_id o) ≡ cell_in k o
  unfolding upsert_item fresh retitled lookup
  upsert_item-other k none n = rw (str_eq-false conv_id k n) refl
  upsert_item-other k (some wrap) n = elim (Option-cases (lookup conv_id wrap)) [
    | inl absent ↦ rw (absent, upsert_item) (lookup-insert_ne conv_id k fresh wrap n)
    | inr (item, e) ↦ rw (e, upsert_item) (lookup-insert_ne conv_id k (retitled item) wrap n)
  ]

  set_cell : Option MemberConv → Option MemberConv
  set_cell o = some (upserted o)

  cell-upsert_one :
      (uid u k : String) (users : List (String × MemberConvWrap))
      → cell_in k
          (lookup u (insert uid (upsert_item retitled fresh conv_id (lookup uid users)) users))
        ≡ (if str_eq uid u && str_eq conv_id k
            then set_cell (cell_in k (lookup u users))
            else cell_in k (lookup u users))
  unfolding set_cell
  cell-upsert_one uid u k users =
      ap (cell_in k) (lookup-insert uid u _ users) ∙ elim (Bool-cases (str_eq uid u)) [
        | inr other ↦ rw other refl
        | inl same ↦ rw same (
            ap (λ v. lookup k (upsert_item retitled fresh conv_id (lookup v users)))
              ((eq_iff _ _).0 same)
            ∙ at_user (lookup u users))
      ]
    where
      at_user :
          (o : Option MemberConvWrap)
          → lookup k (upsert_item retitled fresh conv_id o)
            ≡ (if str_eq conv_id k then some (upserted (cell_in k o)) else cell_in k o)
      at_user o = elim (Bool-cases (str_eq conv_id k)) [
        | inl here ↦ rw here (
            subst
              (λ j. lookup j (upsert_item retitled fresh conv_id o) ≡ some (upserted (cell_in j o)))
              ((eq_iff _ _).0 here) (upsert_item_self o))
        | inr there ↦ rw there (upsert_item-other k o (str_ne _ _ there))
      ]

  set_step :
      (b c d : Bool) (o : Option MemberConv)
      → (if b && d
          then set_cell (if c && d then set_cell o else o)
          else if c && d
          then set_cell o
          else o)
        ≡ (if (c || b) && d then set_cell o else o)
  unfolding set_cell
  set_step true true true o = ap some (upserted_twice o)
  set_step true true false o = refl
  set_step true false true o = refl
  set_step true false false o = refl
  set_step false true true o = refl
  set_step false true false o = refl
  set_step false false true o = refl
  set_step false false false o = refl

  cell-upsert_members :
      (uids : List String) (u k : String) (users : List (String × MemberConvWrap))
      → cell_in k
          (lookup u (upsert_members (λ uid. uid) (λ _. retitled) (λ _. fresh) conv_id uids users))
        ≡ (if among uids u && str_eq conv_id k
            then set_cell (cell_in k (lookup u users))
            else cell_in k (lookup u users))
  unfolding upsert_members
  cell-upsert_members [] u k users = refl
  cell-upsert_members (uid ∷ uids) u k users =
      cell-upsert_members uids u k
        (insert uid (upsert_item retitled fresh conv_id (lookup uid users)) users)
      ∙ ap (λ o. if among uids u && str_eq conv_id k then set_cell o else o)
          (cell-upsert_one uid u k users)
      ∙ set_step (among uids u) (str_eq uid u) (str_eq conv_id k) (cell_in k (lookup u users))

-- Afterwards every named member, named once or more, has the group's conversation with the given
-- picture and title: a cell that was there keeps its reading position, its unread count, its remark
-- and the rest, and a new one is blank. Who is not named, and every other conversation of anyone,
-- is as before.
pub upserted_conv :
    (cm : ConvManager) (conv_id group_no icon title : String) (members : List String) (u k : String)
    → let cm' = (upsert_group_chat_conv cm conv_id group_no icon title members).0 in
      cell u k cm' ≡ (
        if among members u && str_eq conv_id k
        then some (upserted conv_id group_no icon title (cell u k cm))
        else cell u k cm)
unfolding upsert_group_chat_conv
upserted_conv cm conv_id group_no icon title members u k =
    unfold fresh retitled set_cell in
    cell-upsert_members conv_id group_no icon title members u k cm.uid2conv_items
