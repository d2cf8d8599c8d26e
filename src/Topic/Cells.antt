-- ===== src/Topic/Cells.antt =====
-- The cells of the users' lists, and a write to one of them.
use sdim.Topic.Deliver.{update_item}
use sdim.Base.Maps.{lookup, insert, lookup-insert, lookup-insert_self}
use sdim.Topic.Types.{MemberConv, ConvManager, MemberConvWrap}
use sdim.Base.{
  String, Option, ◌≡◌, none, some, Option-cases, if◌then◌else◌, str_eq, inl, ◌&&◌, inr, refl, ◌∙◌,
  ap, false, Bool-cases, subst, eq_iff, sym,
}
use mathlib.Core.Option

abbrev pub cell_in : String → Option MemberConvWrap → Option MemberConv
cell_in k none = none
cell_in k (some wrap) = lookup k wrap

-- A user's own data of a conversation.
abbrev pub cell : String → String → ConvManager → Option MemberConv
cell uid conv_id cm = cell_in conv_id (lookup uid cm.uid2conv_items)

lookup-change :
    (f : MemberConv → MemberConv) (j k : String) (item : MemberConv) (wrap : MemberConvWrap)
    → lookup j wrap ≡ some item
    → lookup k (insert j (f item) wrap)
      ≡ (if str_eq j k then Option.map f (lookup k wrap) else lookup k wrap)
lookup-change f j k item wrap e = lookup-insert j k (f item) wrap ∙ elim (Bool-cases (str_eq j k)) [
  | inl same ↦
      let here : lookup k wrap ≡ some item =
        subst (λ i. lookup i wrap ≡ some item) ((eq_iff _ _).0 same) e in
      rw (same, here) refl
  | inr other ↦ rw other refl
]

module _ (f : MemberConv → MemberConv) (uid conv_id : String) (cm : ConvManager) where
  update_item-gone : lookup uid cm.uid2conv_items ≡ none → update_item f uid conv_id cm ≡ cm
  unfolding update_item
  update_item-gone e = rw (e, update_item) refl

  update_item-missing :
      (wrap : MemberConvWrap)
      → lookup uid cm.uid2conv_items ≡ some wrap
      → lookup conv_id wrap ≡ none
      → update_item f uid conv_id cm ≡ cm
  unfolding update_item
  update_item-missing wrap found e = rw (found, update_item) (rw e refl)

  update_item-some :
      (wrap : MemberConvWrap) (item : MemberConv)
      → lookup uid cm.uid2conv_items ≡ some wrap
      → lookup conv_id wrap ≡ some item
      → update_item f uid conv_id cm
        ≡ record cm { uid2conv_items = insert uid (insert conv_id (f item) wrap) cm.uid2conv_items }
  unfolding update_item
  update_item-some wrap item found e = rw (found, update_item) (rw e refl)

  cell-update_self :
      (k : String)
      → cell uid k (update_item f uid conv_id cm)
        ≡ (if str_eq conv_id k then Option.map f (cell uid k cm) else cell uid k cm)
  cell-update_self k = elim (Option-cases (lookup uid cm.uid2conv_items)) [
    | inl gone ↦
        ap (cell uid k) (update_item-gone gone)
        ∙ ap (cell_in k) gone
        ∙ elim (Bool-cases (str_eq conv_id k)) [
          | inl same ↦ rw (same, gone) refl
          | inr other ↦ rw (other, gone) refl
        ]
    | inr (wrap, found) ↦ elim (Option-cases (lookup conv_id wrap)) [
      | inl missing ↦
          ap (cell uid k) (update_item-missing wrap found missing)
          ∙ ap (cell_in k) found
          ∙ elim (Bool-cases (str_eq conv_id k)) [
            | inl same ↦
                let absent : lookup k wrap ≡ none =
                  subst (λ i. lookup i wrap ≡ none) ((eq_iff _ _).0 same) missing in
                rw (same, found, absent) refl
            | inr other ↦ rw (other, found) refl
          ]
      | inr (item, e) ↦
          ap (cell uid k) (update_item-some wrap item found e)
          ∙ ap (cell_in k) (lookup-insert_self uid (insert conv_id (f item) wrap) cm.uid2conv_items)
          ∙ lookup-change f conv_id k item wrap e
          ∙ ap (λ o. if str_eq conv_id k then Option.map f o else o) (sym (ap (cell_in k) found))
    ]
  ]

  cell-update_other :
      (u k : String) → str_eq uid u ≡ false → cell u k (update_item f uid conv_id cm) ≡ cell u k cm
  cell-update_other u k n = elim (Option-cases (lookup uid cm.uid2conv_items)) [
    | inl gone ↦ ap (cell u k) (update_item-gone gone)
    | inr (wrap, found) ↦ elim (Option-cases (lookup conv_id wrap)) [
      | inl missing ↦ ap (cell u k) (update_item-missing wrap found missing)
      | inr (item, e) ↦
          ap (cell u k) (update_item-some wrap item found e)
          ∙ ap (cell_in k)
              (lookup-insert uid u (insert conv_id (f item) wrap) cm.uid2conv_items ∙ rw n refl)
    ]
  ]

  -- The write changes the one cell, if it is there.
  pub cell-update_item :
      (u k : String)
      → cell u k (update_item f uid conv_id cm)
        ≡ (if str_eq uid u && str_eq conv_id k then Option.map f (cell u k cm) else cell u k cm)
  cell-update_item u k = elim (Bool-cases (str_eq uid u)) [
    | inl same ↦ rw same (
        subst
          (λ v.
            cell v k (update_item f uid conv_id cm)
            ≡ (if str_eq conv_id k then Option.map f (cell v k cm) else cell v k cm))
          ((eq_iff _ _).0 same) (cell-update_self k))
    | inr other ↦ rw other (cell-update_other u k other)
  ]

pub convs-update_item :
    (f : MemberConv → MemberConv) (uid conv_id : String) (cm : ConvManager)
    → (update_item f uid conv_id cm).conv_id2items ≡ cm.conv_id2items
convs-update_item f uid conv_id cm = elim (Option-cases (lookup uid cm.uid2conv_items)) [
  | inl gone ↦ ap (λ (c : ConvManager). c.conv_id2items) (update_item-gone f uid conv_id cm gone)
  | inr (wrap, found) ↦ elim (Option-cases (lookup conv_id wrap)) [
    | inl missing ↦
        ap (λ (c : ConvManager). c.conv_id2items)
          (update_item-missing f uid conv_id cm wrap found missing)
    | inr (item, e) ↦
        ap (λ (c : ConvManager). c.conv_id2items)
          (update_item-some f uid conv_id cm wrap item found e)
  ]
]
