-- ===== src/Roster/Hints.antt =====
-- group_handler.go: the texts of the messages that tell a group of a change. `decimal` writes a
-- number, as the format %d does.
use sdim.Topic.Load.{UnitInfo}
use sdim.Base.Maps.{lookup}
use sdim.Base.{
  ℕ, suc, String, List, [], ◌∷◌, Option, none, some, not, ltb, ◌==◌, if◌then◌else◌, text_append,
  length,
}

pub record UidNickname : Type 0 where
  pub uid : String
  pub nickname : String

-- The element of a slice that make has left at its zero value.
abbrev pub no_nickname : UidNickname
no_nickname = record { uid = ""; nickname = "" }

-- The place of the member `idx` of `count` in the text; the first is the one who acts.
unfoldable pub place : (ℕ → String) → ℕ → ℕ → String
place decimal count idx =
    if ltb 0 idx
    then text_append (text_append "{" (text_append (decimal idx) "}"))
        (if not (suc idx == count) then "丶" else "")
    else ""

-- The loop of buildInviteInfoFmt from the member `idx` of `count` on; an unknown member has no
-- place in the text and an empty item.
unfoldable pub invite_loop :
    (ℕ → String)
    → List (String × UnitInfo)
    → ℕ
    → ℕ
    → List String
    → String
    → String × List UidNickname
unfolding place
invite_loop decimal uid2info count idx [] text = (text_append text "加入了群聊", [])
invite_loop decimal uid2info count idx (meb_uid ∷ members) text = elim (lookup meb_uid uid2info) [
  | none ↦
      let r = invite_loop decimal uid2info count (suc idx) members text in (r.0, no_nickname ∷ r.1)
  | some info ↦
      let r =
        invite_loop decimal uid2info count (suc idx) members
          (text_append text (place decimal count idx)) in
      (r.0, record { uid = meb_uid; nickname = info.nickname } ∷ r.1)
]

unfoldable pub build_invite_info_fmt :
    (ℕ → String) → List (String × UnitInfo) → List String → String × List UidNickname
unfolding invite_loop
build_invite_info_fmt decimal uid2info members =
    invite_loop decimal uid2info (length members) 0 members "{0}邀请"

-- The loop of buildRemoveInfoFmt; the info of an unknown member is a nil pointer, and reading it
-- panics (`none`).
unfoldable pub remove_loop :
    (ℕ → String)
    → List (String × UnitInfo)
    → ℕ
    → ℕ
    → List String
    → String
    → Option (String × List UidNickname)
unfolding place
remove_loop decimal uid2info count idx [] text = some (text_append text "移出了群聊", [])
remove_loop decimal uid2info count idx (meb_uid ∷ members) text = elim (lookup meb_uid uid2info) [
  | none ↦ none
  | some info ↦
      elim (remove_loop decimal uid2info count (suc idx) members
        (text_append text (place decimal count idx))) [
          | none ↦ none
          | some r ↦ some (r.0, record { uid = meb_uid; nickname = info.nickname } ∷ r.1)
        ]
]

unfoldable pub build_remove_info_fmt :
    (ℕ → String) → List (String × UnitInfo) → List String → Option (String × List UidNickname)
unfolding remove_loop
build_remove_info_fmt decimal uid2info members =
    remove_loop decimal uid2info (length members) 0 members "{0}将"
