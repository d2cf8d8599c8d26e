-- ===== src/Roster/Examples.antt =====
-- A group of an owner, a manager, and a member who was taken out once.
use sdim.Base.Ints.{pos}
use sdim.Roster.Readmitted.{readmitted_only_in_memory}
use sdim.Roster.Founded.{Whole, handle_start_group_chat-Whole}
use sdim.Roster.Founding.{
  Office, StartGroupChatReq, Hall, handle_start_group_chat, start_with, alone, found_known,
  found_group, tell_founded,
}
use sdim.Roster.Hints.{build_remove_info_fmt}
use sdim.Roster.Inserts.{uids_of}
use sdim.Group.Ops.{on_group_meb_added}
use sdim.Group.Removal.{mem}
use sdim.Topic.Load.{UnitInfo}
use sdim.Roster.Tables.{ItemRow, insert_members, get_role_in_group, remove_members, set_kicked}
use sdim.Roster.Rows.{in_table, known, in_items}
use sdim.Group.Types.{Groups, GroupMebItem, GroupInfo}
use sdim.Roster.Arrivals.{Outcome, answered_uids, handle_add_members-Outcome}
use sdim.Roster.Removal.{Took, permitted, handle_remove_members-Took}
use sdim.Roster.Agree.{Agrees}
use sdim.Roster.Requests.{
  Desk, Roster, AddRemMembersReq, handle_remove_members, remove_in_tx, removed_in_store,
  handle_add_members, repository, tell_removed, publish, accepted,
}
use mathlib.Core.Option.{none-ne-some}
use sdim.Base.{
  inl, inr, String, ℕ, List, ◌≡◌, ◌∷◌, [], ◌&&◌, some, none, Bool-cases, refl, str_eq, subst,
  eq_iff, arith, sym,
}
use sdim.Base.{true, false}
use sdim.Base.Maps.{lookup}
use sdim.Handler.Types.{answered}

abbrev row_of : String → ℕ → ℕ → ItemRow
row_of uid state role = record {
  group_no = "g";
  uid = uid;
  state = state;
  role = role;
  meb_avatar = "";
  meb_nickname = uid;
  remark = none;
  forbidden_dur = 0;
  forbidden_at = pos 0;
  cts = 1;
  uts = 1;
}

abbrev item : ℕ → ℕ → GroupMebItem
item state role = record {
  role = role;
  state = state;
  forbidden_sec = 0;
  forbidden_at = pos 0;
  cts = 1;
  uts = 1;
}

abbrev group_of : List (String × GroupMebItem) → GroupInfo
group_of items = record {
  group_no = "g";
  state = 1;
  creator = "";
  owner_uid = "a";
  meb2item = items;
  cts = 1;
  uts = 1;
}

abbrev desk : Desk
desk = record {
  users_unit_info = λ uids. answered (
      ("b", record { uid = "b"; nickname = "B"; avatar = "" })
      ∷ ("d", record { uid = "d"; nickname = "D"; avatar = "" })
      ∷ []);
  find_group_info =
      λ g. some (record { group_name = "team"; state = 1; creator = "a"; cts = 1; uts = 1 });
  commits = true;
  reads = true;
  submit = true;
  publishes = λ e. true;
  new_state = 1;
  decimal = λ n. "1";
  fmt_cmd = λ c. "{}";
  msg_id = 500;
  mills = 9;
}

abbrev rows : List ItemRow
rows = row_of "a" 1 1 ∷ row_of "b" 1 2 ∷ row_of "c" 2 3 ∷ []

-- The group is not in memory.
abbrev roster : Roster
roster = record { items = rows; groups = []; sent = [] }

abbrev removal : AddRemMembersReq
removal = record { uid = "b"; group_no = "g"; members = "a" ∷ [] }

abbrev invitation : AddRemMembersReq
invitation = record { uid = "b"; group_no = "g"; members = "d" ∷ [] }

roster-Agrees : Agrees "g" rows []
unfolding lookup
roster-Agrees = λ info e u. absurd (none-ne-some info e)

handle_remove_members-Took_example :
    Took
      (desk.commits && permitted (get_role_in_group "g" "b" rows))
      removal
      roster
      (handle_remove_members desk removal roster).0
handle_remove_members-Took_example = handle_remove_members-Took desk removal roster roster-Agrees

-- The manager has taken the owner out.
owner_is_out : in_table "g" "a" (handle_remove_members desk removal roster).0.items ≡ false
unfolding handle_remove_members remove_in_tx removed_in_store remove_members set_kicked
    get_role_in_group tell_removed publish build_remove_info_fmt lookup
owner_is_out = refl

abbrev answer : List (String × UnitInfo)
answer =
    ("b", record { uid = "b"; nickname = "B"; avatar = "" })
    ∷ ("d", record { uid = "d"; nickname = "D"; avatar = "" })
    ∷ []

never_kicked :
    (u : String)
    → mem (answered_uids answer) u ≡ true
    → known "g" u rows ≡ true
    → in_table "g" u rows ≡ true
never_kicked u m k = elim (Bool-cases (str_eq "b" u)) [
  | inl e ↦ subst (λ v. in_table "g" v rows ≡ true) ((eq_iff "b" u).0 e) refl
  | inr not_b ↦ elim (Bool-cases (str_eq "d" u)) [
    | inl e ↦ ground (arith, subst (λ v. known "g" v rows ≡ true) (sym ((eq_iff "d" u).0 e)) k)
    | inr not_d ↦ ground (arith, not_b, not_d, m)
  ]
]

handle_add_members-Outcome_example :
    Outcome (answered_uids answer) "g" roster (handle_add_members desk invitation roster)
handle_add_members-Outcome_example =
    handle_add_members-Outcome desk invitation roster answer roster-Agrees refl never_kicked refl

abbrev in_memory : Groups
in_memory = ("g", group_of (("a", item 1 1) ∷ ("b", item 1 2) ∷ ("c", item 2 3) ∷ [])) ∷ []

abbrev back_again : List UnitInfo
back_again = record { uid = "c"; nickname = "C"; avatar = "" } ∷ []

found_in_memory :
    lookup "g" in_memory
    ≡ some (group_of (("a", item 1 1) ∷ ("b", item 1 2) ∷ ("c", item 2 3) ∷ []))
unfolding lookup
found_in_memory = refl

readmitted_only_in_memory_example :
    (in_table "g" "c" (insert_members 1 "g" 9 back_again rows) ≡ false)
    × ((after : GroupInfo)
        → lookup "g"
            (on_group_meb_added (repository desk rows) in_memory "g" (uids_of back_again) 9).0
          ≡ some after
        → in_items "c" after.meb2item ≡ true)
readmitted_only_in_memory_example =
    readmitted_only_in_memory (repository desk rows) in_memory 1 "g" "c" 9 back_again rows
      (group_of (("a", item 1 1) ∷ ("b", item 1 2) ∷ ("c", item 2 3) ∷ [])) refl found_in_memory
      refl refl refl

abbrev office : Office
office = record {
  desk = desk;
  distinct = λ uids. uids;
  grp_no = "h";
  caches = true;
  setting_group_name = λ g name. true;
  setting_group_bak = λ uid g bak. some true;
  setting_group_nickname = λ uid g nickname. some true;
  user_unit_info = λ uid. answered (record { uid = uid; nickname = uid; avatar = "" });
}

abbrev start : StartGroupChatReq
start = record {
  group_name = "new";
  avatar = "i";
  owner_uid = "b";
  limited_num = 0;
  members = "d" ∷ [];
}

abbrev hall : Hall
hall = record {
  roster = roster;
  cm = record { conv_id2items = []; uid2conv_items = []; msg_cap = 2 };
}

start_accepted : (handle_start_group_chat office start hall).1 ≡ accepted
unfolding handle_start_group_chat start_with alone found_known found_group tell_founded
start_accepted = refl

handle_start_group_chat-Whole_example :
    Whole office start answer hall refl (λ u. refl) (handle_start_group_chat office start hall).0
handle_start_group_chat-Whole_example =
    handle_start_group_chat-Whole office start answer hall refl (λ u. refl) refl start_accepted
