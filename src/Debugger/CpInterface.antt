-- ===== src/Debugger/CpInterface.antt =====
-- pfpsim/core/debugger/CPDebuggerInterface.cpp and CPDebuggerInterface.h: the debugger's copy of the
-- match-action table entries that the control plane has asked for. `printTableEntries` only prints.
pub mod View
pub mod Confirmed
use pfpsim.Common.{
  ◌>>=◌, ℕ, Bool, true, false, not, Option, none, some, List, [], ◌∷◌, ◌++◌, String, ◌==◌,
  string_eq, nat_eq, ◌&&◌, if◌then◌else◌, or_else, any, erase_first, update_first,
}
use pfpsim.KeyOrder.{string_order}
use pfpsim.OrderedMap.{Map, find, assign}

pub data TableEntryStatus : Type 0 where
  ok : TableEntryStatus
  inserting : TableEntryStatus
  deleting : TableEntryStatus
  modifying : TableEntryStatus
  no_status : TableEntryStatus

pub record TableEntry : Type 0 where
  pub table_name : String
  pub match_key : String
  pub action_name : String
  pub action_data : List String
  pub handle : ℕ
  pub status : TableEntryStatus

-- The entries of each action of a table, and those of all tables.
abbrev pub ActionMap : Type 0
ActionMap = Map String (List TableEntry)

abbrev pub TableEntries : Type 0
TableEntries = Map String ActionMap

abbrev pub has_handle : ℕ → TableEntry → Bool
has_handle h e = e.handle == h

abbrev pub with_status : TableEntryStatus → TableEntry → TableEntry
with_status s e = record e { status = s }

-- `table_entries[table_name]` and `table_entries[table_name][action_name]`: missing ones are made.
abbrev pub actions_of : String → TableEntries → ActionMap
actions_of table_name t = or_else (find table_name t) []

abbrev pub entries_of : String → ActionMap → List TableEntry
entries_of action_name actions = or_else (find action_name actions) []

-- The entry that gets its handle once the control plane has inserted it.
abbrev pub handled : ℕ → TableEntry → TableEntry
handled h e = record e { handle = h; status = ok }

unfoldable pub update_handle : String → String → String → ℕ → TableEntries → TableEntries
update_handle table_name match_key action_name handle t = elim (find table_name t) [
  | none ↦ t
  | some actions ↦ elim (find action_name actions) [
    | none ↦ t
    | some entries ↦
        assign table_name
          (assign action_name
            (update_first (λ it. it.match_key == match_key) (handled handle) entries) actions)
          t
  ]
]

unfoldable pub add_table_entry :
    String → String → String → List String → ℕ → TableEntries → TableEntries
add_table_entry table_name match_key action_name action_data handle t =
    let entry : TableEntry = record {
      table_name = table_name;
      match_key = match_key;
      action_name = action_name;
      action_data = action_data;
      handle = handle;
      status = inserting;
    } in
    elim (find table_name t) [
      | none ↦ assign table_name ((action_name, entry ∷ []) ∷ []) t
      | some actions ↦ elim (find action_name actions) [
        | none ↦ assign table_name (assign action_name (entry ∷ []) actions) t
        | some entries ↦ assign table_name (assign action_name (entries ++ entry ∷ []) actions) t
      ]
    ]

abbrev pub modified : List String → TableEntry → TableEntry
modified action_data e = record e { action_data = action_data; status = modifying }

unfoldable pub update_table_entry : String → ℕ → String → List String → TableEntries → TableEntries
update_table_entry table_name handle action_name action_data t =
    let actions = actions_of table_name t in
    assign table_name
      (assign action_name
        (update_first (has_handle handle) (modified action_data) (entries_of action_name actions))
        actions)
      t

-- The loop over the actions of a table, which sets the status of one entry of each.
unfoldable pub mark_all : ℕ → TableEntryStatus → ActionMap → ActionMap
mark_all handle s [] = []
mark_all handle s ((name, entries) ∷ actions) =
    (name, update_first (has_handle handle) (with_status s) entries) ∷ mark_all handle s actions

unfoldable pub delete_table_entry : String → ℕ → TableEntries → TableEntries
delete_table_entry table_name handle t =
    assign table_name (mark_all handle deleting (actions_of table_name t)) t

unfoldable pub confirm_update_entry : String → ℕ → TableEntries → TableEntries
confirm_update_entry table_name handle t =
    assign table_name (mark_all handle ok (actions_of table_name t)) t

abbrev pub is_empty : List TableEntry → Bool
is_empty [] = true
is_empty (e ∷ es) = false

-- The loop over the actions that erases one entry of each. `none` is undefined behaviour: an action
-- that loses its last entry is erased from the map, and its iterator is then advanced.
unfoldable pub erase_all : ℕ → ActionMap → Option ActionMap
erase_all handle [] = some []
erase_all handle ((name, entries) ∷ actions) =
    let left = erase_first (has_handle handle) entries in
    if any (has_handle handle) entries && is_empty left
    then none
    else (do rest ← erase_all handle actions; some ((name, left) ∷ rest))

unfoldable pub confirm_delete_entry : String → ℕ → TableEntries → Option TableEntries
confirm_delete_entry table_name handle t = do
  actions ← erase_all handle (actions_of table_name t)
  some (assign table_name actions t)

-- The entries of all actions, in the order of the maps.
unfoldable pub entries_of_all : ActionMap → List TableEntry
entries_of_all [] = []
entries_of_all ((name, entries) ∷ actions) = entries ++ entries_of_all actions

unfoldable pub get_all_table_entries : TableEntries → List TableEntry
get_all_table_entries [] = []
get_all_table_entries ((name, actions) ∷ t) = entries_of_all actions ++ get_all_table_entries t
