-- ===== src/Debugger/CpInterface/View.antt =====
-- CPDebuggerInterface.cpp: the operations as changes of a table of entry lists.
use pfpsim.Common.{
  ℕ, ◌≡◌, refl, Bool, ◌&&◌, List, [], ◌∷◌, ◌++◌, String, arith, ◌==◌, string_eq, nat_eq,
  if◌then◌else◌, update_first, Option-cases, inl, inr,
}
use pfpsim.KeyOrder.{string_order}
use pfpsim.OrderedMap.{find, assign, find-assign, find-nil}
use pfpsim.Debugger.CpInterface.{
  TableEntryStatus, inserting, deleting, ok, TableEntry, ActionMap, TableEntries, has_handle,
  with_status, actions_of, entries_of, handled, modified, update_handle, add_table_entry,
  update_table_entry, mark_all, delete_table_entry, confirm_update_entry,
}

-- The abstract state: the entries of each action of each table.
abbrev pub Tables : Type 0
Tables = String → String → List TableEntry

abbrev pub view : TableEntries → Tables
view t table_name action_name = entries_of action_name (actions_of table_name t)

-- The requests and confirmations that always have a result.
pub data Request : Type 0 where
  adds : String → String → String → List String → ℕ → Request
  sets_handle : String → String → String → ℕ → Request
  updates : String → ℕ → String → List String → Request
  deletes : String → ℕ → Request
  confirms_update : String → ℕ → Request

abbrev pub perform : Request → TableEntries → TableEntries
perform (adds table_name match_key action_name action_data handle) t =
    add_table_entry table_name match_key action_name action_data handle t
perform (sets_handle table_name match_key action_name handle) t =
    update_handle table_name match_key action_name handle t
perform (updates table_name handle action_name action_data) t =
    update_table_entry table_name handle action_name action_data t
perform (deletes table_name handle) t = delete_table_entry table_name handle t
perform (confirms_update table_name handle) t = confirm_update_entry table_name handle t

-- The change of one list.
abbrev pub changed : Request → List TableEntry → List TableEntry
changed (adds table_name match_key action_name action_data handle) es =
    es
    ++ record {
      table_name = table_name;
      match_key = match_key;
      action_name = action_name;
      action_data = action_data;
      handle = handle;
      status = inserting;
    }
      ∷ []
changed (sets_handle table_name match_key action_name handle) es =
    update_first (λ it. it.match_key == match_key) (handled handle) es
changed (updates table_name handle action_name action_data) es =
    update_first (has_handle handle) (modified action_data) es
changed (deletes table_name handle) es = update_first (has_handle handle) (with_status deleting) es
changed (confirms_update table_name handle) es =
    update_first (has_handle handle) (with_status ok) es

-- Does the request concern this list?
abbrev pub concerns : Request → String → String → Bool
concerns (adds table_name match_key action_name action_data handle) tb ac =
    (tb == table_name) && (ac == action_name)
concerns (sets_handle table_name match_key action_name handle) tb ac =
    (tb == table_name) && (ac == action_name)
concerns (updates table_name handle action_name action_data) tb ac =
    (tb == table_name) && (ac == action_name)
concerns (deletes table_name handle) tb ac = tb == table_name
concerns (confirms_update table_name handle) tb ac = tb == table_name

entries_of-mark_all :
    (h : ℕ) (s : TableEntryStatus) (ac : String) (actions : ActionMap)
    → entries_of ac (mark_all h s actions)
      ≡ update_first (has_handle h) (with_status s) (entries_of ac actions)
unfolding find mark_all update_first
entries_of-mark_all h s ac [] = refl
entries_of-mark_all h s ac ((name, es) ∷ actions) =
    ground (arith, entries_of-mark_all h s ac actions)

-- Writing one list.
view-assign :
    (t : TableEntries) (actions : ActionMap) (es : List TableEntry)
    (table_name action_name : String) (tb ac : String)
    → actions_of table_name t ≡ actions
    → view (assign table_name (assign action_name es actions) t) tb ac
      ≡ (if (tb == table_name) && (ac == action_name) then es else view t tb ac)
view-assign t actions es table_name action_name tb ac h = ground (
  arith,
  find-assign tb table_name (assign action_name es actions) t,
  find-assign ac action_name es actions,
  string_eq.equal_iff tb table_name,
  string_eq.equal_iff ac action_name,
)

update_handle-refines :
    (table_name match_key action_name : String) (handle : ℕ) (t : TableEntries) (tb ac : String)
    → view (update_handle table_name match_key action_name handle t) tb ac ≡ (
        if (tb == table_name) && (ac == action_name)
        then update_first (λ it. it.match_key == match_key) (handled handle) (view t tb ac)
        else view t tb ac)
unfolding update_handle update_first find
update_handle-refines table_name match_key action_name handle t tb ac =
    elim (Option-cases (find table_name t)) [
      | inl e ↦
          rw (update_handle, e)
            (ground (arith, find-nil {V = List TableEntry} ac, string_eq.equal_iff tb table_name))
      | inr (actions, e) ↦ elim (Option-cases (find action_name actions)) [
        | inl f ↦
            rw (update_handle, e, f)
              (ground
                (arith, string_eq.equal_iff tb table_name, string_eq.equal_iff ac action_name))
        | inr (es, f) ↦
            rw (update_handle, e, f)
              (ground (
                arith,
                view-assign t actions
                    (update_first (λ it. it.match_key == match_key) (handled handle) es) table_name
                    action_name tb ac,
                string_eq.equal_iff tb table_name,
                string_eq.equal_iff ac action_name,
              ))
      ]
    ]

add_table_entry-refines :
    (table_name match_key action_name : String) (action_data : List String) (handle : ℕ)
    (t : TableEntries) (tb ac : String)
    → view (add_table_entry table_name match_key action_name action_data handle t) tb ac ≡ (
        if (tb == table_name) && (ac == action_name)
        then changed (adds table_name match_key action_name action_data handle) (view t tb ac)
        else view t tb ac)
unfolding add_table_entry find
add_table_entry-refines table_name match_key action_name action_data handle t tb ac =
    let entry : TableEntry = record {
      table_name = table_name;
      match_key = match_key;
      action_name = action_name;
      action_data = action_data;
      handle = handle;
      status = inserting;
    } in
    elim (Option-cases (find table_name t)) [
      | inl e ↦
          rw (add_table_entry, e)
            (ground (
              arith,
              find-assign tb table_name ((action_name, entry ∷ []) ∷ []) t,
              string_eq.equal_iff tb table_name,
              string_eq.equal_iff ac action_name,
            ))
      | inr (actions, e) ↦ elim (Option-cases (find action_name actions)) [
        | inl f ↦
            rw (add_table_entry, e, f)
              (ground (
                arith,
                view-assign t actions (entry ∷ []) table_name action_name tb ac,
                string_eq.equal_iff tb table_name,
                string_eq.equal_iff ac action_name,
              ))
        | inr (es, f) ↦
            rw (add_table_entry, e, f)
              (ground (
                arith,
                view-assign t actions (es ++ entry ∷ []) table_name action_name tb ac,
                string_eq.equal_iff tb table_name,
                string_eq.equal_iff ac action_name,
              ))
      ]
    ]

-- Every request for a table entry and every confirmation of an insertion or update changes
-- exactly the entry lists that it names, by its own change: an addition at the end, the others on
-- the first entry with the key or the handle.
pub perform-refines :
    (q : Request) (t : TableEntries) (tb ac : String)
    → view (perform q t) tb ac
      ≡ (if concerns q tb ac then changed q (view t tb ac) else view t tb ac)
unfolding add_table_entry update_handle update_table_entry delete_table_entry confirm_update_entry
    update_first
perform-refines (adds table_name match_key action_name action_data handle) t tb ac =
    add_table_entry-refines table_name match_key action_name action_data handle t tb ac
perform-refines (sets_handle table_name match_key action_name handle) t tb ac =
    update_handle-refines table_name match_key action_name handle t tb ac
perform-refines (updates table_name handle action_name action_data) t tb ac = ground (
  arith,
  find-assign tb table_name
      (assign action_name
        (update_first (has_handle handle) (modified action_data) (view t table_name action_name))
        (actions_of table_name t))
      t,
  find-assign ac action_name
      (update_first (has_handle handle) (modified action_data) (view t table_name action_name))
      (actions_of table_name t),
  string_eq.equal_iff tb table_name,
  string_eq.equal_iff ac action_name,
)
perform-refines (deletes table_name handle) t tb ac = ground (
  arith,
  find-assign tb table_name (mark_all handle deleting (actions_of table_name t)) t,
  entries_of-mark_all handle deleting ac (actions_of table_name t),
  string_eq.equal_iff tb table_name,
)
perform-refines (confirms_update table_name handle) t tb ac = ground (
  arith,
  find-assign tb table_name (mark_all handle ok (actions_of table_name t)) t,
  entries_of-mark_all handle ok ac (actions_of table_name t),
  string_eq.equal_iff tb table_name,
)
