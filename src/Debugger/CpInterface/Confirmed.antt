-- ===== src/Debugger/CpInterface/Confirmed.antt =====
-- CPDebuggerInterface.cpp: what `confirmDeleteEntry` leaves, and where it is undefined.
use pfpsim.Common.{
  ℕ, ◌≡◌, refl, ◌⊎◌, inl, inr, Bool, true, false, ◌&&◌, none, some, List, [], ◌∷◌, String, arith,
  ◌==◌, string_eq, nat_eq, if◌then◌else◌, any, erase_first, Bool-cases,
}
use pfpsim.KeyOrder.{string_order}
use pfpsim.OrderedMap.{find, assign, find-assign}
use pfpsim.Debugger.CpInterface.{
  TableEntry, ActionMap, TableEntries, has_handle, actions_of, entries_of, is_empty, erase_all,
  confirm_delete_entry,
}
use pfpsim.Debugger.CpInterface.View.{view}

-- The action's only entry is the one with the handle.
abbrev pub is_last : ℕ → List TableEntry → Bool
is_last h es = any (has_handle h) es && is_empty (erase_first (has_handle h) es)

abbrev pub any_last : ℕ → ActionMap → Bool
any_last h [] = false
any_last h ((name, es) ∷ actions) = if is_last h es then true else any_last h actions

abbrev pub erased_all : ℕ → ActionMap → ActionMap
erased_all h [] = []
erased_all h ((name, es) ∷ actions) = (name, erase_first (has_handle h) es) ∷ erased_all h actions

erase_all-any_last :
    (h : ℕ) (actions : ActionMap)
    → erase_all h actions ≡ (if any_last h actions then none else some (erased_all h actions))
unfolding erase_all
erase_all-any_last h [] = refl
erase_all-any_last h ((name, es) ∷ actions) = elim (Bool-cases (is_last h es)) [
  | inl last ↦ rw last refl
  | inr more ↦ elim (Bool-cases (any_last h actions)) [
    | inl l ↦ rw (more, erase_all-any_last h actions, l) refl
    | inr n ↦ rw (more, erase_all-any_last h actions, n) refl
  ]
]

entries_of-erased_all :
    (h : ℕ) (ac : String) (actions : ActionMap)
    → entries_of ac (erased_all h actions) ≡ erase_first (has_handle h) (entries_of ac actions)
unfolding find erase_first
entries_of-erased_all h ac [] = refl
entries_of-erased_all h ac ((name, es) ∷ actions) =
    ground (arith, entries_of-erased_all h ac actions)

-- A confirmed deletion is undefined exactly when an action of the table has the entry as its only
-- one. Otherwise each action of the table loses its first entry with the handle, and all other lists
-- stay.
pub confirm_delete_entry_cases :
    (table_name : String) (handle : ℕ) (t : TableEntries)
    → ((any_last handle (actions_of table_name t) ≡ true)
        × (confirm_delete_entry table_name handle t ≡ none))
      ⊎ ((any_last handle (actions_of table_name t) ≡ false)
          × ((t' : TableEntries) × (confirm_delete_entry table_name handle t ≡ some t')
              × ((tb ac : String)
                  → view t' tb ac ≡ (
                      if tb == table_name
                      then erase_first (has_handle handle) (view t tb ac)
                      else view t tb ac))))
unfolding confirm_delete_entry
confirm_delete_entry_cases table_name handle t =
    let actions = actions_of table_name t in
    elim (Bool-cases (any_last handle actions)) [
      | inl l ↦ inl (l, rw (erase_all-any_last handle actions, l) refl)
      | inr n ↦ inr (
        n,
        (
          assign table_name (erased_all handle actions) t,
          rw (erase_all-any_last handle actions, n) refl,
          λ tb ac. ground (
            arith,
            find-assign tb table_name (erased_all handle actions) t,
            entries_of-erased_all handle ac actions,
            string_eq.equal_iff tb table_name,
          ),
        ),
      )
    ]
