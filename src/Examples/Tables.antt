-- ===== src/Examples/Tables.antt =====
-- Table entries on their way.
use pfpsim.Common.{
  ◌≡◌, ◌⊎◌, true, false, none, some, [], ◌∷◌, String, ◌==◌, string_eq, if◌then◌else◌, erase_first,
}
use pfpsim.Debugger.CpInterface.{TableEntries, has_handle, actions_of, confirm_delete_entry}
use pfpsim.Debugger.CpInterface.View.{
  adds, sets_handle, deletes, perform, concerns, changed, view, perform-refines,
}
use pfpsim.Debugger.CpInterface.Confirmed.{any_last, confirm_delete_entry_cases}

abbrev filled : TableEntries
filled =
    perform (sets_handle "ipv4" "10.0.0.1" "forward" 4)
      (perform (adds "ipv4" "10.0.0.1" "forward" ("port 2" ∷ []) 0) [])

perform-refines_example : view (perform (deletes "ipv4" 4) filled) "ipv4" "forward" ≡ (
    if concerns (deletes "ipv4" 4) "ipv4" "forward"
    then changed (deletes "ipv4" 4) (view filled "ipv4" "forward")
    else view filled "ipv4" "forward")
perform-refines_example = perform-refines (deletes "ipv4" 4) filled "ipv4" "forward"

confirm_delete_entry_cases_example :
    ((any_last 4 (actions_of "ipv4" filled) ≡ true) × (confirm_delete_entry "ipv4" 4 filled ≡ none))
    ⊎ ((any_last 4 (actions_of "ipv4" filled) ≡ false)
        × ((t' : TableEntries) × (confirm_delete_entry "ipv4" 4 filled ≡ some t')
            × ((tb ac : String)
                → view t' tb ac ≡ (
                    if tb == "ipv4"
                    then erase_first (has_handle 4) (view filled tb ac)
                    else view filled tb ac))))
confirm_delete_entry_cases_example = confirm_delete_entry_cases "ipv4" 4 filled
