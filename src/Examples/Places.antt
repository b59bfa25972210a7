-- ===== src/Examples/Places.antt =====
-- Modules in a tree.
use Prim.Native.String.{◌++◌ as ◌++s◌}
use pfpsim.Common.{ℕ, ◌≡◌, refl, some, [], ◌∷◌, ◌==◌, string_eq, if◌then◌else◌}
use pfpsim.Hierarchy.{
  present, missing, Module, contains, begins_with, module_hierarchy, fully_qualified_module_name,
  null_value, exits, get_parameter,
}
use pfpsim.Hierarchy.Names.{fully_qualified_module_name_cases}
use pfpsim.Hierarchy.Parameters.{first_result, result_of, get_parameter-first_result}

abbrev top : Module ℕ
top = record {
  module_name = "top";
  local_search = λ name. if name == "clock" then present 5 else missing;
}

abbrev core : Module ℕ
core = record { module_name = "core"; local_search = λ name. missing }

abbrev cache : Module ℕ
cache = record { module_name = "cache"; local_search = λ name. missing }

fully_qualified_module_name_cases_example :
    fully_qualified_module_name (cache ∷ core ∷ top ∷ [])
    ≡ some (
        if contains "cache" "top"
        then ""
        else if contains "core" "top"
        then "cache"
        else "core" ++s "." ++s "cache")
unfolding fully_qualified_module_name module_hierarchy contains begins_with
fully_qualified_module_name_cases_example =
    fully_qualified_module_name_cases cache core (top ∷ []) "core" refl

get_parameter-first_result_example :
    get_parameter "clock" (cache ∷ core ∷ top ∷ [])
    ≡ result_of
        (if cache.module_name == "top" then null_value else exits)
        (first_result "clock" (cache ∷ core ∷ top ∷ []))
get_parameter-first_result_example = get_parameter-first_result "clock" cache (core ∷ top ∷ []) refl

-- A module named "stopper" is taken for the top: its qualified name is empty.
stopper_run :
    fully_qualified_module_name
      (record { module_name = "stopper"; local_search = λ name. missing } ∷ core ∷ top ∷ [])
    ≡ some ""
unfolding fully_qualified_module_name module_hierarchy contains begins_with
stopper_run = refl
