-- ===== src/Hierarchy.antt =====
-- pfpsim/core/PFPObject.cpp: a module's place in the tree of modules, `GetParameter` to
-- `ModuleHierarchy`. A module is given with its parents, up to the first without one; `J` is the type of
-- JSON values.
pub mod Names
pub mod Parameters
use Prim.Native.Char.{Char, code}
use Prim.Native.String.{◌++◌ as ◌++s◌}
use pfpsim.Common.{
  ◌>>=◌, ℕ, Bool, true, false, not, ◌&&◌, ◌||◌, Option, none, some, List, [], ◌∷◌, ◌++◌, String,
  ◌==◌, string_eq, nat_eq, if◌then◌else◌,
}

-- How `LocalSearch` ends: with a value, with the null value, or by an exception of the library, where the
-- configuration is no object.
pub data Searched (J : Type 0) : Type 0 where
  present : J → Searched J
  missing throwing : Searched J

pub record Module (J : Type 0) : Type 0 where
  pub module_name : String
  -- `SimulationParameters.LocalSearch`.
  pub local_search : String → Searched J

-- `s` begins with `t`.
unfoldable pub begins_with : String → String → Bool
begins_with s String.[] = true
begins_with String.[] (String.◌∷◌ d t) = false
begins_with (String.◌∷◌ c s) (String.◌∷◌ d t) =
    let rest = begins_with s t in if code c == code d then rest else false

-- `s.find(t) != npos`.
unfoldable pub contains : String → String → Bool
contains String.[] t = begins_with String.[] t
contains (String.◌∷◌ c s) t =
    let rest = contains s t in if begins_with (String.◌∷◌ c s) t then true else rest

module _ {J : Type 0} where
  -- `none` is the call on a null pointer.
  unfoldable pub module_hierarchy : List (Module J) → Option (List String)
  module_hierarchy [] = none
  module_hierarchy (m ∷ parents) =
      let above = module_hierarchy parents in
      if contains m.module_name "top"
      then some (m.module_name ∷ [])
      else (do result_p ← above; some (m.module_name ∷ result_p))

-- The names of `rbegin` to `rend`, put together with points between them.
abbrev pub joined_from : String → List String → String
joined_from text [] = text
joined_from text (name ∷ names) = joined_from (text ++s "." ++s name) names

abbrev pub joined : List String → String
joined [] = ""
joined (name ∷ names) = joined_from name names

abbrev pub reversed : List String → List String
reversed [] = []
reversed (name ∷ names) = reversed names ++ name ∷ []

-- `++it`, which skips the top module.
abbrev pub after_first : List String → List String
after_first [] = []
after_first (name ∷ names) = names

-- The result of a look-up: a value, a null value, an exception, or the end of the program by `exit(0)` or by
-- the use of a null pointer.
pub data Lookup (J : Type 0) : Type 0 where
  found : J → Lookup J
  null_value throws exits undefined : Lookup J

module _ {J : Type 0} where
  unfoldable pub fully_qualified_module_name : List (Module J) → Option String
  fully_qualified_module_name modules = do
    hierarchy ← module_hierarchy modules
    some (joined (after_first (reversed hierarchy)))

  -- `GetParameterfromParent`, at the first of the modules.
  unfoldable pub get_parameter_from_parent : String → List (Module J) → Lookup J
  get_parameter_from_parent param [] = undefined
  get_parameter_from_parent param (parent ∷ above) =
      let further = get_parameter_from_parent param above in
      elim (parent.local_search param) [
        | present result ↦ found result
        | throwing ↦ throws
        | missing ↦ if parent.module_name == "top" then exits else further
      ]

  unfoldable pub get_parameter : String → List (Module J) → Lookup J
  get_parameter param [] = undefined
  get_parameter param (m ∷ parents) = elim (m.local_search param) [
    | present result ↦ found result
    | throwing ↦ throws
    | missing ↦
        if m.module_name == "top" then null_value else get_parameter_from_parent param parents
  ]
