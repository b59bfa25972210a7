-- ===== src/Configuration/Search.antt =====
-- ConfigurationParameters.cpp: the look-ups of a parameter by its name and by a position, in a module
-- and through its parents.
use pfpsim.Common.{
  ℕ, Bool, true, false, List, [], ◌∷◌, Option, none, some, String, if◌then◌else◌, string_eq, ltb, ℤ,
  length, get_elem?,
}
use pfpsim.OrderedMap.{find}
use pfpsim.PfpObject.{to_size}
use pfpsim.Hierarchy.{contains}
use pfpsim.Configuration.{
  Shape, null, object, array, primitive, Json, Outcome, done, exits_zero, exits_fatal, throws,
  undefined, ◌>>=◌,
}

-- A module with its `SimulationParameters`.
pub record ConfiguredModule (J : Type 0) : Type 0 where
  pub module_name : String
  pub simulation_parameters : J

-- `result == nullptr`.
unfoldable pub is_null : {J : Type 0} → Shape J → Bool
is_null (primitive null) = true
is_null _ = false

unfoldable pub size : {J : Type 0} → Shape J → ℕ
size (object m) = length m
size (array xs) = length xs
size (primitive null) = 0
size _ = 1

-- `at(position)`, which throws where the value is not an array or has no such item.
unfoldable pub at : {J : Type 0} → ℕ → Shape J → Outcome J
at position (array xs) = elim (get_elem? xs position) [ none ↦ throws | some entry ↦ done entry ]
at position _ = throws

-- The loop that looks for a key: `none` is its end, and `key()` throws for what is not an object.
unfoldable pub key_value : {J : Type 0} → String → Shape J → Outcome (Option J)
key_value param (object m) = done (find param m)
key_value param (array []) = done none
key_value param (array (x ∷ xs)) = throws
key_value param (primitive null) = done none
key_value param _ = throws

module _ {J : Type 0} (json : Json J) where
  unfoldable pub local_search : String → J → Outcome J
  local_search param parameters = do
    result ← key_value param (json.shape parameters)
    elim result [ none ↦ done json.null_json | some entry ↦ done entry ]

  -- The position is an `int`, which the comparison converts to `size_t`.
  unfoldable pub local_search_at : ℤ → J → Outcome J
  local_search_at position parameters =
      if ltb (to_size position) (size (json.shape parameters))
      then at (to_size position) (json.shape parameters)
      else done json.null_json

  -- `Searchinparent` from a module on, where `search` is `LocalSearch` for the name or the position.
  unfoldable pub search_in_parent : (J → Outcome J) → List (ConfiguredModule J) → Outcome J
  search_in_parent search [] = undefined
  search_in_parent search (current ∷ parents) =
      let further = search_in_parent search parents in
      search current.simulation_parameters >>= (λ result.
        if is_null (json.shape result)
        then if contains current.module_name "top" then exits_fatal else further
        else done result)

  -- `process` is the module of the running process with its parents, if it is a PFPObject.
  unfoldable pub hierarchal_search :
      String → J → Option (ConfiguredModule J × List (ConfiguredModule J)) → Outcome J
  hierarchal_search param parameters process =
      key_value param (json.shape parameters) >>= (λ result. elim result [
        | some entry ↦ done entry
        | none ↦ elim process [
          | none ↦ exits_zero
          | some (current, parents) ↦ search_in_parent (local_search param) parents
        ]
      ])

  unfoldable pub hierarchal_search_at :
      ℤ → J → Option (ConfiguredModule J × List (ConfiguredModule J)) → Outcome J
  hierarchal_search_at position parameters process =
      if ltb (to_size position) (size (json.shape parameters))
      then at (to_size position) (json.shape parameters)
      else elim process [
        | none ↦ exits_zero
        | some (current, parents) ↦ search_in_parent (local_search_at position) (current ∷ parents)
      ]
