-- ===== src/Configuration/Parents.antt =====
-- ConfigurationParameters.cpp and PFPObject.cpp: the two searches through the parents of a module.
use pfpsim.Common.{
  ◌≡◌, refl, sym, ap, ◌∙◌, List, [], ◌∷◌, String, if◌then◌else◌, ◌==◌, string_eq, map, Bool-cases,
  inl, inr,
}
use pfpsim.Hierarchy.{
  Searched, present, missing, throwing, Module, contains, Lookup, found, null_value, exits,
  get_parameter_from_parent,
}
use pfpsim.Configuration.{Json, Outcome, done, exits_fatal}
use pfpsim.Configuration.Search.{ConfiguredModule, is_null, local_search, search_in_parent}

module _ {J : Type 0} (json : Json J) where
  -- How a search ends, as PFPObject.cpp looks at it.
  abbrev searched : Outcome J → Searched J
  searched (done j) = if is_null (json.shape j) then missing else present j
  searched _ = throwing

  -- The module as PFPObject.cpp looks at it.
  abbrev pub as_module : ConfiguredModule J → Module J
  as_module m = record {
    module_name = m.module_name;
    local_search = λ param. searched (local_search json param m.simulation_parameters);
  }

  -- In no module the look-up throws, and the name of each contains "top" only if that is its name.
  abbrev pub AreConfigured : String → List (ConfiguredModule J) → Type 0
  AreConfigured param [] = Unit {0}
  AreConfigured param (m ∷ ms) =
      ((j : J) × (local_search json param m.simulation_parameters ≡ done j))
      × (contains m.module_name "top" ≡ (m.module_name == "top"))
      × AreConfigured param ms

  -- The same end of a search, where a fatal exit stands for the other one.
  abbrev pub search_result : Lookup J → Outcome J
  search_result (found j) = done j
  search_result null_value = done json.null_json
  search_result Lookup.throws = Outcome.throws
  search_result exits = exits_fatal
  search_result Lookup.undefined = Outcome.undefined

  -- Where the look-up of a parameter throws in no module, and no name contains "top" but "top" itself,
  -- Searchinparent and GetParameterfromParent find the same value, and end the program for the same
  -- parameters, with different exit codes.
  pub search_in_parent-get_parameter_from_parent :
      (param : String) (modules : List (ConfiguredModule J))
      → AreConfigured param modules
      → search_in_parent json (local_search json param) modules
        ≡ search_result (get_parameter_from_parent param (map as_module modules))
  unfolding search_in_parent get_parameter_from_parent
  search_in_parent-get_parameter_from_parent param [] h = refl
  search_in_parent-get_parameter_from_parent param (m ∷ ms) ((j, e), same, h) =
      let further = search_in_parent-get_parameter_from_parent param ms h in
      elim (Bool-cases (is_null (json.shape j))) [
        | inr there ↦
            let left : search_in_parent json (local_search json param) (m ∷ ms) ≡ done j =
              rw (search_in_parent, e, there) refl in
            let right : get_parameter_from_parent param (map as_module (m ∷ ms)) ≡ found j =
              rw (get_parameter_from_parent, e, there) refl in
            left ∙ ap search_result (sym right)
        | inl is_missing ↦ elim (Bool-cases (m.module_name == "top")) [
          | inl is_top ↦
              let left : search_in_parent json (local_search json param) (m ∷ ms) ≡ exits_fatal =
                rw (search_in_parent, e, is_missing, same, is_top) refl in
              let right : get_parameter_from_parent param (map as_module (m ∷ ms)) ≡ exits =
                rw (get_parameter_from_parent, e, is_missing, is_top) refl in
              left ∙ ap search_result (sym right)
          | inr below ↦
              let left : search_in_parent json (local_search json param) (m ∷ ms)
                  ≡ search_in_parent json (local_search json param) ms =
                rw (search_in_parent, e, is_missing, same, below) refl in
              let right : get_parameter_from_parent param (map as_module (m ∷ ms))
                  ≡ get_parameter_from_parent param (map as_module ms) =
                rw (get_parameter_from_parent, e, is_missing, below) refl in
              left ∙ further ∙ ap search_result (sym right)
        ]
      ]
