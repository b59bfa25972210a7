-- ===== src/Configuration/Loading.antt =====
-- PFPObject.cpp: a module is made from the file of its base configuration and that of its instance.
use pfpsim.Common.{
  ℕ, ◌≡◌, refl, sym, ap, ◌∙◌, List, String, if◌then◌else◌, ◌==◌, string_eq, Bool-cases, inl, inr,
}
use pfpsim.Hierarchy.{begins_with}
use pfpsim.Configuration.{Json, Outcome, done, exits_missing, throws, ◌>>=◌, match_and_fill}
use pfpsim.Configuration.Outcomes.{done_injective, bind_done}
use pfpsim.Configuration.Filled.{JsonLaws}
use pfpsim.Configuration.Places.{Step, kind_at, match_and_fill-kind_at}

-- What a file is for `ifstream` and `json::parse`: not to be opened, refused, or a value.
pub data FileContent (J : Type 0) : Type 0 where
  missing malformed : FileContent J
  content : J → FileContent J

-- The constructor of ConfigurationParameterNode from a file.
unfoldable pub parse_file : {J : Type 0} → FileContent J → Outcome J
parse_file missing = exits_missing
parse_file malformed = throws
parse_file (content j) = done j

-- `s` without as many characters as `t` has.
unfoldable pub drop_as : String → String → String
drop_as s String.[] = s
drop_as String.[] (String.◌∷◌ d t) = String.[]
drop_as (String.◌∷◌ c s) (String.◌∷◌ d t) = drop_as s t

-- `i = s.find(t)` and, if it is found, `s.erase(i, t.length())`.
unfoldable pub erase_found : String → String → String
erase_found t String.[] = String.[]
erase_found t (String.◌∷◌ c s) =
    let rest = erase_found t s in
    if begins_with (String.◌∷◌ c s) t then drop_as (String.◌∷◌ c s) t else String.◌∷◌ c rest

-- `read` gives the files, and `global_config_path` is CONFIGROOT.
module _ {J : Type 0} (json : Json J) (read : String → FileContent J) where
  unfoldable pub load_base_configuration : String → Outcome J
  load_base_configuration base_configuration_file = parse_file (read base_configuration_file)

  unfoldable pub load_instance_configuration : ℕ → String → String → J → Outcome J
  load_instance_configuration fuel global_config_path instance_configuration_file parameters =
      if erase_found global_config_path instance_configuration_file == ""
      then done parameters
      else parse_file (read instance_configuration_file)
        >>= (λ instance_parameters. match_and_fill json fuel parameters instance_parameters)

  -- The `SimulationParameters` that the constructor of a module with configuration files leaves.
  unfoldable pub pfp_object : ℕ → String → String → String → Outcome J
  pfp_object fuel global_config_path base_config_file instance_config_file =
      load_base_configuration base_config_file >>= (λ parameters.
        load_instance_configuration fuel global_config_path instance_config_file parameters)

  module _ (laws : JsonLaws json) where
    load_instance-kind_at :
        (fuel : ℕ) (global_config_path instance_configuration_file : String) (parameters j : J)
        → load_instance_configuration fuel global_config_path instance_configuration_file parameters
          ≡ done j
        → (steps : List Step) → kind_at json steps j ≡ kind_at json steps parameters
    unfolding load_instance_configuration
    load_instance-kind_at fuel root file parameters j h steps =
        let next : J → Outcome J =
          λ instance_parameters. match_and_fill json fuel parameters instance_parameters in
        elim (Bool-cases (erase_found root file == "")) [
          | inl no_file ↦
              let kept : load_instance_configuration fuel root file parameters ≡ done parameters =
                rw (load_instance_configuration, no_file) refl in
              ap (kind_at json steps) (done_injective (sym h ∙ kept))
          | inr given ↦
              let read_in : load_instance_configuration fuel root file parameters
                  ≡ (parse_file (read file) >>= next) =
                rw (load_instance_configuration, given) refl in
              let (i, parsed, filled) =
                bind_done (parse_file (read file)) next j (sym read_in ∙ h) in
              match_and_fill-kind_at json laws fuel parameters i j filled steps
        ]

    -- For a library that keeps its promises: a module that can be made from its files, where that of the
    -- base configuration is a JSON value, has a parameter at each place where the base
    -- configuration has one and nowhere else, and of the same kind: an object, an array of the same
    -- length, or a primitive value of the same type.
    pub pfp_object-kind_at :
        (fuel : ℕ) (global_config_path base_config_file instance_config_file : String) (base j : J)
        → read base_config_file ≡ content base
        → pfp_object fuel global_config_path base_config_file instance_config_file ≡ done j
        → (steps : List Step) → kind_at json steps j ≡ kind_at json steps base
    unfolding pfp_object load_base_configuration parse_file
    pfp_object-kind_at fuel root base_file instance_file base j p h steps =
        let loaded : pfp_object fuel root base_file instance_file
            ≡ load_instance_configuration fuel root instance_file base =
          rw (pfp_object, load_base_configuration, p, parse_file) refl in
        load_instance-kind_at fuel root instance_file base j (sym loaded ∙ h) steps
