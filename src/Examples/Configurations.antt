-- ===== src/Examples/Configurations.antt =====
-- A base configuration, and one of an instance that is filled into it.
use pfpsim.Common.{◌≡◌, refl, List, [], ◌∷◌, String, map, if◌then◌else◌, ◌==◌, string_eq, arith}
use pfpsim.KeyOrder.{string_before}
use pfpsim.OrderedMap.{find, assign}
use pfpsim.Configuration.{
  done, match_and_fill, compare_structure, compare_shapes, compare_members, compare_items,
  PrimitiveType-discrete,
}
use pfpsim.Configuration.Outcomes.{Agree}
use pfpsim.Configuration.Places.{key, index, value_at, kind_at, Settled, match_and_fill-value_at}
use pfpsim.Configuration.Loading.{
  FileContent, content, missing, pfp_object, pfp_object-kind_at, load_base_configuration,
  load_instance_configuration, parse_file, erase_found, drop_as,
}
use pfpsim.Configuration.Fuel.{match_and_fill-Agree}
use pfpsim.Hierarchy.{begins_with, contains, get_parameter_from_parent}
use pfpsim.Configuration.Search.{
  ConfiguredModule, is_null, key_value, local_search, search_in_parent,
}
use pfpsim.Configuration.Parents.{
  AreConfigured, as_module, search_result, search_in_parent-get_parameter_from_parent,
}
use pfpsim.Examples.Values.{
  Value, nothing, num, str, arr, obj, nil, item, end, field, value_json, value_laws, value_depths,
  value_shape, value_equal, members, items, of_members, of_items, value_depth,
}

abbrev base : Value
base = obj (
    field "name" (str "lookup")
      (field "rates" (arr (item (num 1) (item (num 2) nil))) (field "table_size" (num 16) end)))

abbrev instance_values : Value
instance_values = obj (field "rates" (arr (item (num 1) (item (num 5) nil))) end)

abbrev filled : Value
filled = obj (
    field "name" (str "lookup")
      (field "rates" (arr (item (num 1) (item (num 5) nil))) (field "table_size" (num 16) end)))

abbrev files : String → FileContent Value
files file =
    if file == "Lookup.json"
    then content base
    else if file == "cfg/Lookup0.json"
    then content instance_values
    else missing

filled_runs : match_and_fill value_json 3 base instance_values ≡ done filled
unfolding match_and_fill compare_structure compare_shapes compare_members compare_items value_json
    value_shape members items find assign string_before PrimitiveType-discrete value_equal
    of_members of_items
filled_runs = refl

pfp_object_runs :
    pfp_object value_json files 3 "cfg/" "Lookup.json" "cfg/Lookup0.json" ≡ done filled
unfolding match_and_fill compare_structure compare_shapes compare_members compare_items value_json
    value_shape members items find assign string_before PrimitiveType-discrete value_equal
    of_members of_items pfp_object load_base_configuration load_instance_configuration parse_file
    erase_found drop_as begins_with
pfp_object_runs = refl

match_and_fill-value_at_example :
    Settled value_json
      (value_at value_json (key "rates" ∷ index 1 ∷ []) instance_values)
      (value_at value_json (key "rates" ∷ index 1 ∷ []) base)
      (value_at value_json (key "rates" ∷ index 1 ∷ []) filled)
match_and_fill-value_at_example =
    match_and_fill-value_at value_json value_laws 3 base instance_values filled filled_runs
      (key "rates" ∷ index 1 ∷ [])

pfp_object-kind_at_example :
    kind_at value_json (key "rates" ∷ index 1 ∷ []) filled
    ≡ kind_at value_json (key "rates" ∷ index 1 ∷ []) base
pfp_object-kind_at_example =
    pfp_object-kind_at value_json files value_laws 3 "cfg/" "Lookup.json" "cfg/Lookup0.json" base
      filled refl pfp_object_runs (key "rates" ∷ index 1 ∷ [])

match_and_fill-Agree_example :
    Agree
      (match_and_fill value_json 3 base instance_values)
      (match_and_fill value_json 9 base instance_values)
unfolding value_depths value_depth
match_and_fill-Agree_example =
    match_and_fill-Agree value_json value_depths 3 9 base instance_values (omega arith)
      (omega arith)

-- The parser of the pipeline has no table size of its own.
abbrev chain : List (ConfiguredModule Value)
chain =
    record { module_name = "parser"; simulation_parameters = obj (field "name" (str "parser") end) }
    ∷ record { module_name = "top"; simulation_parameters = base }
    ∷ []

chain-AreConfigured : AreConfigured value_json "table_size" chain
unfolding local_search key_value value_json value_shape members find assign string_before contains
    begins_with
chain-AreConfigured = ((nothing, refl), refl, ((num 16, refl), refl, tt))

search_in_parent-get_parameter_from_parent_example :
    search_in_parent value_json (local_search value_json "table_size") chain
    ≡ search_result value_json
        (get_parameter_from_parent "table_size" (map (as_module value_json) chain))
search_in_parent-get_parameter_from_parent_example =
    search_in_parent-get_parameter_from_parent value_json "table_size" chain chain-AreConfigured

chain_runs :
    search_in_parent value_json (local_search value_json "table_size") chain ≡ done (num 16)
unfolding search_in_parent is_null local_search key_value value_json value_shape members find assign
    string_before contains begins_with
chain_runs = refl
