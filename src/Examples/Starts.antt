-- ===== src/Examples/Starts.antt =====
-- Command lines, and observers attached to a tree of modules.
use pfpsim.Common.{
  Bool, ℕ, ◌≡◌, refl, true, false, Option, none, some, List, [], ◌∷◌, ◌++◌, String, pos, nat_eq,
  string_eq,
}
use pfpsim.KeyOrder.{string_before}
use pfpsim.OrderedMap.{Map, find, assign, insert}
use pfpsim.Startup.{
  PfpConfig, Verbosity, debug, verbositylevels, pfp_config, levels_from, get_command_line_arg,
}
use pfpsim.Startup.CommandLine.{
  Found, finished, config_root, verbosity, user_option, Getopt, parsed, Arguments, parse_args,
  parse_options, take_option, user_value, once, with_defaults, key_value_text, settings,
}
use pfpsim.Startup.Arguments.{last_value, settings_cases}
use pfpsim.PfpObject.{
  PfpObject, notify_counter_changed, notify_counter_added, notify_counter_removed, counter_updated,
  counter_added, counter_removed,
}
use pfpsim.PfpObject.Tree.{
  ModuleTree, node, end, child, module_at, attach_observer, attach_observer_hears,
}

-- A word of a command line, as the library reads it: an option with its argument, or a plain word.
data Word : Type 0 where
  option : Found → Word
  plain : String → Word

first_found : List Word → Found × List Word
first_found [] = (finished, [])
first_found (option found ∷ ws) = (found, ws)
first_found (plain s ∷ ws) = (finished, plain s ∷ ws)

first_word : List Word → Option String × List Word
first_word [] = (none, [])
first_word (option found ∷ ws) = (some "-", ws)
first_word (plain s ∷ ws) = (some s, ws)

left_over : List Word → Bool
left_over [] = false
left_over (w ∷ ws) = true

abbrev words : Getopt (List Word)
unfolding first_found first_word left_over
words = record { getopt_long = first_found; next_argument = first_word; is_left = left_over }

-- `-Xport 80 -v debug -c ./Configs -Xport 81`.
abbrev typed : List Word
typed =
    option (user_option (some "port"))
    ∷ plain "80"
    ∷ option (verbosity "debug")
    ∷ option (config_root "./Configs")
    ∷ option (user_option (some "port"))
    ∷ plain "81"
    ∷ []

abbrev given : Arguments
given = record {
  config = "./Configs";
  verbose_level = "debug";
  user_arguments = "port=80" ∷ "port=81" ∷ [];
  outputdir = "./";
  debugger_wanted = false;
}

typed_runs : parse_args words 9 typed ≡ parsed given
unfolding parse_args parse_options take_option user_value once with_defaults key_value_text
    first_found first_word left_over
typed_runs = refl

abbrev levels : Map String ℕ
levels =
    ("debug", 5)
    ∷ ("debugger", 4)
    ∷ ("minimal", 1)
    ∷ ("normal", 0)
    ∷ ("p4profile", 2)
    ∷ ("profile", 3)
    ∷ []

abbrev fresh : Option Verbosity → PfpConfig
fresh verbo = record {
  verbo = verbo;
  config_file_path = "";
  output_dir_path = "";
  arg_map = [];
  verbosity_levels_map = levels;
  debugger_flag = none;
}

fresh_runs : pfp_config verbositylevels ≡ some (fresh none)
unfolding pfp_config levels_from insert find assign string_before
fresh_runs = refl

abbrev pairs : List (String × String)
pairs = ("port", "80") ∷ ("port", "81") ∷ []

settings_cases_example :
    (after : PfpConfig) × (settings given (fresh none) ≡ some after)
    × ((k : String)
        → get_command_line_arg k after ≡ last_value k pairs (get_command_line_arg k (fresh none)))
    × (after.verbo ≡ some debug)
    × (after.config_file_path ≡ "./Configs/")
    × (after.output_dir_path ≡ "./")
    × (after.debugger_flag ≡ some false)
unfolding key_value_text levels_from insert find assign string_before
settings_cases_example =
    settings_cases given pairs (fresh none) debug refl refl
      ((refl, (refl, (refl, (refl, tt)))), ((refl, (refl, (refl, (refl, tt)))), tt)) refl

abbrev lookup : PfpObject ℕ
lookup = record { module_name = "lookup"; counters = ("hits", 2) ∷ []; observers = 4 ∷ [] }

abbrev device : ModuleTree ℕ
device =
    node (record { module_name = "top"; counters = []; observers = [] })
      (child "lookup" (node lookup end) end)

attach_observer_hears_example :
    (q : PfpObject ℕ) × (module_at ("lookup" ∷ []) (attach_observer 6 device) ≡ some q)
    × (notify_counter_changed "hits" 3 (pos 5) q
        ≡ notify_counter_changed "hits" 3 (pos 5) lookup
          ++ counter_updated 6 "lookup" "hits" 3 (pos 5) ∷ [])
    × (notify_counter_added "hits" (pos 5) q
        ≡ notify_counter_added "hits" (pos 5) lookup
          ++ counter_added 6 "lookup" "hits" (pos 5) ∷ [])
    × (notify_counter_removed "hits" (pos 5) q
        ≡ notify_counter_removed "hits" (pos 5) lookup
          ++ counter_removed 6 "lookup" "hits" (pos 5) ∷ [])
unfolding module_at
attach_observer_hears_example =
    attach_observer_hears 6 ("lookup" ∷ []) device lookup "hits" 3 (pos 5) refl
