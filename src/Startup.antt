-- ===== src/Startup.antt =====
-- pfpsim/core/PFPConfig.h and PFPConfig.cpp: the settings of the simulation, one object for the whole
-- program.
pub mod CommandLine
pub mod Arguments
pub mod Ends
pub mod Context
use Prim.Native.Char.{code}
use pfpsim.Common.{
  ◌>>=◌, ℕ, zero, suc, Bool, true, false, Option, none, some, List, [], ◌∷◌, String, ◌==◌,
  string_eq, nat_eq, if◌then◌else◌, length,
}
use pfpsim.KeyOrder.{string_order}
use pfpsim.OrderedMap.{Map, find, assign, insert}

pub data Verbosity : Type 0 where
  normal minimal p4profile profile debugger debug : Verbosity

abbrev pub verbositylevels : List String
verbositylevels = "normal" ∷ "minimal" ∷ "p4profile" ∷ "profile" ∷ "debugger" ∷ "debug" ∷ []

-- `static_cast<verbosity>`; `none` is a number of no level.
unfoldable pub level_of : ℕ → Option Verbosity
level_of zero = some normal
level_of (suc zero) = some minimal
level_of (suc (suc zero)) = some p4profile
level_of (suc (suc (suc zero))) = some profile
level_of (suc (suc (suc (suc zero)))) = some debugger
level_of (suc (suc (suc (suc (suc zero))))) = some debug
level_of _ = none

-- `verbo` and `debugger_flag` have no value until they are set.
pub record PfpConfig : Type 0 where
  pub verbo : Option Verbosity
  pub config_file_path : String
  pub output_dir_path : String
  pub arg_map : Map String String
  pub verbosity_levels_map : Map String ℕ
  pub debugger_flag : Option Bool

-- The loop of the constructor, from the index `i`.
unfoldable pub levels_from : ℕ → List String → Map String ℕ → Map String ℕ
levels_from i [] levels = levels
levels_from i (level ∷ rest) levels = levels_from (suc i) rest (insert level i levels)

-- The constructor for a vector of level names; `none` is `exit(USER_ERROR_FATAL)`.
unfoldable pub pfp_config : List String → Option PfpConfig
pfp_config levels =
    if length levels == 6
    then some (record {
      verbo = none;
      config_file_path = "";
      output_dir_path = "";
      arg_map = [];
      verbosity_levels_map = levels_from 0 levels [];
      debugger_flag = none;
    })
    else none

-- `set_verbose_level` of a level.
unfoldable pub set_verbosity : Verbosity → PfpConfig → PfpConfig
set_verbosity level config = record config { verbo = some level }

-- `set_verbose_level` of a name; `none` is `exit(USER_ERROR_FATAL)`.
unfoldable pub set_verbose_level : String → PfpConfig → Option PfpConfig
set_verbose_level verbosity_level config = do
  second ← find verbosity_level config.verbosity_levels_map
  level ← level_of second
  some (record config { verbo = some level })

-- `arg.find('=')`, and the texts before and after it.
unfoldable pub split_arg : String → Option (String × String)
split_arg String.[] = none
split_arg (String.◌∷◌ c s) =
    let rest = split_arg s in
    if code c == 61 then some ("", s) else rest >>= (λ (key, val). some (String.◌∷◌ c key, val))

-- `none` is the exception for an argument without an equals sign.
unfoldable pub set_command_line_arg_vector : List String → PfpConfig → Option PfpConfig
set_command_line_arg_vector [] config = some config
set_command_line_arg_vector (arg ∷ args) config = split_arg arg >>= (λ (key, val).
    set_command_line_arg_vector args (record config { arg_map = assign key val config.arg_map }))

-- `none` is the exception for a missing argument.
unfoldable pub get_command_line_arg : String → PfpConfig → Option String
get_command_line_arg key config = find key config.arg_map

unfoldable pub set_config_file_path : String → PfpConfig → PfpConfig
set_config_file_path path config = record config { config_file_path = path }

unfoldable pub set_output_dir_path : String → PfpConfig → PfpConfig
set_output_dir_path path config = record config { output_dir_path = path }

unfoldable pub set_debugger_flag : Bool → PfpConfig → PfpConfig
set_debugger_flag flag_value config = record config { debugger_flag = some flag_value }
