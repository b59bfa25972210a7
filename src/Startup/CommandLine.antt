-- ===== src/Startup/CommandLine.antt =====
-- pfpsim/core/pfp_main.cpp: the options of the command line, and the start of the simulation up to the
-- call of `pfp_main`.
use Prim.Native.Char.{code}
use pfpsim.Common.{
  ◌>>=◌, ℕ, zero, suc, Bool, true, false, Option, none, some, List, [], ◌∷◌, ◌++◌, String, ◌==◌,
  nat_eq, if◌then◌else◌, or_else,
}
use pfpsim.Startup.{
  PfpConfig, set_verbose_level, set_command_line_arg_vector, set_config_file_path,
  set_output_dir_path, set_debugger_flag,
}

-- What `getopt_long` finds, with `optarg`: the argument of `-X` may be a null pointer.
pub data Found : Type 0 where
  help debugger bad finished other : Found
  config_root verbosity output : String → Found
  user_option : Option String → Found

-- The library's reading of the command line: the next option; `argv[optind++]`, with `none` for the null
-- pointer at the end; and whether arguments are left, `optind < argc`.
pub record Getopt (G : Type 0) : Type 0 where
  pub getopt_long : G → Found × G
  pub next_argument : G → Option String × G
  pub is_left : G → Bool

-- What the loop of `parse_args` has so far.
pub record Options : Type 0 where
  pub config_root : Option String
  pub verbosity : Option String
  pub output : Option String
  pub user_args : List String
  pub debugger_enabled : Bool

abbrev pub no_options : Options
no_options = record {
  config_root = none;
  verbosity = none;
  output = none;
  user_args = [];
  debugger_enabled = false;
}

-- The values that `parse_args` gives to its reference arguments.
pub record Arguments : Type 0 where
  pub config : String
  pub verbose_level : String
  pub user_arguments : List String
  pub outputdir : String
  pub debugger_wanted : Bool

-- How parsing ends: with a value, by `exit_usage`, by the use of a null pointer, or without enough fuel.
pub data Parse (A : Type 0) : Type 0 where
  parsed : A → Parse A
  exits_usage null_pointer unfinished : Parse A

-- `std::string(optarg) + "=" + std::string(argv[optind++])`.
unfoldable pub key_value_text : String → String → String
key_value_text String.[] val = String.◌∷◌ "=" val
key_value_text (String.◌∷◌ c key) val = String.◌∷◌ c (key_value_text key val)

-- What the loop does with an option: it goes on, it is at the end, or it ends the program.
pub data Turn (G : Type 0) : Type 0 where
  goes_on ends : Options → G → Turn G
  stops_usage stops_null : Turn G

module _ {G : Type 0} (getopt : Getopt G) where
  -- The value after `-X` and its key.
  unfoldable pub user_value : String → Options → Option String × G → Turn G
  user_value key o (none, g) = stops_null
  user_value key o (some val, g) =
      goes_on (record o { user_args = o.user_args ++ key_value_text key val ∷ [] }) g

  -- An option that may be given once, with what is there of it so far.
  unfoldable pub once : Option String → Options → G → Turn G
  once none o g = goes_on o g
  once (some given) o g = stops_usage

  -- The body of the `switch`.
  unfoldable pub take_option : Options → Found → G → Turn G
  take_option o help g = stops_usage
  take_option o (config_root arg) g = once o.config_root (record o { config_root = some arg }) g
  take_option o (verbosity arg) g = once o.verbosity (record o { verbosity = some arg }) g
  take_option o (output arg) g = once o.output (record o { output = some arg }) g
  take_option o (user_option none) g = stops_null
  take_option o (user_option (some key)) g = user_value key o (getopt.next_argument g)
  take_option o debugger g = goes_on (record o { debugger_enabled = true }) g
  take_option o bad g = stops_usage
  take_option o finished g = ends o g
  take_option o other g = goes_on o g

  abbrev pub after_turn : (Options → G → Parse (Options × G)) → Turn G → Parse (Options × G)
  after_turn loop (goes_on o g) = loop o g
  after_turn loop (ends o g) = parsed (o, g)
  after_turn loop stops_usage = exits_usage
  after_turn loop stops_null = null_pointer

  -- The loop, with one unit of fuel for each option and one for the end.
  unfoldable pub parse_options : ℕ → Options → G → Parse (Options × G)
  parse_options zero o g = unfinished
  parse_options (suc fuel) o g =
      let (found, g') = getopt.getopt_long g in
      after_turn (parse_options fuel) (take_option o found g')

  -- What `parse_args` does after the loop.
  unfoldable pub with_defaults : Parse (Options × G) → Parse Arguments
  with_defaults (parsed (o, g)) =
      if getopt.is_left g
      then exits_usage
      else parsed (record {
        config = or_else o.config_root "./Configs/";
        verbose_level = or_else o.verbosity "normal";
        user_arguments = o.user_args;
        outputdir = or_else o.output "./";
        debugger_wanted = o.debugger_enabled;
      })
  with_defaults exits_usage = exits_usage
  with_defaults null_pointer = null_pointer
  with_defaults unfinished = unfinished

  unfoldable pub parse_args : ℕ → G → Parse Arguments
  parse_args fuel g = with_defaults (parse_options fuel no_options g)

-- The text, with a '/' after it if its last character is none: `rfind('/')` is the last position.
unfoldable pub with_slash : String → String
with_slash String.[] = "/"
with_slash (String.◌∷◌ c String.[]) = if code c == 47 then String.◌∷◌ c "" else String.◌∷◌ c "/"
with_slash (String.◌∷◌ c (String.◌∷◌ d s)) = String.◌∷◌ c (with_slash (String.◌∷◌ d s))

-- `pfp_elab_and_sim` up to `pfp_main`, on the settings as they are; `none` is the end of the program.
abbrev pub settings : Arguments → PfpConfig → Option PfpConfig
settings a config = set_verbose_level a.verbose_level config >>= (λ leveled.
    set_command_line_arg_vector a.user_arguments
      (set_output_dir_path a.outputdir (set_config_file_path (with_slash a.config) leveled))
    >>= (λ with_args. some (set_debugger_flag a.debugger_wanted with_args)))
