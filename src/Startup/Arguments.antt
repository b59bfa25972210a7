-- ===== src/Startup/Arguments.antt =====
-- PFPConfig.cpp and pfp_main.cpp: the arguments of the simulated device, from the command line to
-- their use.
use Prim.Native.Char.{code}
use Prim.Native.String.{◌++◌ as ◌++s◌}
use Prim.Native.String.append.{nil as append_nil, cons as append_cons}
use pfpsim.Common.{
  ◌>>=◌, ◌≡◌, refl, sym, ap, ◌∙◌, Bool, false, Option, none, some, Bool-cases, Option-cases, inl,
  inr, List, [], ◌∷◌, String, ◌==◌, nat_eq, string_eq, if◌then◌else◌,
}
use pfpsim.KeyOrder.{string_order, string_before}
use pfpsim.OrderedMap.{Map, find, assign, insert, find-assign}
use pfpsim.Startup.{
  Verbosity, normal, minimal, p4profile, profile, debugger, debug, verbositylevels, level_of,
  levels_from, PfpConfig, set_verbose_level, split_arg, set_command_line_arg_vector,
  get_command_line_arg, set_config_file_path, set_output_dir_path, set_debugger_flag,
}
use pfpsim.Startup.CommandLine.{Arguments, key_value_text, with_slash, settings}

abbrev pub LacksEquals : String → Type 0
LacksEquals String.[] = Unit {0}
LacksEquals (String.◌∷◌ c s) = ((code c == 61) ≡ false) × LacksEquals s

-- Keys and values of `-X` options; no key has an equals sign.
abbrev pub AreKeys : List (String × String) → Type 0
AreKeys [] = Unit {0}
AreKeys ((key, val) ∷ pairs) = LacksEquals key × AreKeys pairs

abbrev pub texts : List (String × String) → List String
texts [] = []
texts ((key, val) ∷ pairs) = key_value_text key val ∷ texts pairs

-- The value of the last pair with the key, or what there was before.
abbrev pub last_value : String → List (String × String) → Option String → Option String
last_value k [] before = before
last_value k ((key, val) ∷ pairs) before =
    last_value k pairs (if k == key then some val else before)

split_arg-key_value_text :
    (key val : String) → LacksEquals key → split_arg (key_value_text key val) ≡ some (key, val)
unfolding split_arg key_value_text
split_arg-key_value_text String.[] val h = refl
split_arg-key_value_text (String.◌∷◌ c s) val h = rw (h.0, split_arg-key_value_text s val h.1) refl

set_command_line_arg_vector-texts :
    (pairs : List (String × String)) (config : PfpConfig)
    → AreKeys pairs
    → (m : Map String String) × (set_command_line_arg_vector (texts pairs) config
        ≡ some (record config { arg_map = m }))
      × ((k : String) → find k m ≡ last_value k pairs (find k config.arg_map))
unfolding set_command_line_arg_vector
set_command_line_arg_vector-texts [] config h = (config.arg_map, refl, λ k. refl)
set_command_line_arg_vector-texts ((key, val) ∷ pairs) config h =
    let assigned = record config { arg_map = assign key val config.arg_map } in
    let (m, made, finds) = set_command_line_arg_vector-texts pairs assigned h.1 in
    (
      m,
      rw (split_arg-key_value_text key val h.0) made,
      λ k. finds k ∙ ap (last_value k pairs) (find-assign k key val config.arg_map),
    )

-- The last character is a '/'.
abbrev pub ends_in_slash : String → Bool
ends_in_slash String.[] = false
ends_in_slash (String.◌∷◌ c String.[]) = code c == 47
ends_in_slash (String.◌∷◌ c (String.◌∷◌ d s)) = ends_in_slash (String.◌∷◌ d s)

-- The text, with a '/' put after it where it does not end in one.
abbrev pub slashed : String → String
slashed s = if ends_in_slash s then s else s ++s "/"

with_slash-slashed : (s : String) → with_slash s ≡ slashed s
unfolding with_slash
with_slash-slashed String.[] = refl
with_slash-slashed (String.◌∷◌ c String.[]) = rw (append_cons c "" "/", append_nil "/") refl
with_slash-slashed (String.◌∷◌ c (String.◌∷◌ d s)) =
    elim (Bool-cases (ends_in_slash (String.◌∷◌ d s))) [
      | inl slash ↦
          let rest : with_slash (String.◌∷◌ d s) ≡ String.◌∷◌ d s =
            with_slash-slashed (String.◌∷◌ d s) ∙ rw slash refl in
          ap (String.◌∷◌ c) rest ∙ rw slash refl
      | inr none_there ↦
          let rest : with_slash (String.◌∷◌ d s) ≡ String.◌∷◌ d s ++s "/" =
            with_slash-slashed (String.◌∷◌ d s) ∙ rw none_there refl in
          ap (String.◌∷◌ c) rest ∙ sym (append_cons c (String.◌∷◌ d s) "/") ∙ rw none_there refl
    ]

-- The names by which the levels are given.
abbrev pub name_of : Verbosity → String
name_of normal = "normal"
name_of minimal = "minimal"
name_of p4profile = "p4profile"
name_of profile = "profile"
name_of debugger = "debugger"
name_of debug = "debug"

level_found :
    (l : Verbosity)
    → (find (name_of l) (levels_from 0 verbositylevels []) >>= (λ second. level_of second)) ≡ some l
unfolding levels_from level_of find insert assign string_before
level_found normal = refl
level_found minimal = refl
level_found p4profile = refl
level_found profile = refl
level_found debugger = refl
level_found debug = refl

set_verbose_level-name_of :
    (l : Verbosity) (config : PfpConfig)
    → config.verbosity_levels_map ≡ levels_from 0 verbositylevels []
    → set_verbose_level (name_of l) config ≡ some (record config { verbo = some l })
unfolding set_verbose_level
set_verbose_level-name_of l config h =
    elim (Option-cases (find (name_of l) (levels_from 0 verbositylevels []))) [
      | inl e ↦ absurd (none_some (sym (rw e refl) ∙ level_found l))
      | inr (i, e) ↦
          let leveled : level_of i ≡ some l = sym (rw e refl) ∙ level_found l in
          rw (h, e, leveled) refl
    ]
  where
    none_some : {A : Type 0} {a : A} → none ≡ some a → ⊥
    none_some h = cc

-- Where the verbosity is the name of one of the constructor's levels and no key of an `-X` option has an
-- equals sign, the settings are made. An argument is then what the last option with its key says, or what
-- it was before; the level is the one that is named; the path of the configuration is as parsed, with a '/'
-- put after it where it does not end in one; and the output directory and the debugger's flag are as
-- parsed.
pub settings_cases :
    (a : Arguments) (pairs : List (String × String)) (config : PfpConfig) (level : Verbosity)
    → config.verbosity_levels_map ≡ levels_from 0 verbositylevels []
    → a.user_arguments ≡ texts pairs
    → AreKeys pairs
    → a.verbose_level ≡ name_of level
    → (after : PfpConfig) × (settings a config ≡ some after)
      × ((k : String)
          → get_command_line_arg k after ≡ last_value k pairs (get_command_line_arg k config))
      × (after.verbo ≡ some level)
      × (after.config_file_path ≡ slashed a.config)
      × (after.output_dir_path ≡ a.outputdir)
      × (after.debugger_flag ≡ some a.debugger_wanted)
unfolding set_config_file_path set_output_dir_path set_debugger_flag get_command_line_arg
settings_cases a pairs config level levels e keys named =
    let leveled = record config { verbo = some level } in
    let set =
      ap (λ name. set_verbose_level name config) named
      ∙ set_verbose_level-name_of level config levels in
    let placed =
      set_output_dir_path a.outputdir (set_config_file_path (with_slash a.config) leveled) in
    let (m, made, finds) = set_command_line_arg_vector-texts pairs placed keys in
    (
      set_debugger_flag a.debugger_wanted (record placed { arg_map = m }),
      rw (set, e, made) refl,
      finds,
      refl,
      with_slash-slashed a.config,
      refl,
      refl,
    )
