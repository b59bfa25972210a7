-- ===== src/Startup/Ends.antt =====
-- pfp_main.cpp: the loop over the options ends.
use pfpsim.Common.{
  ℕ, zero, suc, ◌≤◌, ◌<◌, ◌≡◌, ◌≢◌, refl, Option, none, some, ◌⊎◌, inl, inr, arith, String,
}
use pfpsim.Startup.CommandLine.{
  Found, help, debugger, bad, finished, other, config_root, verbosity, output, user_option, Getopt,
  Options, Turn, goes_on, ends, stops_usage, stops_null, Parse, parsed, exits_usage, null_pointer,
  unfinished, user_value, take_option, after_turn, parse_options, parse_args, no_options, once,
  with_defaults,
}

-- The library goes on in the command line with each option, and back never.
pub record Counted {G : Type 0} (getopt : Getopt G) : Type 0 where
  pub remaining : G → ℕ
  pub advances :
      (g : G)
      → ((getopt.getopt_long g).0 ≡ finished) ⊎ (remaining (getopt.getopt_long g).1 < remaining g)
  pub keeps : (g : G) → remaining (getopt.next_argument g).1 ≤ remaining g

module _ {G : Type 0} (getopt : Getopt G) (counted : Counted getopt) where
  -- A turn that goes on leaves at most `n` arguments.
  LeavesAtMost : ℕ → Turn G → Type 0
  LeavesAtMost n (goes_on o g) = counted.remaining g ≤ n
  LeavesAtMost n _ = Unit {0}

  user_value-LeavesAtMost :
      (key : String) (o : Options) (n : ℕ) (next : Option String × G)
      → counted.remaining next.1 ≤ n
      → LeavesAtMost n (user_value getopt key o next)
  unfolding user_value LeavesAtMost
  user_value-LeavesAtMost key o n (none, g) h = tt
  user_value-LeavesAtMost key o n (some val, g) h = h

  once-LeavesAtMost :
      (given : Option String) (o : Options) (g : G)
      → LeavesAtMost (counted.remaining g) (once getopt given o g)
  unfolding once LeavesAtMost
  once-LeavesAtMost none o g = omega arith
  once-LeavesAtMost (some c) o g = tt

  take_option-LeavesAtMost :
      (o : Options) (found : Found) (g : G)
      → LeavesAtMost (counted.remaining g) (take_option getopt o found g)
  unfolding take_option LeavesAtMost
  take_option-LeavesAtMost o help g = tt
  take_option-LeavesAtMost o (config_root arg) g = once-LeavesAtMost o.config_root _ g
  take_option-LeavesAtMost o (verbosity arg) g = once-LeavesAtMost o.verbosity _ g
  take_option-LeavesAtMost o (output arg) g = once-LeavesAtMost o.output _ g
  take_option-LeavesAtMost o (user_option none) g = tt
  take_option-LeavesAtMost o (user_option (some key)) g =
      user_value-LeavesAtMost key o (counted.remaining g) (getopt.next_argument g) (counted.keeps g)
  take_option-LeavesAtMost o debugger g = omega arith
  take_option-LeavesAtMost o bad g = tt
  take_option-LeavesAtMost o finished g = tt
  take_option-LeavesAtMost o other g = omega arith

  after_turn_ends :
      (loop : Options → G → Parse (Options × G)) (n : ℕ) (turn : Turn G)
      → LeavesAtMost n turn
      → ((o : Options) (g : G) → counted.remaining g ≤ n → loop o g ≢ unfinished)
      → after_turn getopt loop turn ≢ unfinished
  unfolding LeavesAtMost
  after_turn_ends loop n (goes_on o g) h next = next o g h
  after_turn_ends loop n (ends o g) h next = λ e. cc
  after_turn_ends loop n stops_usage h next = λ e. cc
  after_turn_ends loop n stops_null h next = λ e. cc

  parse_options_ends :
      (fuel : ℕ) (o : Options) (g : G)
      → counted.remaining g < fuel
      → parse_options getopt fuel o g ≢ unfinished
  unfolding parse_options
  parse_options_ends zero o g h = absurd (omega arith)
  parse_options_ends (suc fuel) o g h = elim (counted.advances g) [
    | inl e ↦ rw e (unfold take_option in (λ e. cc))
    | inr less ↦
        after_turn_ends (parse_options getopt fuel) (counted.remaining (getopt.getopt_long g).1) _
          (take_option-LeavesAtMost o (getopt.getopt_long g).0 (getopt.getopt_long g).1)
          (λ o g le. parse_options_ends fuel o g (omega arith))
  ]

  with_defaults_ends :
      (p : Parse (Options × G)) → p ≢ unfinished → with_defaults getopt p ≢ unfinished
  unfolding with_defaults
  with_defaults_ends (parsed (o, g)) h = λ e. ground (arith, e)
  with_defaults_ends exits_usage h = λ e. cc
  with_defaults_ends null_pointer h = λ e. cc
  with_defaults_ends unfinished h = λ e. h refl

  -- With fuel above the number of arguments that remain, the parsing of the command line ends: by the
  -- values it finds, by the message about usage, or by the use of a null pointer.
  pub parse_args_ends :
      (fuel : ℕ) (g : G) → counted.remaining g < fuel → parse_args getopt fuel g ≢ unfinished
  unfolding parse_args
  parse_args_ends fuel g h =
      with_defaults_ends (parse_options getopt fuel no_options g)
        (parse_options_ends fuel no_options g h)
