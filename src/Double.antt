-- ===== src/Double.antt =====
-- C++ `double`: simulation times in nanoseconds, latencies and rates. The type and its operations are
-- a parameter; the laws that hold of every IEEE value, NaN included, are named where they are used.
use pfpsim.Common.{◌≡◌, Bool, true, false, ◌||◌, ℤ, negsuc, int_beq, String, Option}

pub record Double (T : Type 0) : Type 0 where
  -- The conversion of an `int` or a `size_t`.
  pub of_int : ℤ → T
  pub same : T → T → Bool
  pub less : T → T → Bool
  pub minus : T → T → T
  pub plus : T → T → T
  pub divide : T → T → T
  -- `std::stof`, `none` where it throws, and `std::to_string`.
  pub parse : String → Option T
  pub print : T → String

-- `a >= b`.
abbrev pub at_least : {T : Type 0} ⦃d : Double T⦄ → T → T → Bool
at_least ⦃d⦄ a b = d.less b a || d.same a b

-- The value -1, which marks a time that was never set.
abbrev pub unset : {T : Type 0} ⦃d : Double T⦄ → T
unset ⦃d⦄ = d.of_int (negsuc 0)

-- Integers convert exactly, so equality and order of their images are those of the integers; and
-- `<` is a strict order on all values.
pub record IsIeee {T : Type 0} (d : Double T) : Type 0 where
  pub same_of_int : (a b : ℤ) → d.same (d.of_int a) (d.of_int b) ≡ int_beq a b
  pub less_irrefl : (a : T) → d.less a a ≡ false
  pub less_trans : (a b c : T) → d.less a b ≡ true → d.less b c ≡ true → d.less a c ≡ true
