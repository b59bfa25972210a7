-- ===== src/Examples/Times.antt =====
-- Integers as the times of the examples.
use pfpsim.Common.{
  ℕ, ◌+◌, ◌-◌, ◌/◌, refl, ◌==◌, string_eq, Option, none, some, String, if◌then◌else◌, leb, ℤ, pos,
  negsuc, int_beq, int_ltb,
}
use pfpsim.KeyOrder.{int_ltb_irrefl, int_ltb_trans}
use pfpsim.Decimal.{to_string}
use pfpsim.Double.{Double, IsIeee}

abbrev difference : ℕ → ℕ → ℤ
difference a b = if leb b a then pos (a - b) else negsuc (b - a - 1)

abbrev pub int_minus : ℤ → ℤ → ℤ
int_minus (pos a) (pos b) = difference a b
int_minus (pos a) (negsuc b) = pos (a + b + 1)
int_minus (negsuc a) (pos b) = negsuc (a + b)
int_minus (negsuc a) (negsuc b) = difference b a

abbrev pub int_plus : ℤ → ℤ → ℤ
int_plus (pos a) (pos b) = pos (a + b)
int_plus (pos a) (negsuc b) = difference a (b + 1)
int_plus (negsuc a) (pos b) = difference b (a + 1)
int_plus (negsuc a) (negsuc b) = negsuc (a + b + 1)

abbrev pub int_divide : ℤ → ℤ → ℤ
int_divide (pos a) (pos b) = pos (a / b)
int_divide (pos a) (negsuc b) = pos 0
int_divide (negsuc a) b = pos 0

-- Enough of `std::stof` for the examples.
abbrev pub int_parse : String → Option ℤ
int_parse s = if s == "5" then some (pos 5) else if s == "50" then some (pos 50) else none

instance abbrev pub int_double : Double ℤ
int_double = record {
  of_int = λ i. i;
  same = int_beq;
  less = int_ltb;
  minus = int_minus;
  plus = int_plus;
  divide = int_divide;
  parse = int_parse;
  print = to_string;
}

pub int_double-IsIeee : IsIeee int_double
int_double-IsIeee = record {
  same_of_int = λ a b. refl;
  less_irrefl = int_ltb_irrefl;
  less_trans = int_ltb_trans;
}
