-- ===== src/Debugger/Breakpoint.antt =====
-- pfpsim/core/debugger/Breakpoint.cpp and Breakpoint.h.
pub mod Comparison
use pfpsim.Common.{
  ℕ, suc, ◌≡◌, refl, Bool, true, false, Option, none, some, List, [], ◌∷◌, String, arith, Equality,
  ◌==◌, if◌then◌else◌, string_eq, ℤ, pos, minus_one, ltb, nat_beq, ◌↔◌,
}
use pfpsim.KeyOrder.{Order}
use pfpsim.OrderedMap.{Map, find, insert}

-- `BreakpointCondition`.
pub data Condition : Type 0 where
  break_on_module_read break_on_module_write break_at_time break_on_packet_id : Condition

-- The enumeration's values, by which the map orders its keys.
abbrev pub to_ℕ : Condition → ℕ
to_ℕ break_on_module_read = 0
to_ℕ break_on_module_write = 1
to_ℕ break_at_time = 2
to_ℕ break_on_packet_id = 3

pub condition_beq_iff : (a b : Condition) → (nat_beq (to_ℕ a) (to_ℕ b) ≡ true) ↔ (a ≡ b)
condition_beq_iff a b = ground arith

pub condition_irrefl : (a : Condition) → ltb (to_ℕ a) (to_ℕ a) ≡ false
condition_irrefl a = ground arith

pub condition_trans :
    (a b c : Condition)
    → ltb (to_ℕ a) (to_ℕ b) ≡ true
    → ltb (to_ℕ b) (to_ℕ c) ≡ true
    → ltb (to_ℕ a) (to_ℕ c) ≡ true
condition_trans a b c p q = ground arith

pub condition_total :
    (a b : Condition) → ltb (to_ℕ a) (to_ℕ b) ≡ false → ltb (to_ℕ b) (to_ℕ a) ≡ false → a ≡ b
condition_total a b p q = ground arith

instance abbrev pub condition_eq : Equality Condition
condition_eq = record { equal = λ a b. nat_beq (to_ℕ a) (to_ℕ b); equal_iff = condition_beq_iff }

instance abbrev pub condition_order : Order Condition
condition_order = record {
  before = λ a b. ltb (to_ℕ a) (to_ℕ b);
  irrefl = condition_irrefl;
  trans = condition_trans;
  total = condition_total;
}

pub record Breakpoint : Type 0 where
  pub conditions : Map Condition String
  pub temp : Bool
  pub disabled : Bool
  pub id : ℤ

-- `Breakpoint(stealth)`, with the static `next_id` passed through. It counts the breakpoints made,
-- which stay below 2^31.
unfoldable pub new : Bool → ℕ → Breakpoint × ℕ
new stealth next_id =
    if stealth
    then (record { conditions = []; temp = false; disabled = false; id = minus_one }, next_id)
    else (record { conditions = []; temp = false; disabled = false; id = pos next_id }, suc next_id)

-- One round of the loop of `isEqual`: `br.conditions.at(key) != value`, or `at` throws.
agrees : Option String → String → Bool
agrees none value = false
agrees (some other) value = other == value

all_agree : Map Condition String → Map Condition String → Bool
unfolding agrees
all_agree [] others = true
all_agree ((c, value) ∷ rest) others =
    if agrees (find c others) value then all_agree rest others else false

unfoldable pub is_equal : Breakpoint → Breakpoint → Bool
unfolding all_agree
is_equal b br = all_agree b.conditions br.conditions

-- `addCondition`: a condition that the breakpoint has already keeps its first value.
unfoldable pub add_condition : Condition → String → Breakpoint → Breakpoint
add_condition c value b = record b { conditions = insert c value b.conditions }
