-- ===== src/Common/Int.antt =====
-- `int` values as integers over the native numbers, under the library's names.
use Prim.Native.Nat.{ℕ, ◌+◌, ◌-◌, ◌%◌}
use mathlib.Core.Path.{◌≡◌}
use mathlib.Core.Logic.{◌↔◌}
use mathlib.Core.Bool.{Bool, true, false}
use native.Mathlib.Omega.{arith}
use pfpsim.Common.Tests.{Equality, ltb, nat_beq, if◌then◌else◌}

-- `negsuc n` is -(n + 1).
pub data ℤ : Type 0 where
  pos : ℕ → ℤ
  negsuc : ℕ → ℤ

abbrev pub minus_one : ℤ
minus_one = negsuc 0

abbrev pub int_beq : ℤ → ℤ → Bool
int_beq (pos a) (pos b) = nat_beq a b
int_beq (pos a) (negsuc b) = false
int_beq (negsuc a) (pos b) = false
int_beq (negsuc a) (negsuc b) = nat_beq a b

pub int_beq_iff : (a b : ℤ) → (int_beq a b ≡ true) ↔ (a ≡ b)
int_beq_iff (pos a) (pos b) = ground arith
int_beq_iff (pos a) (negsuc b) = ground arith
int_beq_iff (negsuc a) (pos b) = ground arith
int_beq_iff (negsuc a) (negsuc b) = ground arith

instance abbrev pub int_eq : Equality ℤ
int_eq = record { equal = int_beq; equal_iff = int_beq_iff }

-- `<` on `int`.
abbrev pub int_ltb : ℤ → ℤ → Bool
int_ltb (pos a) (pos b) = ltb a b
int_ltb (pos a) (negsuc b) = false
int_ltb (negsuc a) (pos b) = true
int_ltb (negsuc a) (negsuc b) = ltb b a

abbrev pub is_negative : ℤ → Bool
is_negative (pos n) = false
is_negative (negsuc n) = true

-- `static_cast<int>` of a `size_t`: the low 32 bits, read in two's complement.
unfoldable pub to_int32 : ℕ → ℤ
to_int32 n = let m = n % 4294967296 in if ltb m 2147483648 then pos m else negsuc (4294967295 - m)

-- `+` and `-` on `size_t`.
unfoldable pub plus64 : ℕ → ℕ → ℕ
plus64 a b = (a + b) % 18446744073709551616

unfoldable pub minus64 : ℕ → ℕ → ℕ
minus64 a b = (a + (18446744073709551616 - b)) % 18446744073709551616
