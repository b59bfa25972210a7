-- ===== src/ControlPlane/Literals.antt =====
-- pfpsim/core/cp/grammar.y: the bytes that a literal stands for.
use pfpsim.Common.{
  ◌>>=◌, ℕ, zero, suc, ◌+◌, ◌-◌, ◌/◌, ◌%◌, Option, none, some, [], ◌∷◌, ◌++◌, if◌then◌else◌, ltb,
  leb, ℤ, pos, negsuc, length, take, replicate, to_int32,
}
use pfpsim.ControlPlane.Keys.{Bytes}

-- The last `n` bytes of a number, the highest first.
unfoldable pub big_endian : ℕ → ℕ → Bytes
big_endian zero n = []
big_endian (suc k) n = big_endian k (n / 256) ++ n % 256 ∷ []

-- `reverse_copy` of the 8 bytes of an `unsigned long long`, which stand in memory with the lowest first.
unfoldable pub raw_decimal : ℕ → Bytes
raw_decimal n = big_endian 8 n

unfoldable pub ip_addr : ℕ → ℕ → ℕ → ℕ → Bytes
ip_addr a b c d = a % 256 ∷ b % 256 ∷ c % 256 ∷ d % 256 ∷ []

abbrev pub drop : ℕ → Bytes → Bytes
drop zero bs = bs
drop (suc n) [] = []
drop (suc n) (b ∷ bs) = drop n bs

-- `std::copy` from [first, last) to `dest`, within one vector; `none` is an access out of its range.
unfoldable pub copy : ℕ → ℕ → ℕ → Bytes → Option Bytes
copy first last dest bs =
    if leb last (length bs)
    then if leb (dest + (last - first)) (length bs)
      then some
          (take dest bs ++ take (last - first) (drop first bs) ++ drop (dest + (last - first)) bs)
      else none
    else none

-- `std::abs` of a difference of two `int`.
unfoldable pub distance : ℤ → ℤ → ℕ
distance (pos a) (pos b) = if ltb a b then b - a else a - b
distance (pos a) (negsuc b) = a + suc b
distance (negsuc a) (pos b) = suc a + b
distance (negsuc a) (negsuc b) = if ltb a b then b - a else a - b

-- `std::fill` of [begin, last) with 0.
unfoldable pub fill : ℕ → Bytes → Bytes
fill last bs = replicate last 0 ++ drop last bs

-- The action for a literal with a size; `none` is an access out of the vector's range.
unfoldable pub resized : ℕ → Bytes → Option Bytes
resized newsize bytes =
    let delta = distance (to_int32 (length bytes)) (to_int32 newsize) in
    let grown = bytes ++ replicate (newsize - length bytes) 0 in
    if ltb newsize (length bytes)
    then (do moved ← copy delta (length bytes) 0 bytes; some (take newsize moved))
    else if ltb (length bytes) newsize
    then (do
      moved ← copy 0 (newsize + 1 - delta) delta grown
      some (fill (newsize + 1 - delta) moved))
    else some bytes
