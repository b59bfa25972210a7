-- ===== src/ControlPlane/Resized.antt =====
-- grammar.y: what becomes of a literal with a size.
use pfpsim.Common.{
  ◌>>=◌, ℕ, zero, suc, ◌+◌, ◌-◌, ◌/◌, ◌%◌, ◌≤◌, ◌<◌, ◌≡◌, refl, ap, ◌∙◌, true, false, none, some,
  [], ◌∷◌, ◌++◌, if◌then◌else◌, ltb, leb, pos, length, take, replicate, to_int32, length-append,
  length-replicate, arith, Bool-cases, inl, inr,
}
use pfpsim.ControlPlane.Keys.{Bytes}
use pfpsim.ControlPlane.Literals.{big_endian, raw_decimal, drop, copy, distance, resized}

to_int32_small : (n : ℕ) → n < 2147483648 → to_int32 n ≡ pos n
unfolding to_int32
to_int32_small n h = ground arith

length-drop : (n : ℕ) (bs : Bytes) → length (drop n bs) ≡ length bs - n
length-drop zero bs = omega arith
length-drop (suc n) [] = omega arith
length-drop (suc n) (b ∷ bs) = omega (arith, length-drop n bs)

take_exactly : (bs cs : Bytes) (n : ℕ) → length bs ≡ n → take n (bs ++ cs) ≡ bs
take_exactly [] cs zero h = refl
take_exactly [] cs (suc n) h = absurd (omega arith)
take_exactly (b ∷ bs) cs zero h = absurd (omega arith)
take_exactly (b ∷ bs) cs (suc n) h = ap (λ ds. b ∷ ds) (take_exactly bs cs n (omega arith))

take_whole : (bs : Bytes) (n : ℕ) → length bs ≡ n → take n bs ≡ bs
take_whole [] zero h = refl
take_whole [] (suc n) h = refl
take_whole (b ∷ bs) zero h = absurd (omega arith)
take_whole (b ∷ bs) (suc n) h = ap (λ ds. b ∷ ds) (take_whole bs n (omega arith))

-- The bytes before the last `n` go.
copy_forward :
    (n : ℕ) (bs : Bytes)
    → n < length bs
    → (copy (length bs - n) (length bs) 0 bs >>= (λ moved. some (take n moved)))
      ≡ some (drop (length bs - n) bs)
unfolding copy
copy_forward n bs h =
    let last : leb (length bs) (length bs) ≡ true = ground arith in
    let width : length bs - (length bs - n) ≡ n = omega (arith, h) in
    let fits : leb (0 + n) (length bs) ≡ true = ground (arith, h) in
    let kept = drop (length bs - n) bs in
    let size : length kept ≡ n = omega (arith, h, length-drop (length bs - n) bs) in
    rw (copy, last, width, fits)
      (ap some (
        ap (λ ks. take n (ks ++ drop (0 + n) bs)) (take_whole kept n size)
        ∙ take_exactly kept (drop (0 + n) bs) n size))

-- Copying one byte more than there is room for.
copy_beyond :
    (size delta : ℕ) (bs : Bytes) → length bs ≡ size → copy 0 (size + 1 - delta) delta bs ≡ none
unfolding copy
copy_beyond size delta bs h = elim (Bool-cases (leb (size + 1 - delta) (length bs))) [
  | inr out ↦ rw (copy, out) refl
  | inl within ↦
      let beyond : leb (delta + (size + 1 - delta - 0)) (length bs) ≡ false = ground (arith, h) in
      rw (copy, within, beyond) refl
]

distance_down :
    (size newsize : ℕ)
    → newsize < size
    → size < 2147483648
    → distance (to_int32 size) (to_int32 newsize) ≡ size - newsize
unfolding distance
distance_down size newsize h k =
    rw (to_int32_small size k, to_int32_small newsize (omega (arith, h, k))) (ground (arith, h))

-- For a literal of fewer than 2^31 bytes: a smaller size keeps the last bytes, the same size keeps all,
-- and a greater size accesses the vector out of its range.
pub resized_cases :
    (newsize : ℕ) (bytes : Bytes)
    → length bytes < 2147483648
    → resized newsize bytes
      ≡ (if ltb (length bytes) newsize then none else some (drop (length bytes - newsize) bytes))
unfolding resized
resized_cases newsize bytes h = elim (Bool-cases (ltb newsize (length bytes))) [
  | inl shrinks ↦
      let less : newsize < length bytes = ground (arith, shrinks) in
      let no_more : ltb (length bytes) newsize ≡ false = ground (arith, shrinks) in
      rw (resized, shrinks, no_more, distance_down (length bytes) newsize less h)
        (copy_forward newsize bytes less)
  | inr no_less ↦ elim (Bool-cases (ltb (length bytes) newsize)) [
    | inl grows ↦
        let delta = distance (to_int32 (length bytes)) (to_int32 newsize) in
        let grown = bytes ++ replicate (newsize - length bytes) 0 in
        let size : length grown ≡ newsize =
          length-append bytes (replicate (newsize - length bytes) 0)
          ∙ ap (λ n. length bytes + n) (length-replicate (newsize - length bytes) 0)
          ∙ ground (arith, grows) in
        rw (resized, no_less, grows, copy_beyond newsize delta grown size) refl
    | inr no_more ↦
        let same : length bytes - newsize ≡ 0 = ground (arith, no_less, no_more) in
        rw (resized, no_less, no_more, same) refl
  ]
]

length-big_endian : (k n : ℕ) → length (big_endian k n) ≡ k
unfolding big_endian
length-big_endian zero n = refl
length-big_endian (suc k) n =
    length-append (big_endian k (n / 256)) (n % 256 ∷ [])
    ∙ omega (arith, length-big_endian k (n / 256))

drop-snoc :
    (n : ℕ) (bs : Bytes) (b : ℕ) → n ≤ length bs → drop n (bs ++ b ∷ []) ≡ drop n bs ++ b ∷ []
drop-snoc zero bs b h = refl
drop-snoc (suc n) [] b h = absurd (omega arith)
drop-snoc (suc n) (c ∷ bs) b h = drop-snoc n bs b (omega arith)

drop_whole : (j : ℕ) (bs : Bytes) → length bs ≡ j → drop j bs ≡ []
drop_whole zero [] h = refl
drop_whole zero (b ∷ bs) h = absurd (omega arith)
drop_whole (suc j) [] h = refl
drop_whole (suc j) (b ∷ bs) h = drop_whole j bs (omega arith)

drop-big_endian : (j k m n : ℕ) → j + k ≡ m → drop j (big_endian m n) ≡ big_endian k n
unfolding big_endian
drop-big_endian j zero m n e =
    drop_whole j (big_endian m n) (omega (arith, e, length-big_endian m n))
drop-big_endian j (suc k) zero n e = absurd (omega arith)
drop-big_endian j (suc k) (suc m) n e =
    drop-snoc j (big_endian m (n / 256)) (n % 256) (omega (arith, e, length-big_endian m (n / 256)))
    ∙ ap (λ bs. bs ++ n % 256 ∷ []) (drop-big_endian j k m (n / 256) (omega (arith, e)))

-- A decimal literal of a size up to 8 stands for that many of its number's last bytes, the highest first;
-- a greater size accesses the vector out of its range.
pub resized-raw_decimal :
    (n newsize : ℕ)
    → resized newsize (raw_decimal n)
      ≡ (if ltb 8 newsize then none else some (big_endian newsize n))
unfolding raw_decimal
resized-raw_decimal n newsize =
    let size = length-big_endian 8 n in
    resized_cases newsize (big_endian 8 n) (omega (arith, size))
    ∙ rw size (elim (Bool-cases (ltb 8 newsize)) [
      | inl grows ↦ rw grows refl
      | inr fits ↦
          rw fits (ap some (drop-big_endian (8 - newsize) newsize 8 n (ground (arith, fits))))
    ])
