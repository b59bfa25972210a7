-- ===== src/KeyOrder.antt =====
-- The order of the keys of a `std::map` (`std::less` on `int` and on `std::string`).
use Prim.Native.Char.{Char, code}
use text.Mathlib.TextEquality.{Char-path}
use pfpsim.Common.{
  ◌≡◌, refl, Bool, true, false, String, arith, if◌then◌else◌, ltb, ℤ, pos, negsuc, int_ltb,
}

pub record Order {ℓ} (A : Type ℓ) : Type ℓ where
  pub before : A → A → Bool
  pub irrefl : (a : A) → before a a ≡ false
  pub trans : (a b c : A) → before a b ≡ true → before b c ≡ true → before a c ≡ true
  pub total : (a b : A) → before a b ≡ false → before b a ≡ false → a ≡ b

-- Code points are in the order of their UTF-8 bytes.
unfoldable pub string_before : String → String → Bool
string_before String.[] String.[] = false
string_before String.[] (String.◌∷◌ d t) = true
string_before (String.◌∷◌ c s) String.[] = false
string_before (String.◌∷◌ c s) (String.◌∷◌ d t) =
    let rest = string_before s t in
    if ltb (code c) (code d) then true else if ltb (code d) (code c) then false else rest

pub string_before_irrefl : (s : String) → string_before s s ≡ false
unfolding string_before
string_before_irrefl String.[] = refl
string_before_irrefl (String.◌∷◌ c s) = ground (arith, string_before_irrefl s)

pub string_before_trans :
    (s t u : String)
    → string_before s t ≡ true
    → string_before t u ≡ true
    → string_before s u ≡ true
unfolding string_before
string_before_trans String.[] String.[] u p q = cc
string_before_trans String.[] (String.◌∷◌ d t) String.[] p q = cc
string_before_trans String.[] (String.◌∷◌ d t) (String.◌∷◌ e u) p q = refl
string_before_trans (String.◌∷◌ c s) String.[] u p q = cc
string_before_trans (String.◌∷◌ c s) (String.◌∷◌ d t) String.[] p q = cc
string_before_trans (String.◌∷◌ c s) (String.◌∷◌ d t) (String.◌∷◌ e u) p q =
    ground (arith, string_before_trans s t u)

same_head : (c d : Char) (s t : String) → code c ≡ code d → s ≡ t → String.◌∷◌ c s ≡ String.◌∷◌ d t
same_head c d s t p q = λ i. String.◌∷◌ (Char-path c d p i) (q i)

pub string_before_total :
    (s t : String) → string_before s t ≡ false → string_before t s ≡ false → s ≡ t
unfolding string_before
string_before_total String.[] String.[] p q = refl
string_before_total String.[] (String.◌∷◌ d t) p q = cc
string_before_total (String.◌∷◌ c s) String.[] p q = cc
string_before_total (String.◌∷◌ c s) (String.◌∷◌ d t) p q =
    same_head c d s t (ground arith) (string_before_total s t (ground arith) (ground arith))

instance abbrev pub string_order : Order String
string_order = record {
  before = string_before;
  irrefl = string_before_irrefl;
  trans = string_before_trans;
  total = string_before_total;
}

pub int_ltb_irrefl : (a : ℤ) → int_ltb a a ≡ false
int_ltb_irrefl (pos a) = ground arith
int_ltb_irrefl (negsuc a) = ground arith

pub int_ltb_trans : (a b c : ℤ) → int_ltb a b ≡ true → int_ltb b c ≡ true → int_ltb a c ≡ true
int_ltb_trans a b c p q = ground arith

pub int_ltb_total : (a b : ℤ) → int_ltb a b ≡ false → int_ltb b a ≡ false → a ≡ b
int_ltb_total a b p q = ground arith

instance abbrev pub int_order : Order ℤ
int_order = record {
  before = int_ltb;
  irrefl = int_ltb_irrefl;
  trans = int_ltb_trans;
  total = int_ltb_total;
}
