-- ===== src/Debugger/Breakpoint/Comparison.antt =====
-- What `Breakpoint::isEqual` compares: it is containment of conditions, not equality.
use pfpsim.Common.{
  ◌≡◌, refl, ◌↔◌, Bool, true, false, none, some, [], ◌∷◌, String, arith, string_eq, Option-cases,
  refute, inl, inr, ◌∙◌, ℕ,
}
use pfpsim.OrderedMap.{Map, find, find-insert, find-insert_self}
use pfpsim.OrderedMap.Sorted.{IsSorted, find-After, insert-IsSorted}
use pfpsim.Debugger.Breakpoint.{
  Condition, condition_eq, condition_order, Breakpoint, new, agrees, all_agree, is_equal,
  add_condition,
}

-- Every condition of `b` stands in `c` with the same value.
abbrev pub Contained : Map Condition String → Map Condition String → Type 0
Contained m n = (c : Condition) (v : String) → find c m ≡ some v → find c n ≡ some v

all_agree_tail :
    (d : Condition) (w : String) (m n : Map Condition String)
    → all_agree ((d, w) ∷ m) n ≡ true
    → (find d n ≡ some w) × (all_agree m n ≡ true)
unfolding all_agree agrees
all_agree_tail d w m n h = elim (Option-cases (find d n)) [
  | inl e ↦ absurd (ground arith)
  | inr (u, e) ↦ ground (arith, string_eq.equal_iff u w)
]

all_agree_cons :
    (d : Condition) (w : String) (m n : Map Condition String)
    → find d n ≡ some w
    → all_agree ((d, w) ∷ m) n ≡ all_agree m n
unfolding all_agree agrees
all_agree_cons d w m n h = ground (arith, string_eq.equal_iff w w)

all_agree-Contained : (m n : Map Condition String) → all_agree m n ≡ true → Contained m n
unfolding find
all_agree-Contained [] n h c v e = cc
all_agree-Contained ((d, w) ∷ m) n h c v e =
    let (here, rest) = all_agree_tail d w m n h in
    ground (arith, condition_eq.equal_iff c d, all_agree-Contained m n rest c v)

Contained-tail :
    (d : Condition) (w : String) (m n : Map Condition String)
    → find d m ≡ none
    → Contained ((d, w) ∷ m) n
    → Contained m n
unfolding find
Contained-tail d w m n fresh h c v e = h c v (ground (arith, condition_eq.equal_iff c d))

Contained-all_agree :
    (m n : Map Condition String) → IsSorted m → Contained m n → all_agree m n ≡ true
unfolding all_agree
Contained-all_agree [] n s h = refl
Contained-all_agree ((d, w) ∷ m) n s h =
    all_agree_cons d w m n (h d w (unfold find in ground (arith, condition_eq.equal_iff d d)))
    ∙ Contained-all_agree m n s.1 (Contained-tail d w m n (find-After d m s.0) h)

-- A breakpoint's conditions are in the order of the map they stand in.
abbrev pub IsOrdered : Breakpoint → Type 0
IsOrdered b = IsSorted b.conditions

-- `isEqual` holds exactly when every condition of the receiver is one of the argument's, with the
-- same value; the argument may have more.
pub is_equal_iff_Contained :
    (b br : Breakpoint)
    → IsOrdered b
    → (is_equal b br ≡ true) ↔ Contained b.conditions br.conditions
unfolding is_equal
is_equal_iff_Contained b br s = (
  all_agree-Contained b.conditions br.conditions,
  Contained-all_agree b.conditions br.conditions s,
)

pub new-IsOrdered : (stealth : Bool) (n : ℕ) → IsOrdered (new stealth n).0
unfolding new
new-IsOrdered true n = tt
new-IsOrdered false n = tt

pub add_condition-IsOrdered :
    (c : Condition) (v : String) (b : Breakpoint) → IsOrdered b → IsOrdered (add_condition c v b)
unfolding add_condition
add_condition-IsOrdered c v b s = insert-IsSorted c v b.conditions s

-- `isEqual` is not symmetric: a breakpoint is equal to itself with one more condition, and that one
-- is not equal to it.
pub is_equal_asymmetric :
    (c : Condition) (v : String) (b : Breakpoint)
    → IsOrdered b
    → find c b.conditions ≡ none
    → (is_equal b (add_condition c v b) ≡ true) × (is_equal (add_condition c v b) b ≡ false)
unfolding add_condition
is_equal_asymmetric c v b s fresh = (
  (is_equal_iff_Contained b _ s).1
      (λ d u e. ground (arith, find-insert d c v b.conditions, condition_eq.equal_iff d c)),
  refute (λ h.
      let e : find c b.conditions ≡ some v =
        (is_equal_iff_Contained _ b (add_condition-IsOrdered c v b s)).0 h c v
          (ground (arith, find-insert_self c v b.conditions)) in
      absurd (ground arith)),
)
