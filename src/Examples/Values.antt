-- ===== src/Examples/Values.antt =====
-- JSON values that the configurations of the examples are made of.
use Prim.Native.Nat.{max}
use pfpsim.Common.{
  ℕ, suc, ◌≤◌, ◌<◌, ◌≡◌, refl, sym, ap, ◌∙◌, Bool, true, false, List, [], ◌∷◌, String, ◌==◌, nat_eq,
  string_eq, arith, Has, ◌⊎◌, inl, inr, subst, Bool-cases,
}
use pfpsim.KeyOrder.{string_order}
use pfpsim.OrderedMap.{Map, assign}
use pfpsim.OrderedMap.Sorted.{IsSorted, assign-After, assign-IsSorted}
use pfpsim.Configuration.{null, string, number_unsigned, Shape, object, array, primitive, Json}
use pfpsim.Configuration.Filled.{JsonLaws}
use pfpsim.Configuration.Fuel.{Depth}

mutual
  pub data Value : Type 0 where
    nothing : Value
    num : ℕ → Value
    str : String → Value
    arr : Items → Value
    obj : Fields → Value

  pub data Items : Type 0 where
    nil : Items
    item : Value → Items → Items

  pub data Fields : Type 0 where
    end : Fields
    field : String → Value → Fields → Fields

unfoldable pub items : Items → List Value
items nil = []
items (item v vs) = v ∷ items vs

unfoldable pub of_items : List Value → Items
of_items [] = nil
of_items (v ∷ vs) = item v (of_items vs)

-- The members in the order of their keys; of two with one key, the first counts.
unfoldable pub members : Fields → Map String Value
members end = []
members (field k v fs) = assign k v (members fs)

unfoldable pub of_members : Map String Value → Fields
of_members [] = end
of_members ((k, v) ∷ m) = field k v (of_members m)

unfoldable pub value_shape : Value → Shape Value
value_shape nothing = primitive null
value_shape (num n) = primitive number_unsigned
value_shape (str s) = primitive string
value_shape (arr vs) = array (items vs)
value_shape (obj fs) = object (members fs)

-- Only primitive values are compared.
unfoldable pub value_equal : Value → Value → Bool
value_equal nothing nothing = true
value_equal (num n) (num m) = n == m
value_equal (str s) (str t) = s == t
value_equal _ _ = false

unfoldable pub value_json : Json Value
value_json = record {
  shape = value_shape;
  object_of = λ m. obj (of_members m);
  array_of = λ vs. arr (of_items vs);
  equal = value_equal;
  null_json = nothing;
}

items-of_items : (vs : List Value) → items (of_items vs) ≡ vs
unfolding items of_items
items-of_items [] = refl
items-of_items (v ∷ vs) = ap (λ ws. v ∷ ws) (items-of_items vs)

members-of_members : (m : Map String Value) → IsSorted m → members (of_members m) ≡ m
unfolding members of_members
members-of_members [] s = refl
members-of_members ((k, v) ∷ m) s =
    ap (assign k v) (members-of_members m s.1) ∙ assign-After k v m s.0

members-IsSorted : (fs : Fields) → IsSorted (members fs)
unfolding members
members-IsSorted end = tt
members-IsSorted (field k v fs) = assign-IsSorted k v (members fs) (members-IsSorted fs)

unfoldable mutual
  pub value_depth : Value → ℕ
  value_depth nothing = 0
  value_depth (num n) = 0
  value_depth (str s) = 0
  value_depth (arr vs) = suc (items_depth vs)
  value_depth (obj fs) = suc (fields_depth fs)

  pub items_depth : Items → ℕ
  items_depth nil = 0
  items_depth (item v vs) = max (value_depth v) (items_depth vs)

  pub fields_depth : Fields → ℕ
  fields_depth end = 0
  fields_depth (field k v fs) = max (value_depth v) (fields_depth fs)

items_depth-Has : (vs : Items) (v : Value) → Has v (items vs) → value_depth v ≤ items_depth vs
unfolding items items_depth
items_depth-Has nil v h = absurd h
items_depth-Has (item w vs) v (inl e) = omega (arith, ap value_depth e)
items_depth-Has (item w vs) v (inr h) = omega (arith, items_depth-Has vs v h)

Has-assign :
    (k j : String) (v w : Value) (m : Map String Value)
    → Has (j, w) (assign k v m)
    → (w ≡ v) ⊎ Has (j, w) m
unfolding assign
Has-assign k j v w [] (inl e) = inl (ap (λ p. p.1) e)
Has-assign k j v w [] (inr h) = absurd h
Has-assign k j v w ((i, u) ∷ m) h = elim (Bool-cases (k == i)) [
  | inl hit ↦
      let now : assign k v ((i, u) ∷ m) ≡ (k, v) ∷ m = rw (assign, hit) refl in
      elim (subst (Has (j, w)) now h) [ inl e ↦ inl (ap (λ p. p.1) e) | inr l ↦ inr (inr l) ]
  | inr other ↦ elim (Bool-cases (string_order.before k i)) [
    | inl first ↦
        let now : assign k v ((i, u) ∷ m) ≡ (k, v) ∷ (i, u) ∷ m = rw (assign, other, first) refl in
        elim (subst (Has (j, w)) now h) [ inl e ↦ inl (ap (λ p. p.1) e) | inr l ↦ inr l ]
    | inr further ↦
        let now : assign k v ((i, u) ∷ m) ≡ (i, u) ∷ assign k v m =
          rw (assign, other, further) refl in
        elim (subst (Has (j, w)) now h) [
          | inl e ↦ inr (inl e)
          | inr l ↦ elim (Has-assign k j v w m l) [ inl e ↦ inl e | inr l ↦ inr (inr l) ]
        ]
  ]
]

fields_depth-Has :
    (fs : Fields) (k : String) (v : Value)
    → Has (k, v) (members fs)
    → value_depth v ≤ fields_depth fs
unfolding members fields_depth
fields_depth-Has end k v h = absurd h
fields_depth-Has (field j w fs) k v h = elim (Has-assign j k w v (members fs) h) [
  | inl e ↦ omega (arith, ap value_depth e)
  | inr later ↦ omega (arith, fields_depth-Has fs k v later)
]

object_injective : {m n : Map String Value} → Shape.object m ≡ object n → m ≡ n
object_injective h = cc

array_injective : {xs ys : List Value} → Shape.array xs ≡ array ys → xs ≡ ys
array_injective h = cc

shape-IsSorted : (j : Value) (m : Map String Value) → value_shape j ≡ object m → IsSorted m
unfolding value_shape
shape-IsSorted (obj fs) m h = subst IsSorted (object_injective h) (members-IsSorted fs)
shape-IsSorted _ m h = absurd cc

pub value_laws : JsonLaws value_json
unfolding value_json value_shape
value_laws = record {
  members_IsSorted = shape-IsSorted;
  shape-object_of = λ m s. ap object (members-of_members m s);
  shape-array_of = λ xs. ap array (items-of_items xs);
}

pub member_depth :
    (j : Value) (m : Map String Value) (k : String) (v : Value)
    → value_shape j ≡ object m
    → Has (k, v) m
    → value_depth v < value_depth j
unfolding value_shape value_depth
member_depth (obj fs) m k v p h =
    omega (arith, fields_depth-Has fs k v (subst (Has (k, v)) (sym (object_injective p)) h))
member_depth _ m k v p h = absurd cc

pub item_depth :
    (j : Value) (xs : List Value) (x : Value)
    → value_shape j ≡ array xs
    → Has x xs
    → value_depth x < value_depth j
unfolding value_shape value_depth
item_depth (arr vs) xs x p h =
    omega (arith, items_depth-Has vs x (subst (Has x) (sym (array_injective p)) h))
item_depth _ xs x p h = absurd cc

unfoldable pub value_depths : Depth value_json
unfolding value_json
value_depths = record { depth = value_depth; depth_member = member_depth; depth_item = item_depth }
