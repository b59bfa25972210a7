-- ===== src/Configuration.antt =====
-- pfpsim/core/ConfigurationParameters.cpp: the parameters of a module, `CompareStructure` and
-- `MatchandFill`, which fill an instance's values into the base configuration, and the look-ups. The
-- library of JSON values is a parameter.
pub mod Outcomes
pub mod Filled
pub mod Places
pub mod Fuel
pub mod Search
pub mod Parents
pub mod Loading
use pfpsim.Common.{
  ℕ, zero, suc, ◌≡◌, Bool, true, List, [], ◌∷◌, none, some, String, if◌then◌else◌, ◌==◌, string_eq,
  nat_eq, length,
}
use Prim.Native.String.{◌++◌ as ◌++s◌}
use mathlib.Core.Logic.{ite}
use pfpsim.KeyOrder.{string_order}
use pfpsim.OrderedMap.{Map, find, assign}

-- The primitive values of `value_t`.
pub data PrimitiveType : Type 0 where
  null string boolean number_integer number_unsigned number_float : PrimitiveType

unfoldable pub PrimitiveType-discrete : Discrete PrimitiveType
PrimitiveType-discrete = hlevel

-- What a value is: `is_object`, `is_array` and `is_primitive` with `type()`. A value that the parser
-- has discarded is none of them.
pub data Shape (J : Type 0) : Type 0 where
  object : Map String J → Shape J
  array : List J → Shape J
  primitive : PrimitiveType → Shape J
  discarded : Shape J

-- What the code uses of the library: the entries of a value, by `begin`, `end`, `size` and `find`; a
-- value with other entries; `operator==`; and `json(nullptr)`.
pub record Json (J : Type 0) : Type 0 where
  pub shape : J → Shape J
  pub object_of : Map String J → J
  pub array_of : List J → J
  pub equal : J → J → Bool
  pub null_json : J

-- How a call ends: with a value, by `raiseError` with its message (`exit(EXIT_FAILURE)`), by
-- `exit(0)`, by `exit(USER_ERROR_FATAL)`, by `exit(-1)` for a file that cannot be opened, by an exception of the library, by undefined behaviour, or
-- without enough fuel.
pub data Outcome (A : Type 0) : Type 0 where
  done : A → Outcome A
  error : String → Outcome A
  exits_zero exits_fatal exits_missing throws undefined out_of_fuel : Outcome A

infixl 5 ◌>>=◌
abbrev pub ◌>>=◌ : {A B : Type 0} → Outcome A → (A → Outcome B) → Outcome B
done a >>= f = f a
error message >>= f = error message
exits_zero >>= f = exits_zero
exits_fatal >>= f = exits_fatal
exits_missing >>= f = exits_missing
throws >>= f = throws
undefined >>= f = undefined
out_of_fuel >>= f = out_of_fuel

pub record CompareResult (J : Type 0) : Type 0 where
  pub result : Bool
  pub resultobject : J

abbrev pub matched : {J : Type 0} → J → CompareResult J
matched j = record { result = true; resultobject = j }

-- A function that compares the entries of two values.
abbrev pub Compare : Type 0 → Type 0
Compare J = J → J → Outcome (CompareResult J)

-- The loop over the keys of `compare`, with `golden` as the loop changes it.
unfoldable pub compare_members :
    {J : Type 0} → Compare J → Map String J → Map String J → Outcome (Map String J)
compare_members compare_entry [] golden = done golden
compare_members compare_entry ((key, value) ∷ compare) golden = elim (find key golden) [
  | none ↦ error ("Key Not found [KVP] for key " ++s key ++s " in [test]")
  | some entry ↦ do
    result ← compare_entry value entry
    compare_members compare_entry compare (assign key result.resultobject golden)
]

-- The loop over two arrays of the same size.
unfoldable pub compare_items : {J : Type 0} → Compare J → List J → List J → Outcome (List J)
compare_items compare_entry [] golden = done golden
compare_items compare_entry (value ∷ compare) [] = done []
compare_items compare_entry (value ∷ compare) (entry ∷ golden) = do
  result ← compare_entry value entry
  rest ← compare_items compare_entry compare golden
  done (result.resultobject ∷ rest)

module _ {J : Type 0} (json : Json J) where
  -- The body of `CompareStructure`, where `compare_entry` is the recursive call.
  unfoldable pub compare_shapes : Compare J → J → J → Shape J → Shape J → Outcome (CompareResult J)
  compare_shapes compare_entry compare golden (object c) (object g) = do
    filled ← compare_members compare_entry c g
    done (matched (json.object_of filled))
  compare_shapes compare_entry compare golden (array c) (array g) =
      if length g == length c
      then (do filled ← compare_items compare_entry c g; done (matched (json.array_of filled)))
      else error "Length not same [List]"
  compare_shapes compare_entry compare golden (object c) (array g) =
      error "[JSON Lib error] Object is structured, but not an [object,array]"
  compare_shapes compare_entry compare golden (array c) (object g) =
      error "[JSON Lib error] Object is structured, but not an [object,array]"
  compare_shapes compare_entry compare golden (primitive c) (primitive g) =
      ite (PrimitiveType-discrete g c)
        (if json.equal golden compare then done (matched golden) else done (matched compare))
        (error "Primitive Value type is not the same")
  compare_shapes compare_entry compare golden _ _ = exits_zero

  unfoldable pub compare_structure : ℕ → J → J → Outcome (CompareResult J)
  compare_structure zero compare golden = out_of_fuel
  compare_structure (suc fuel) compare golden =
      compare_shapes (compare_structure fuel) compare golden (json.shape compare)
        (json.shape golden)

  -- `MatchandFill` of the node that holds `parameters`.
  unfoldable pub match_and_fill : ℕ → J → J → Outcome J
  match_and_fill fuel parameters matchagainst = do
    compareresult ← compare_structure fuel matchagainst parameters
    if compareresult.result
        then done compareresult.resultobject
        else error
            "Config File Match & Fill Internal Error - [Unreacheable state] -- Uncaught Error in Compare Structure"
