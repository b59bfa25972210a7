-- ===== src/ControlPlane/Written.antt =====
-- grammar.y: how a command is written out, and how long that is.
use pfpsim.Common.{
  ℕ, suc, ◌+◌, ◌≤◌, ◌<◌, Bool, true, false, some, List, [], ◌∷◌, String, length, arith,
}
use pfpsim.ControlPlane.Keys.{Bytes, MatchKey, exact_key, lpm_key, ternary_key}
use pfpsim.ControlPlane.Commands.{
  Action, Command, insert_command, modify_command, delete_command, begin_transaction,
  end_transaction,
}
use pfpsim.ControlPlane.Grammar.{
  Token, insert_entry, modify_entry, delete_entry, begin_transaction_word, end_transaction_word,
  identifier, decimal, hexadecimal, space, slash, ampersand,
}

-- A key or a parameter, its bytes in base 16, and the tokens after it.
abbrev pub written_key : MatchKey → List Token → List Token
written_key (exact_key v) rest = hexadecimal v ∷ rest
written_key (lpm_key v n) rest = hexadecimal v ∷ slash ∷ decimal n ∷ rest
written_key (ternary_key v m) rest = hexadecimal v ∷ ampersand ∷ hexadecimal m ∷ rest

abbrev pub written_keys : List MatchKey → List Token → List Token
written_keys [] rest = rest
written_keys (k ∷ ks) rest = space ∷ written_key k (written_keys ks rest)

abbrev pub written_params : List Bytes → List Token → List Token
written_params [] rest = rest
written_params (p ∷ ps) rest = space ∷ hexadecimal p ∷ written_params ps rest

abbrev pub written_action : Action → List Token → List Token
written_action a rest = identifier a.name ∷ written_params a.params rest

-- The commands that a line can have. An insertion has a key at least.
pub data Wanted : Type 0 where
  insertion : String → MatchKey → List MatchKey → Action → Wanted
  modification : String → ℕ → Action → Wanted
  deletion : String → ℕ → Wanted
  begins ends : Wanted

abbrev pub command_of : Wanted → Command
command_of (insertion table k ks a) =
    insert_command (record { table_name = table; keys = some (k ∷ ks); action = some a })
command_of (modification table handle a) =
    modify_command (record { table_name = table; handle = some handle; action = some a })
command_of (deletion table handle) =
    delete_command (record { table_name = table; handle = some handle })
command_of begins = begin_transaction ""
command_of ends = end_transaction ""

abbrev pub has_action : Wanted → Bool
has_action (insertion table k ks a) = true
has_action (modification table handle a) = true
has_action _ = false

abbrev pub written : Wanted → List Token → List Token
written (insertion table k ks a) rest =
    insert_entry
    ∷ space
    ∷ identifier table
    ∷ space
    ∷ written_key k (written_keys ks (space ∷ written_action a rest))
written (modification table handle a) rest =
    modify_entry ∷ space ∷ identifier table ∷ space ∷ decimal handle ∷ space ∷ written_action a rest
written (deletion table handle) rest =
    delete_entry ∷ space ∷ identifier table ∷ space ∷ decimal handle ∷ rest
written begins rest = begin_transaction_word ∷ rest
written ends rest = end_transaction_word ∷ rest

-- The tokens of a command are more than the fuel that it takes.
unfoldable pub size_of : Wanted → ℕ
size_of (insertion table k ks a) = length ks + suc (length a.params)
size_of (modification table handle a) = length a.params
size_of _ = 0

length-written_params :
    (ps : List Bytes) (rest : List Token)
    → length ps + length rest ≤ length (written_params ps rest)
length-written_params [] rest = omega arith
length-written_params (p ∷ ps) rest = omega (arith, length-written_params ps rest)

length-written_key : (k : MatchKey) (rest : List Token) → length rest < length (written_key k rest)
length-written_key (exact_key v) rest = omega arith
length-written_key (lpm_key v n) rest = omega arith
length-written_key (ternary_key v m) rest = omega arith

length-written_keys :
    (ks : List MatchKey) (rest : List Token)
    → length ks + length rest ≤ length (written_keys ks rest)
length-written_keys [] rest = omega arith
length-written_keys (k ∷ ks) rest =
    omega (arith, length-written_key k (written_keys ks rest), length-written_keys ks rest)

pub length-written : (w : Wanted) (end : List Token) → size_of w < length (written w end)
unfolding size_of
length-written (insertion table k ks a) end = omega (
  arith,
  length-written_key k (written_keys ks (space ∷ written_action a end)),
  length-written_keys ks (space ∷ written_action a end),
  length-written_params a.params end,
)
length-written (modification table handle a) end = omega (arith, length-written_params a.params end)
length-written (deletion table handle) end = omega arith
length-written begins end = omega arith
length-written ends end = omega arith
