-- ===== src/Examples/Commands.antt =====
-- Keys and results of the control plane.
use pfpsim.Common.{ℕ, ◌≡◌, refl, none, some, List, [], ◌∷◌, ◌++◌, arith}
use pfpsim.ControlPlane.Keys.{
  lpm_key, ternary_key, print_key, print_bytes, hex_pairs, backwards, numeral,
}
use pfpsim.ControlPlane.Printed.{read_key, read_key-print_key}
use pfpsim.ControlPlane.Commands.{
  CommandResult, insert_result, delete_result, multi_result, end, member,
}
use pfpsim.ControlPlane.Results.{ResultProcessor, accept_result}
use pfpsim.ControlPlane.Flat.{flatten, handle_all, accept_result_flat}

masked_text : print_key (ternary_key (1 ∷ 10 ∷ []) (255 ∷ 0 ∷ [])) ≡ "0x0a01 & 0x00ff"
unfolding print_key print_bytes hex_pairs backwards numeral
masked_text = refl

read_key-print_key_example :
    read_key (print_key (lpm_key (0 ∷ 10 ∷ []) 24)) ≡ lpm_key (0 ∷ 10 ∷ []) 24
read_key-print_key_example =
    read_key-print_key (lpm_key (0 ∷ 10 ∷ []) 24) (omega arith, (omega arith, tt))

-- A processor that keeps the handles that it is told of, and ends the run at a failure.
abbrev handles : ResultProcessor ℕ (List ℕ)
handles = record {
  process_insert = λ command handle s. some (s ++ handle ∷ []);
  process_modify = λ command s. some s;
  process_delete = λ command s. some s;
  process_failed = λ command message s. none;
}

abbrev nested : CommandResult ℕ
nested = multi_result (
    member (insert_result 0 7)
      (member (multi_result (member (delete_result 1) (member (insert_result 2 9) end))) end))

nested_runs : accept_result handles nested [] ≡ some (7 ∷ 9 ∷ [])
unfolding accept_result
nested_runs = refl

accept_result_flat_example :
    accept_result handles nested [] ≡ handle_all handles (flatten nested) []
accept_result_flat_example = accept_result_flat handles nested []
