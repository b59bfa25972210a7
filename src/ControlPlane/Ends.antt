-- ===== src/ControlPlane/Ends.antt =====
-- grammar.y: the fuel of a line is enough for every line.
use pfpsim.Common.{
  ℕ, zero, suc, ◌≤◌, ◌<◌, ◌≢◌, subst, Bool, true, false, List, [], ◌∷◌, ◌++◌, length, arith, none,
  some, if◌then◌else◌,
}
use pfpsim.ControlPlane.Keys.{Bytes, MatchKey}
use pfpsim.ControlPlane.Commands.{Action, Command, action, add_param}
use pfpsim.ControlPlane.Literals.{resized}
use pfpsim.ControlPlane.Grammar.{
  Token, decimal, hexadecimal, dot, quote, slash, ampersand, space, identifier, rest_of_key,
  match_key, action_params, action_spec, keys_and_action, entry, insert_entry, modify_entry,
  delete_entry, begin_transaction_word, end_transaction_word, comment, command, inserts, modifies,
  Line, blank, refused, a_command, overrun, out_of_fuel, is_line_end, finished_line, start_rule,
  parse_line, Read, read, syntax_error, out_of_range, unfinished, ◌>>=◌, raw_bytes, with_size,
  bytes,
}

-- The fuel is not what ends a part of the parser, and it leaves at most `n` tokens.
abbrev Leaves : {A : Type 0} → ℕ → Read A → Type 0
Leaves n (read a rest) = length rest ≤ n
Leaves n syntax_error = Unit {0}
Leaves n out_of_range = Unit {0}
Leaves n unfinished = ⊥

raw_bytes-Leaves : (tokens : List Token) → Leaves (length tokens) (raw_bytes tokens)
unfolding raw_bytes
raw_bytes-Leaves (decimal a ∷ dot ∷ decimal b ∷ dot ∷ decimal c ∷ dot ∷ decimal d ∷ rest) =
    omega arith
raw_bytes-Leaves (decimal a ∷ dot ∷ rest) = tt
raw_bytes-Leaves (decimal a ∷ rest) = omega arith
raw_bytes-Leaves (hexadecimal bytes ∷ rest) = omega arith
raw_bytes-Leaves _ = tt

>>=-Leaves :
    {A B : Type 0} (n k : ℕ) (r : Read A) (f : A → List Token → Read B)
    → Leaves n r
    → ((a : A) (rest : List Token) → length rest ≤ n → Leaves k (f a rest))
    → Leaves k (r >>= f)
>>=-Leaves n k (read a rest) f h next = next a rest h
>>=-Leaves n k syntax_error f h next = tt
>>=-Leaves n k out_of_range f h next = tt
>>=-Leaves n k unfinished f h next = absurd h

Leaves-more : {A : Type 0} (n k : ℕ) (r : Read A) → n ≤ k → Leaves n r → Leaves k r
Leaves-more n k (read a rest) le h = omega (arith, le, h)
Leaves-more n k syntax_error le h = tt
Leaves-more n k out_of_range le h = tt
Leaves-more n k unfinished le h = h

with_size-Leaves :
    (raw : Bytes) (tokens : List Token) → Leaves (length tokens) (with_size raw tokens)
unfolding with_size
with_size-Leaves raw (quote ∷ decimal newsize ∷ rest) =
    elim (resized newsize raw)
      as (λ r.
        Leaves (suc (suc (length rest)))
          (elim r [ none ↦ out_of_range | some resized_bytes ↦ read resized_bytes rest ])) [
            | none ↦ tt
            | some resized_bytes ↦ omega arith
          ]
with_size-Leaves raw (quote ∷ rest) = tt
with_size-Leaves raw rest = omega arith

bytes-Leaves : (tokens : List Token) → Leaves (length tokens) (bytes tokens)
unfolding bytes
bytes-Leaves tokens =
    >>=-Leaves (length tokens) (length tokens) (raw_bytes tokens) with_size
      (raw_bytes-Leaves tokens)
      (λ raw rest le. Leaves-more (length rest) (length tokens) _ le (with_size-Leaves raw rest))

rest_of_key-Leaves :
    (data_bytes : Bytes) (tokens : List Token)
    → Leaves (length tokens) (rest_of_key data_bytes tokens)
unfolding rest_of_key
rest_of_key-Leaves data_bytes (slash ∷ decimal prefix_len ∷ rest) = omega arith
rest_of_key-Leaves data_bytes (slash ∷ rest) = tt
rest_of_key-Leaves data_bytes (ampersand ∷ rest) =
    >>=-Leaves (length rest) (suc (length rest)) (bytes rest) _ (bytes-Leaves rest)
      (λ mask left le. omega (arith, le))
rest_of_key-Leaves data_bytes rest = omega arith

match_key-Leaves : (tokens : List Token) → Leaves (length tokens) (match_key tokens)
unfolding match_key
match_key-Leaves tokens =
    >>=-Leaves (length tokens) (length tokens) (bytes tokens) rest_of_key (bytes-Leaves tokens)
      (λ v rest le. Leaves-more (length rest) (length tokens) _ le (rest_of_key-Leaves v rest))

action_params-Leaves :
    (fuel : ℕ) (a : Action) (tokens : List Token)
    → length tokens < fuel
    → Leaves (length tokens) (action_params fuel a tokens)
unfolding action_params
action_params-Leaves zero a tokens h = absurd (omega arith)
action_params-Leaves (suc fuel) a (space ∷ rest) h =
    >>=-Leaves (length rest) (suc (length rest)) (bytes rest) _ (bytes-Leaves rest)
      (λ param left le.
        Leaves-more (length left) (suc (length rest)) _ (omega (arith, le))
          (action_params-Leaves fuel (add_param param a) left (omega (arith, le, h))))
action_params-Leaves (suc fuel) a rest h = omega arith

action_spec-Leaves :
    (fuel : ℕ) (tokens : List Token)
    → length tokens < fuel
    → Leaves (length tokens) (action_spec fuel tokens)
unfolding action_spec
action_spec-Leaves fuel (identifier name ∷ rest) h =
    Leaves-more (length rest) (suc (length rest)) _ (omega arith)
      (action_params-Leaves fuel (action name) rest (omega (arith, h)))
action_spec-Leaves fuel _ h = tt

keys_and_action-Leaves :
    (fuel : ℕ) (keys : List MatchKey) (tokens : List Token)
    → length tokens < fuel
    → Leaves (length tokens) (keys_and_action fuel keys tokens)
unfolding keys_and_action
keys_and_action-Leaves zero keys tokens h = absurd (omega arith)
keys_and_action-Leaves (suc fuel) keys (space ∷ identifier name ∷ rest) h =
    >>=-Leaves (length rest) (suc (suc (length rest))) (action_params fuel (action name) rest) _
      (action_params-Leaves fuel (action name) rest (omega (arith, h)))
      (λ a left le. omega (arith, le))
keys_and_action-Leaves (suc fuel) keys (space ∷ rest) h =
    >>=-Leaves (length rest) (suc (length rest)) (match_key rest) _ (match_key-Leaves rest)
      (λ k left le.
        Leaves-more (length left) (suc (length rest)) _ (omega (arith, le))
          (keys_and_action-Leaves fuel (keys ++ k ∷ []) left (omega (arith, le, h))))
keys_and_action-Leaves (suc fuel) keys _ h = tt

entry-Leaves :
    (fuel : ℕ) (tokens : List Token)
    → length tokens < fuel
    → Leaves (length tokens) (entry fuel tokens)
unfolding entry
entry-Leaves fuel (space ∷ rest) h = keys_and_action-Leaves fuel [] (space ∷ rest) h
entry-Leaves fuel tokens h =
    >>=-Leaves (length tokens) (length tokens) (match_key tokens) _ (match_key-Leaves tokens)
      (λ k left le.
        Leaves-more (length left) (length tokens) _ le
          (keys_and_action-Leaves fuel (k ∷ []) left (omega (arith, le, h))))

command-Leaves :
    (fuel : ℕ) (tokens : List Token)
    → length tokens < fuel
    → Leaves (length tokens) (command fuel tokens)
unfolding command inserts modifies
command-Leaves fuel (insert_entry ∷ space ∷ identifier table ∷ space ∷ rest) h =
    >>=-Leaves (length rest) (suc (suc (suc (suc (length rest))))) (entry fuel rest) _
      (entry-Leaves fuel rest (omega (arith, h))) (λ e left le. omega (arith, le))
command-Leaves fuel
      (modify_entry ∷ space ∷ identifier table ∷ space ∷ decimal handle ∷ space ∷ rest) h =
    >>=-Leaves (length rest) (suc (suc (suc (suc (suc (suc (length rest)))))))
      (action_spec fuel rest) _ (action_spec-Leaves fuel rest (omega (arith, h)))
      (λ a left le. omega (arith, le))
command-Leaves fuel (delete_entry ∷ space ∷ identifier table ∷ space ∷ decimal handle ∷ rest) h =
    omega arith
command-Leaves fuel (begin_transaction_word ∷ rest) h = omega arith
command-Leaves fuel (end_transaction_word ∷ rest) h = omega arith
command-Leaves fuel _ h = tt

-- A line that the fuel did not end.
abbrev IsFinished : Line → Type 0
IsFinished (a_command c) = Unit {0}
IsFinished blank = Unit {0}
IsFinished refused = Unit {0}
IsFinished overrun = Unit {0}
IsFinished out_of_fuel = ⊥

if-IsFinished :
    (b : Bool) (l r : Line) → IsFinished l → IsFinished r → IsFinished (if b then l else r)
if-IsFinished true l r hl hr = hl
if-IsFinished false l r hl hr = hr

finished_line-IsFinished : (n : ℕ) (r : Read Command) → Leaves n r → IsFinished (finished_line r)
unfolding finished_line
finished_line-IsFinished n (read c rest) h =
    if-IsFinished (is_line_end rest) (a_command c) refused tt tt
finished_line-IsFinished n syntax_error h = tt
finished_line-IsFinished n out_of_range h = tt
finished_line-IsFinished n unfinished h = h

start_rule-IsFinished :
    (fuel : ℕ) (tokens : List Token) → length tokens < fuel → IsFinished (start_rule fuel tokens)
unfolding start_rule
start_rule-IsFinished fuel (comment ∷ rest) h = if-IsFinished (is_line_end rest) blank refused tt tt
start_rule-IsFinished fuel tokens h =
    if-IsFinished (is_line_end tokens) blank (finished_line (command fuel tokens)) tt (
      finished_line-IsFinished (length tokens) (command fuel tokens) (command-Leaves fuel tokens h))

parse_line-IsFinished : (tokens : List Token) → IsFinished (parse_line tokens)
unfolding parse_line
parse_line-IsFinished (space ∷ tokens) =
    start_rule-IsFinished (suc (length tokens)) tokens (omega arith)
parse_line-IsFinished tokens = start_rule-IsFinished (suc (length tokens)) tokens (omega arith)

-- The parser ends on every line.
pub parse_line_ends : (tokens : List Token) → parse_line tokens ≢ out_of_fuel
parse_line_ends tokens e = subst IsFinished e (parse_line-IsFinished tokens)
