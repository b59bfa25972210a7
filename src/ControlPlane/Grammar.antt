-- ===== src/ControlPlane/Grammar.antt =====
-- pfpsim/core/cp/grammar.y: a line of tokens, as the generated parser reads it, with the actions of the
-- grammar. Where the grammar has a conflict, the parser shifts: after an action, a space must be followed
-- by a parameter.
use pfpsim.Common.{
  if◌then◌else◌, ℕ, zero, suc, Bool, true, false, none, some, List, [], ◌∷◌, ◌++◌, String, length,
}
use pfpsim.ControlPlane.Keys.{Bytes, MatchKey, exact_key, lpm_key, ternary_key}
use pfpsim.ControlPlane.Commands.{
  Action, action, add_param, InsertCommand, ModifyCommand, DeleteCommand, Command, insert_command,
  modify_command, delete_command, begin_transaction, end_transaction, set_match_keys,
  set_insert_action, set_modify_action, set_modify_handle, set_delete_handle, set_table_name,
}
use pfpsim.ControlPlane.Literals.{raw_decimal, ip_addr, resized}

-- The tokens of pfpsim/core/cp/tokens.l, with their values; `other` is any other character.
pub data Token : Type 0 where
  insert_entry modify_entry delete_entry : Token
  begin_transaction_word end_transaction_word : Token
  identifier : String → Token
  decimal : ℕ → Token
  hexadecimal : Bytes → Token
  space eol comment dot slash ampersand quote other : Token

-- What the parser does: it has a value and the tokens that are left, or it meets a syntax error, or an
-- action accesses a vector out of its range. The loops take fuel.
pub data Read (A : Type 0) : Type 0 where
  read : A → List Token → Read A
  syntax_error out_of_range unfinished : Read A

infixl 5 ◌>>=◌
abbrev pub ◌>>=◌ : {A B : Type 0} → Read A → (A → List Token → Read B) → Read B
read a rest >>= f = f a rest
syntax_error >>= f = syntax_error
out_of_range >>= f = out_of_range
unfinished >>= f = unfinished

unfoldable pub raw_bytes : List Token → Read Bytes
raw_bytes (decimal a ∷ dot ∷ decimal b ∷ dot ∷ decimal c ∷ dot ∷ decimal d ∷ rest) =
    read (ip_addr a b c d) rest
raw_bytes (decimal a ∷ dot ∷ rest) = syntax_error
raw_bytes (decimal a ∷ rest) = read (raw_decimal a) rest
raw_bytes (hexadecimal bytes ∷ rest) = read bytes rest
raw_bytes _ = syntax_error

unfoldable pub with_size : Bytes → List Token → Read Bytes
with_size raw (quote ∷ decimal newsize ∷ rest) = elim (resized newsize raw) [
  | none ↦ out_of_range
  | some bytes ↦ read bytes rest
]
with_size raw (quote ∷ rest) = syntax_error
with_size raw rest = read raw rest

unfoldable pub bytes : List Token → Read Bytes
bytes tokens = raw_bytes tokens >>= with_size

unfoldable pub rest_of_key : Bytes → List Token → Read MatchKey
rest_of_key data_bytes (slash ∷ decimal prefix_len ∷ rest) =
    read (lpm_key data_bytes prefix_len) rest
rest_of_key data_bytes (slash ∷ rest) = syntax_error
rest_of_key data_bytes (ampersand ∷ rest) =
    bytes rest >>= (λ mask rest. read (ternary_key data_bytes mask) rest)
rest_of_key data_bytes rest = read (exact_key data_bytes) rest

unfoldable pub match_key : List Token → Read MatchKey
match_key tokens = bytes tokens >>= rest_of_key

-- The parameters after the name of an action.
unfoldable pub action_params : ℕ → Action → List Token → Read Action
action_params zero a tokens = unfinished
action_params (suc fuel) a (space ∷ rest) =
    bytes rest >>= (λ param rest. action_params fuel (add_param param a) rest)
action_params (suc fuel) a rest = read a rest

unfoldable pub action_spec : ℕ → List Token → Read Action
action_spec fuel (identifier name ∷ rest) = action_params fuel (action name) rest
action_spec fuel _ = syntax_error

-- The keys and the action that follow `keys`: each space is followed by a key, and the last by the action.
unfoldable pub keys_and_action : ℕ → List MatchKey → List Token → Read (List MatchKey × Action)
keys_and_action zero keys tokens = unfinished
keys_and_action (suc fuel) keys (space ∷ identifier name ∷ rest) =
    action_params fuel (action name) rest >>= (λ a rest. read (keys, a) rest)
keys_and_action (suc fuel) keys (space ∷ rest) =
    match_key rest >>= (λ k rest. keys_and_action fuel (keys ++ k ∷ []) rest)
keys_and_action (suc fuel) keys _ = syntax_error

-- `match_keys __ action_spec`: there is no key if a second space follows.
unfoldable pub entry : ℕ → List Token → Read (List MatchKey × Action)
entry fuel (space ∷ rest) = keys_and_action fuel [] (space ∷ rest)
entry fuel tokens = match_key tokens >>= (λ k rest. keys_and_action fuel (k ∷ []) rest)

abbrev pub empty_insert : InsertCommand
empty_insert = record { table_name = ""; keys = none; action = none }

abbrev pub empty_modify : ModifyCommand
empty_modify = record { table_name = ""; handle = none; action = none }

abbrev pub empty_delete : DeleteCommand
empty_delete = record { table_name = ""; handle = none }

-- The actions of the productions for an insertion and for a modification.
unfoldable pub inserts : String → List MatchKey × Action → List Token → Read Command
inserts table (keys, a) rest =
    read
      (set_table_name table
        (insert_command (set_insert_action (some a) (set_match_keys (some keys) empty_insert))))
      rest

unfoldable pub modifies : String → ℕ → Action → List Token → Read Command
modifies table handle a rest =
    read
      (set_table_name table
        (modify_command (set_modify_action (some a) (set_modify_handle handle empty_modify))))
      rest

unfoldable pub command : ℕ → List Token → Read Command
command fuel (insert_entry ∷ space ∷ identifier table ∷ space ∷ rest) =
    entry fuel rest >>= inserts table
command fuel (modify_entry ∷ space ∷ identifier table ∷ space ∷ decimal handle ∷ space ∷ rest) =
    action_spec fuel rest >>= modifies table handle
command fuel (delete_entry ∷ space ∷ identifier table ∷ space ∷ decimal handle ∷ rest) =
    read (set_table_name table (delete_command (set_delete_handle handle empty_delete))) rest
command fuel (begin_transaction_word ∷ rest) = read (begin_transaction "") rest
command fuel (end_transaction_word ∷ rest) = read (end_transaction "") rest
command fuel _ = syntax_error

-- `optional_EOL` at the end of a line.
unfoldable pub is_line_end : List Token → Bool
is_line_end [] = true
is_line_end (space ∷ []) = true
is_line_end (eol ∷ []) = true
is_line_end (space ∷ eol ∷ []) = true
is_line_end _ = false

-- What becomes of a line. For a blank line, which may have a comment, and for one that is refused by a
-- syntax error, `parse_line` returns a null pointer.
pub data Line : Type 0 where
  a_command : Command → Line
  blank refused overrun out_of_fuel : Line

unfoldable pub finished_line : Read Command → Line
finished_line (read c rest) = if is_line_end rest then a_command c else refused
finished_line syntax_error = refused
finished_line out_of_range = overrun
finished_line unfinished = out_of_fuel

-- `startrule` after its first `optional_space`.
unfoldable pub start_rule : ℕ → List Token → Line
start_rule fuel (comment ∷ rest) = if is_line_end rest then blank else refused
start_rule fuel tokens = if is_line_end tokens then blank else finished_line (command fuel tokens)

unfoldable pub parse_line : List Token → Line
parse_line (space ∷ tokens) = start_rule (suc (length tokens)) tokens
parse_line tokens = start_rule (suc (length tokens)) tokens
