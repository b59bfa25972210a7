-- ===== src/ControlPlane/Commands.antt =====
-- Commands.cpp: the commands, the results that they build, and the dispatch of a command to the handler
-- for its class. `P` is the type of shared pointers to commands.
use Prim.Native.String.{◌++◌ as ◌++s◌}
use pfpsim.Common.{◌>>=◌, ℕ, Option, some, List, [], ◌∷◌, ◌++◌, String, map, pos}
use pfpsim.Decimal.{to_string}
use pfpsim.ControlPlane.Keys.{Bytes, MatchKey, print_bytes, print_key}

pub record Action : Type 0 where
  pub name : String
  pub params : List Bytes

unfoldable pub action : String → Action
action name = record { name = name; params = [] }

unfoldable pub add_param : Bytes → Action → Action
add_param param a = record a { params = a.params ++ param ∷ [] }

-- What is printed, as its lines.
unfoldable pub print_action : Action → List String
print_action a =
    ("   Action: " ++s a.name ++s "( ")
    ∷ (map (λ p. "    " ++s print_bytes p "") a.params ++ "   )" ∷ [])

-- The pointers `keys` and `action` are null, and a handle has no value, until they are set.
pub record InsertCommand : Type 0 where
  pub table_name : String
  pub keys : Option (List MatchKey)
  pub action : Option Action

pub record ModifyCommand : Type 0 where
  pub table_name : String
  pub handle : Option ℕ
  pub action : Option Action

pub record DeleteCommand : Type 0 where
  pub table_name : String
  pub handle : Option ℕ

-- The classes that derive from Command; the last three have a table name only.
pub data Command : Type 0 where
  insert_command : InsertCommand → Command
  modify_command : ModifyCommand → Command
  delete_command : DeleteCommand → Command
  boot_complete begin_transaction end_transaction : String → Command

unfoldable pub get_table_name : Command → String
get_table_name (insert_command c) = c.table_name
get_table_name (modify_command c) = c.table_name
get_table_name (delete_command c) = c.table_name
get_table_name (boot_complete table_name) = table_name
get_table_name (begin_transaction table_name) = table_name
get_table_name (end_transaction table_name) = table_name

unfoldable pub set_table_name : String → Command → Command
set_table_name s (insert_command c) = insert_command (record c { table_name = s })
set_table_name s (modify_command c) = modify_command (record c { table_name = s })
set_table_name s (delete_command c) = delete_command (record c { table_name = s })
set_table_name s (boot_complete table_name) = boot_complete s
set_table_name s (begin_transaction table_name) = begin_transaction s
set_table_name s (end_transaction table_name) = end_transaction s

unfoldable pub set_match_keys : Option (List MatchKey) → InsertCommand → InsertCommand
set_match_keys v c = record c { keys = v }

unfoldable pub set_insert_action : Option Action → InsertCommand → InsertCommand
set_insert_action a c = record c { action = a }

unfoldable pub set_modify_action : Option Action → ModifyCommand → ModifyCommand
set_modify_action a c = record c { action = a }

unfoldable pub set_modify_handle : ℕ → ModifyCommand → ModifyCommand
set_modify_handle h c = record c { handle = some h }

unfoldable pub set_delete_handle : ℕ → DeleteCommand → DeleteCommand
set_delete_handle h c = record c { handle = some h }

-- The lines printed; `none` is the use of a null pointer or of a handle without a value.
unfoldable pub print_insert : InsertCommand → Option (List String)
print_insert c = do
  keys ← c.keys
  a ← c.action
  some (
      "Insert command!"
      ∷ ("  table: " ++s c.table_name)
      ∷ (map (λ k. "  " ++s print_key k) keys ++ print_action a))

unfoldable pub print_modify : ModifyCommand → Option (List String)
print_modify c = do
  handle ← c.handle
  a ← c.action
  some (
      "Modify command!"
      ∷ ("  table : " ++s c.table_name)
      ∷ ("  handle: " ++s to_string (pos handle))
      ∷ print_action a)

unfoldable pub print_delete : DeleteCommand → Option (List String)
print_delete c = do
  handle ← c.handle
  some (
      "Delete command!"
      ∷ ("  table : " ++s c.table_name)
      ∷ ("  handle: " ++s to_string (pos handle))
      ∷ [])

unfoldable pub print_command : Command → Option (List String)
print_command (insert_command c) = print_insert c
print_command (modify_command c) = print_modify c
print_command (delete_command c) = print_delete c
print_command (boot_complete table_name) = some ("Boot Complete Command!" ∷ [])
print_command (begin_transaction table_name) = some ("Begin Transaction Command!" ∷ [])
print_command (end_transaction table_name) = some ("End Transaction Command!" ∷ [])

-- The classes that derive from CommandResult, with the pointer to the command, which a MultiResult does
-- not have. The members of a MultiResult may be null pointers.
mutual
  pub data CommandResult (P : Type 0) : Type 0 where
    insert_result : P → ℕ → CommandResult P
    modify_result : P → CommandResult P
    delete_result : P → CommandResult P
    failed_result : P → String → CommandResult P
    multi_result : Members P → CommandResult P

  pub data Members (P : Type 0) : Type 0 where
    end : Members P
    member : CommandResult P → Members P → Members P
    null_member : Members P → Members P

module _ {P : Type 0} where
  -- `message` keeps the empty string that it is made with.
  unfoldable pub failure_result : P → CommandResult P
  failure_result this = failed_result this ""

  unfoldable pub insert_success_result : P → ℕ → CommandResult P
  insert_success_result this handle = insert_result this handle

  unfoldable pub modify_success_result : P → CommandResult P
  modify_success_result this = modify_result this

  unfoldable pub delete_success_result : P → CommandResult P
  delete_success_result this = delete_result this

-- A class that derives from CommandProcessor, by its handlers. Each gets the command that it is called
-- with and the processor's state; the result may be a null pointer.
pub record CommandProcessor (P S : Type 0) : Type 0 where
  pub process_insert : P → S → Option (CommandResult P) × S
  pub process_modify : P → S → Option (CommandResult P) × S
  pub process_delete : P → S → Option (CommandResult P) × S
  pub process_boot_complete : P → S → Option (CommandResult P) × S
  pub process_begin_transaction : P → S → Option (CommandResult P) × S
  pub process_end_transaction : P → S → Option (CommandResult P) × S

-- `accept_command` of the command `c` that the pointer `cmd` leads to.
unfoldable pub accept_command :
    {P S : Type 0} → CommandProcessor P S → P → Command → S → Option (CommandResult P) × S
accept_command p cmd (insert_command c) s = p.process_insert cmd s
accept_command p cmd (modify_command c) s = p.process_modify cmd s
accept_command p cmd (delete_command c) s = p.process_delete cmd s
accept_command p cmd (boot_complete table_name) s = p.process_boot_complete cmd s
accept_command p cmd (begin_transaction table_name) s = p.process_begin_transaction cmd s
accept_command p cmd (end_transaction table_name) s = p.process_end_transaction cmd s
