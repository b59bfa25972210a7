-- ===== src/ControlPlane/ParsedBack.antt =====
-- grammar.y: a command that is written out is parsed back.
use pfpsim.Common.{
  ℕ, zero, suc, ◌+◌, ◌<◌, ◌≡◌, refl, sym, ap, ◌∙◌, List, [], ◌∷◌, ◌++◌, length, if◌then◌else◌,
  arith,
}
use mathlib.Core.List.{append_assoc, append-nil}
use pfpsim.ControlPlane.Keys.{Bytes, MatchKey, exact_key, lpm_key, ternary_key}
use pfpsim.ControlPlane.Commands.{
  Action, action, add_param, set_match_keys, set_insert_action, set_modify_action,
  set_modify_handle, set_delete_handle, set_table_name,
}
use pfpsim.ControlPlane.Grammar.{
  Token, space, Read, read, syntax_error, ◌>>=◌, raw_bytes, with_size, bytes, rest_of_key,
  match_key, action_params, action_spec, keys_and_action, entry, inserts, modifies, command,
  a_command, refused, finished_line, is_line_end, start_rule, parse_line,
}
use pfpsim.ControlPlane.Written.{
  written_key, written_keys, written_params, written_action, command_of, has_action, written,
  size_of, Wanted, insertion, modification, deletion, begins, ends, length-written,
}

with_params : Action → List Bytes → Action
with_params a ps = record a { params = a.params ++ ps }

with_params-add_param :
    (a : Action) (p : Bytes) (ps : List Bytes) (rest : List Token)
    → Read.read (with_params (add_param p a) ps) rest ≡ read (with_params a (p ∷ ps)) rest
unfolding with_params add_param
with_params-add_param a p ps rest =
    ap (λ qs. read (record a { params = qs }) rest) (append_assoc a.params (p ∷ []) ps)

with_params-nil : (a : Action) (rest : List Token) → Read.read a rest ≡ read (with_params a []) rest
unfolding with_params
with_params-nil a rest = ap (λ qs. read (record a { params = qs }) rest) (sym (append-nil a.params))

-- All parameters are read at the end of a line.
action_params_all :
    (fuel : ℕ) (a : Action) (ps : List Bytes)
    → length ps < fuel
    → action_params fuel a (written_params ps []) ≡ read (with_params a ps) []
unfolding action_params bytes raw_bytes with_size
action_params_all zero a ps h = absurd (omega arith)
action_params_all (suc fuel) a [] h = with_params-nil a []
action_params_all (suc fuel) a (p ∷ []) h =
    action_params_all fuel (add_param p a) [] (omega arith) ∙ with_params-add_param a p [] []
action_params_all (suc fuel) a (p ∷ q ∷ ps) h =
    action_params_all fuel (add_param p a) (q ∷ ps) (omega arith)
    ∙ with_params-add_param a p (q ∷ ps) []

-- A space after them is taken to begin a further one.
action_params_space :
    (fuel : ℕ) (a : Action) (ps : List Bytes)
    → length ps < fuel
    → action_params fuel a (written_params ps (space ∷ [])) ≡ syntax_error
unfolding action_params bytes raw_bytes with_size
action_params_space zero a ps h = absurd (omega arith)
action_params_space (suc fuel) a [] h = refl
action_params_space (suc fuel) a (p ∷ []) h =
    action_params_space fuel (add_param p a) [] (omega arith)
action_params_space (suc fuel) a (p ∷ q ∷ ps) h =
    action_params_space fuel (add_param p a) (q ∷ ps) (omega arith)

-- A key, where a space follows.
key_step :
    (fuel : ℕ) (keys : List MatchKey) (k : MatchKey) (rest : List Token)
    → keys_and_action (suc fuel) keys (space ∷ written_key k (space ∷ rest))
      ≡ keys_and_action fuel (keys ++ k ∷ []) (space ∷ rest)
unfolding keys_and_action match_key bytes raw_bytes with_size rest_of_key
key_step fuel keys (exact_key v) rest = refl
key_step fuel keys (lpm_key v n) rest = refl
key_step fuel keys (ternary_key v m) rest = refl

first_key :
    (fuel : ℕ) (k : MatchKey) (rest : List Token)
    → entry fuel (written_key k (space ∷ rest)) ≡ keys_and_action fuel (k ∷ []) (space ∷ rest)
unfolding entry match_key bytes raw_bytes with_size rest_of_key
first_key fuel (exact_key v) rest = refl
first_key fuel (lpm_key v n) rest = refl
first_key fuel (ternary_key v m) rest = refl

-- The keys are read, and then the action.
keys_and_action_all :
    (fuel : ℕ) (keys ks : List MatchKey) (a : Action) (end : List Token) (o : Read Action)
    → ((f : ℕ)
        → length a.params < f
        → action_params f (action a.name) (written_params a.params end) ≡ o)
    → length ks + suc (length a.params) < fuel
    → keys_and_action fuel keys (written_keys ks (space ∷ written_action a end))
      ≡ (o >>= (λ b rest. read (keys ++ ks, b) rest))
unfolding keys_and_action
keys_and_action_all zero keys ks a end o params h = absurd (omega arith)
keys_and_action_all (suc fuel) keys [] a end o params h =
    ap (λ r. r >>= (λ b rest. read (keys, b) rest)) (params fuel (omega arith))
    ∙ ap (λ qs. o >>= (λ b rest. read (qs, b) rest)) (sym (append-nil keys))
keys_and_action_all (suc fuel) keys (k ∷ []) a end o params h =
    key_step fuel keys k (written_action a end)
    ∙ keys_and_action_all fuel (keys ++ k ∷ []) [] a end o params (omega arith)
    ∙ ap (λ qs. o >>= (λ b rest. read (qs, b) rest)) (append_assoc keys (k ∷ []) [])
keys_and_action_all (suc fuel) keys (k ∷ l ∷ ks) a end o params h =
    key_step fuel keys k (written_key l (written_keys ks (space ∷ written_action a end)))
    ∙ keys_and_action_all fuel (keys ++ k ∷ []) (l ∷ ks) a end o params (omega arith)
    ∙ ap (λ qs. o >>= (λ b rest. read (qs, b) rest)) (append_assoc keys (k ∷ []) (l ∷ ks))

-- The same with the first key before them.
entry_all :
    (fuel : ℕ) (k : MatchKey) (ks : List MatchKey) (a : Action) (end : List Token) (o : Read Action)
    → ((f : ℕ)
        → length a.params < f
        → action_params f (action a.name) (written_params a.params end) ≡ o)
    → length ks + suc (length a.params) < fuel
    → entry fuel (written_key k (written_keys ks (space ∷ written_action a end)))
      ≡ (o >>= (λ b rest. read (k ∷ ks, b) rest))
entry_all fuel k [] a end o params h =
    first_key fuel k (written_action a end) ∙ keys_and_action_all fuel (k ∷ []) [] a end o params h
entry_all fuel k (l ∷ ks) a end o params h =
    first_key fuel k (written_key l (written_keys ks (space ∷ written_action a end)))
    ∙ keys_and_action_all fuel (k ∷ []) (l ∷ ks) a end o params h

-- What the parameters of an action are read as, by what follows them.
abbrev Params : Action → List Token → Read Action → Type 0
Params a end o =
    (f : ℕ)
    → length a.params < f
    → action_params f (action a.name) (written_params a.params end) ≡ o

Params-all : (a : Action) → Params a [] (read a [])
unfolding action with_params
Params-all a f h = action_params_all f (action a.name) a.params h

Params-space : (a : Action) → Params a (space ∷ []) syntax_error
Params-space a f h = action_params_space f (action a.name) a.params h

command_all :
    (fuel : ℕ) (w : Wanted)
    → size_of w < fuel
    → command fuel (written w []) ≡ read (command_of w) []
unfolding command size_of inserts modifies set_match_keys set_insert_action set_modify_action
    set_modify_handle set_delete_handle set_table_name action_spec
command_all fuel (insertion table k ks a) h =
    ap (λ r. r >>= inserts table) (entry_all fuel k ks a [] (read a []) (Params-all a) h)
command_all fuel (modification table handle a) h =
    ap (λ r. r >>= modifies table handle) (Params-all a fuel h)
command_all fuel (deletion table handle) h = refl
command_all fuel begins h = refl
command_all fuel ends h = refl

command_space :
    (fuel : ℕ) (w : Wanted)
    → size_of w < fuel
    → finished_line (command fuel (written w (space ∷ [])))
      ≡ (if has_action w then refused else a_command (command_of w))
unfolding command size_of set_delete_handle set_table_name action_spec finished_line is_line_end
command_space fuel (insertion table k ks a) h =
    ap (λ r. finished_line (r >>= inserts table))
      (entry_all fuel k ks a (space ∷ []) syntax_error (Params-space a) h)
command_space fuel (modification table handle a) h =
    ap (λ r. finished_line (r >>= modifies table handle)) (Params-space a fuel h)
command_space fuel (deletion table handle) h = refl
command_space fuel begins h = refl
command_space fuel ends h = refl

-- A written command is no blank line and has no space before it.
parse_line-written :
    (w : Wanted) (end : List Token)
    → parse_line (written w end)
      ≡ finished_line (command (suc (length (written w end))) (written w end))
unfolding parse_line start_rule is_line_end
parse_line-written (insertion table k ks a) end = refl
parse_line-written (modification table handle a) end = refl
parse_line-written (deletion table handle) end = refl
parse_line-written begins end = refl
parse_line-written ends end = refl

-- A command that is written with its bytes in base 16 is parsed back. With a space at its end, it is
-- refused if it ends with an action, and parsed back otherwise.
pub parse_line_cases :
    (w : Wanted)
    → (parse_line (written w []) ≡ a_command (command_of w))
      × (parse_line (written w (space ∷ []))
          ≡ (if has_action w then refused else a_command (command_of w)))
unfolding finished_line is_line_end
parse_line_cases w = (
  parse_line-written w []
      ∙ ap finished_line
          (command_all (suc (length (written w []))) w (omega (arith, length-written w []))),
  parse_line-written w (space ∷ [])
      ∙ command_space (suc (length (written w (space ∷ [])))) w
          (omega (arith, length-written w (space ∷ []))),
)
