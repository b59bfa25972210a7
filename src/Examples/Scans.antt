-- ===== src/Examples/Scans.antt =====
-- Lines of commands as texts.
use pfpsim.Common.{◌≡◌, ◌≢◌, refl, some, [], ◌∷◌, List, String}
use pfpsim.Hierarchy.{begins_with}
use pfpsim.ControlPlane.Keys.{lpm_key, exact_key}
use pfpsim.ControlPlane.Grammar.{
  Line, out_of_fuel, begin_transaction_word, identifier, space, a_command, parse_line, start_rule,
  finished_line, is_line_end, command,
}
use pfpsim.ControlPlane.Commands.{begin_transaction}
use pfpsim.ControlPlane.Written.{insertion, written}
use pfpsim.ControlPlane.Scanner.{
  Rule, scan, lexemes, split_at, longest, matches, any_length, newline_length, identifier_length,
  comment_length, hexadecimal_length, more_pairs, span, word, tokens_of, token_of, decimal_value,
  hexadecimal_value, xdigit_value, character,
}
use pfpsim.ControlPlane.Texts.{parse_text, parse_text_ends}
use pfpsim.ControlPlane.Scanner.Lexemes.{text_of, AreLongest, scan-AreLongest}

abbrev route_line : String
route_line = "insert_entry ipv4_lpm 0a:00:00:00/8 06:06 set_nhop 0A:00:01:01 00:01"

route_scans :
    scan route_line
    ≡ some (
        written
          (insertion "ipv4_lpm"
            (lpm_key (10 ∷ 0 ∷ 0 ∷ 0 ∷ []) 8)
            (exact_key (6 ∷ 6 ∷ []) ∷ [])
            (record { name = "set_nhop"; params = (10 ∷ 0 ∷ 1 ∷ 1 ∷ []) ∷ (0 ∷ 1 ∷ []) ∷ [] }))
          [])
unfolding scan lexemes split_at longest matches any_length newline_length identifier_length
    comment_length hexadecimal_length more_pairs span word tokens_of token_of decimal_value
    hexadecimal_value xdigit_value character begins_with
route_scans = refl

-- A reserved word is one only by itself, and a number too big for 64 bits ends the tokens.
words_scan :
    scan "insert_entry2 begin transaction 99999999999999999999 insert_entry"
    ≡ some (identifier "insert_entry2" ∷ space ∷ begin_transaction_word ∷ space ∷ [])
unfolding scan lexemes split_at longest matches any_length newline_length identifier_length
    comment_length hexadecimal_length more_pairs span word tokens_of token_of decimal_value
    hexadecimal_value xdigit_value character begins_with
words_scan = refl

-- So the line with such a number after a whole command is not refused.
too_big_accepted :
    parse_text "begin transaction 99999999999999999999" ≡ some (a_command (begin_transaction ""))
unfolding parse_text scan lexemes split_at longest matches any_length newline_length
    identifier_length comment_length hexadecimal_length more_pairs span word tokens_of token_of
    decimal_value hexadecimal_value xdigit_value character begins_with parse_line start_rule
    finished_line is_line_end command
too_big_accepted = refl

scan-AreLongest_example :
    (ls : List (Rule × String)) × (scan route_line ≡ some (tokens_of ls))
    × (text_of ls ≡ route_line)
    × AreLongest ls
scan-AreLongest_example = scan-AreLongest route_line

parse_text_ends_example : (line : Line) × (parse_text route_line ≡ some line) × (line ≢ out_of_fuel)
parse_text_ends_example = parse_text_ends route_line
