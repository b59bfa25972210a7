-- ===== src/ControlPlane/Texts.antt =====
-- CommandParser.ih: from the text of a line to what becomes of it.
use pfpsim.Common.{◌>>=◌, ◌≡◌, ◌≢◌, refl, Option, some, String}
use pfpsim.ControlPlane.Grammar.{Line, out_of_fuel, parse_line}
use pfpsim.ControlPlane.Ends.{parse_line_ends}
use pfpsim.ControlPlane.Scanner.{tokens_of, scan}
use pfpsim.ControlPlane.Scanner.Lexemes.{scan-AreLongest}

-- `CommandParser::parse_line` of a text: the parser takes its tokens from the scanner.
unfoldable pub parse_text : String → Option Line
parse_text text = scan text >>= (λ tokens. some (parse_line tokens))

-- Every text of a line is parsed to an end: the fuel of the scanner and that of the parser are enough. It
-- becomes a command, or blank, or is refused, or overruns a literal's bytes.
pub parse_text_ends :
    (text : String) → (line : Line) × (parse_text text ≡ some line) × (line ≢ out_of_fuel)
unfolding parse_text
parse_text_ends text =
    let (ls, e, whole, longests) = scan-AreLongest text in
    (parse_line (tokens_of ls), rw e refl, parse_line_ends (tokens_of ls))
