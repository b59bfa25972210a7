-- ===== src/Examples/Lines.antt =====
-- Lines of commands.
use pfpsim.Common.{◌≡◌, refl, none, some, [], ◌∷◌, if◌then◌else◌, ltb}
use pfpsim.ControlPlane.Keys.{exact_key, lpm_key}
use pfpsim.ControlPlane.Literals.{raw_decimal, big_endian, resized}
use pfpsim.ControlPlane.Resized.{resized-raw_decimal}
use pfpsim.ControlPlane.Grammar.{space, a_command, refused, parse_line}
use pfpsim.ControlPlane.Written.{Wanted, insertion, written, command_of, has_action}
use pfpsim.ControlPlane.ParsedBack.{parse_line_cases}

resized-raw_decimal_example :
    resized 2 (raw_decimal 10000) ≡ (if ltb 8 2 then none else some (big_endian 2 10000))
resized-raw_decimal_example = resized-raw_decimal 10000 2

two_bytes : big_endian 2 10000 ≡ 39 ∷ 16 ∷ []
unfolding big_endian
two_bytes = refl

abbrev route : Wanted
route =
    insertion "ipv4_lpm" (lpm_key (10 ∷ 0 ∷ 0 ∷ 0 ∷ []) 8) (exact_key (6 ∷ 6 ∷ []) ∷ [])
      (record { name = "set_nhop"; params = (10 ∷ 0 ∷ 1 ∷ 1 ∷ []) ∷ (0 ∷ 1 ∷ []) ∷ [] })

parse_line_cases_example :
    (parse_line (written route []) ≡ a_command (command_of route))
    × (parse_line (written route (space ∷ []))
        ≡ (if has_action route then refused else a_command (command_of route)))
parse_line_cases_example = parse_line_cases route
