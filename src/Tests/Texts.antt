-- ===== src/Tests/Texts.antt =====
-- The parser of src/parser.c on short texts.
use libinject.Base.{
  true, not, Option, none, some, [], ◌∷◌, ◌++◌, ◌≡◌, ◌≢◌, ◌↔◌, refl, Text, codes, drop, length,
  if◌then◌else◌,
}
use libinject.Parser
use libinject.Parser.Contract.{Keeps, GoodParser, good, nil, cons, leaf, optional_branch, run-Keeps}
use libinject.Parser.Elements.{parse_space, parse_word, parse_until, word_stops}
use libinject.Parser.Errors.{run-check_status}
use libinject.Parser.Leaves.{parse_space-IsElement, parse_enum-IsElement, parse_char-IsElement}
use libinject.Runtime.{command_parser, no_command}
use libinject.Parser.Words.{parse_until-constant, at_stop}
use libinject.Parser.{Parser, Status, element, suite, negated, add, run, check_status}
use libinject.Tests.Data.{fresh_status}

-- A word and a space.
abbrev word_space : Parser (Option Text)
word_space =
    add (add Parser.init (element (parse_word (some (λ text _. text)) none))) (element parse_space)

-- The commands of src/runtime.c.
command_parser-good : GoodParser command_parser
unfolding command_parser add
command_parser-good = good (
    cons (leaf (parse_enum-IsElement _ _ _)) (
      cons (leaf (parse_char-IsElement _))
        (cons (optional_branch (good (cons (leaf parse_space-IsElement) nil))) nil)))

run-Keeps_example :
    Keeps
      (codes "add: 3 on tcp")
      (run command_parser (codes "add: 3 on tcp") suite no_command fresh_status)
run-Keeps_example =
    run-Keeps command_parser-good suite (codes "add: 3 on tcp") no_command fresh_status (λ e. cc)

run-check_status_example :
    check_status (run word_space (codes "on") suite none fresh_status).status
    ≡ not (run word_space (codes "on") suite none fresh_status).ok
unfolding run add Parser.run_parser parse_word parse_until parse_space Parser.set_status
    Parser.clear_status
run-check_status_example =
    run-check_status word_space suite (codes "on") none fresh_status (λ e. cc) refl

parse_until-constant_example :
    let r =
      parse_until {S = Unit {0}} none
        (some (codes "on"))
        32
        word_stops
        (codes "on tcp")
        tt
        fresh_status in
    ((r.ok ≡ true) ↔ (
      (codes "on" ≢ [])
      × (codes "on tcp" ≡ codes "on" ++ drop (length (codes "on")) (codes "on tcp"))
      × (at_stop (32 ∷ word_stops) (drop (length (codes "on")) (codes "on tcp")) ≡ true)))
    × (r.from ≡ (if r.ok then drop (length (codes "on")) (codes "on tcp") else codes "on tcp"))
parse_until-constant_example =
    parse_until-constant none 32 word_stops (codes "on") (codes "on tcp") tt fresh_status
