-- ===== src/Config.antt =====
-- `Config_init` of src/conffile.c: the file of rules and settings. The file is a text, `none` where
-- it cannot be opened; a read error does not happen. `raw` is what the fresh line buffer holds and
-- `memory` what the memory of a fresh rule does. Rules proves.
pub mod Rules
use libinject.Base.{
  ℕ, zero, suc, ◌+◌, Bool, true, false, not, ◌&&◌, ◌||◌, Option, none, some, List, [], ◌∷◌, ◌++◌,
  ◌==◌, if◌then◌else◌, Text, text_eq, codes, length, ℤ, pos,
}
use libinject.Outcome.{Outcome, done, fault, null_pointer, out_of_fuel, ◌>>=◌}
use libinject.Parser
use libinject.Parser.Elements.{
  parse_word, parse_space, parse_eob, parse_enum, parse_char, parse_line, is_space,
}
use libinject.Parser.Numbers.{parse_int}
use libinject.Parser.{
  Status, ParserStatus, ParserElement, Parsed, Parser, element, sub, suite, first, optional, add,
  clear_status,
}
use libinject.Queue
use libinject.Queue.{ActionQueue}
use libinject.Read.Arguments.{Beyond}
use libinject.Read.Hosts.{Resolver}
use libinject.Read.{action_init}
use libinject.Rule.{Action}

pub data Section : Type 0 where
  unknown rules runtime : Section

-- `enum RuntimeType`, with the value 2000 of the name `command`.
pub data RuntimeType : Type 0 where
  no_source tcp_source udp_source pipe_source command_name : RuntimeType

pub record Config : Type 0 where
  pub queue : ActionQueue
  pub type : RuntimeType
  pub port : ℤ
  pub file : Option Text
  pub command : Option Text

-- What the parsers of `Config_init` write: the section, and the static variables. `crashed` tells
-- that an address was used that is none.
pub record Locals : Type 0 where
  pub section : Section
  pub type : RuntimeType
  pub port : ℤ
  pub read_file : Option Text
  pub crashed : Bool

-- `Parse_word` on the constant `';'`, a character in place of a string.
abbrev bad_constant : ParserElement Locals
bad_constant from l status = record {
  ok = false;
  from = from;
  dest = record l { crashed = true };
  status = status;
}

pub comment_parser : Parser Locals
comment_parser =
    add (add Parser.init (element parse_space))
      (sub optional (add (add Parser.init (element bad_constant)) (element (parse_line none none))))

-- `Config_parse_comment`
unfoldable pub parse_comment : ParserElement Locals
unfolding comment_parser
parse_comment from l status = Parser.run comment_parser from optional l status

abbrev section_names : List (Text × Section)
section_names = (codes "Rules", rules) ∷ (codes "Runtime", runtime) ∷ []

pub section_parser : Parser Locals
section_parser =
    let name = parse_enum section_names unknown (λ s l. record l { section = s }) in
    add
      (add
        (add (add (add Parser.init (element (parse_char (b'[' ∷ [])))) (element name))
          (element (parse_char (b']' ∷ []))))
        (element parse_comment))
      (element parse_eob)

abbrev source_names : List (Text × RuntimeType)
source_names =
    (codes "tcp", tcp_source)
    ∷ (codes "udp", udp_source)
    ∷ (codes "pipe", pipe_source)
    ∷ (codes "command", command_name)
    ∷ []

pub runtime_parser : Parser Locals
runtime_parser =
    let name = parse_enum source_names no_source (λ t l. record l { type = t }) in
    let port = parse_int (λ n l. record l { port = n }) in
    let file = parse_word (some (λ t l. record l { read_file = t })) none in
    add
      (add (add (add Parser.init (element name)) (element (parse_char (b':' ∷ []))))
        (sub first (add (add Parser.init (element port)) (element file))))
      (element parse_comment)

-- What `fgets` gives: the line, what is left of the file, and whether it met the end of the file.
pub record Line : Type 0 where
  pub got : Text
  pub rest : Text
  pub at_end : Bool

-- `fgets(line, 1023, f)`: up to 1022 characters, and no more than one line.
unfoldable pub fgets : ℕ → Text → Line
fgets zero file = record { got = []; rest = file; at_end = false }
fgets (suc room) [] = record { got = []; rest = []; at_end = true }
fgets (suc room) (c ∷ file) =
    let r = fgets room file in
    if c == b'\n'
    then record { got = c ∷ []; rest = file; at_end = false }
    else record r { got = c ∷ r.got }

abbrev drop_spaces : Text → Text
drop_spaces [] = []
drop_spaces (c ∷ cs) =
    let rest = drop_spaces cs in
    elim rest [ [] ↦ if is_space c then [] else c ∷ [] | d ∷ ds ↦ c ∷ d ∷ ds ]

-- `while (len > 0 && isspace(line[len - 1])) line[--len] = '\0'`
unfoldable pub trim_end : Text → Text
trim_end line = drop_spaces line

-- `command` is that of the program, if the file names one.
abbrev is_for : Text → Option Text → Bool
is_for program none = true
is_for program (some name) = text_eq name program

abbrev starts_with : ℕ → Text → Bool
starts_with c [] = false
starts_with c (d ∷ ds) = d == c

abbrev fresh_status : Status
fresh_status = some (record { str = record { function = ""; error = "" }; pos = none })

-- What is kept from line to line.
pub record Reading : Type 0 where
  pub config : Config
  pub locals : Locals

module _ (resolver : Resolver) (beyond : Beyond) (time : ℕ) (memory : Action) where
  abbrev with_queue : Reading → ActionQueue → Reading
  with_queue r q = record r { config = record r.config { queue = q } }

  -- A line of the rules: `none` for an error.
  unfoldable pub rule_line : Text → Reading → Outcome (Option Reading)
  rule_line line r =
      let a = (action_init resolver beyond time memory line fresh_status).0 in
      Queue.put r.config.queue a true false >>= λ p.
      done (if p.0 then some (with_queue r p.1) else none)

  abbrev parsed_or_crashed : Parsed Locals → Reading → (Locals → Reading) → Outcome (Option Reading)
  parsed_or_crashed p r next =
      if p.dest.crashed
      then fault null_pointer
      else done (if p.ok then some (next p.dest) else none)

  unfoldable pub section_line : Text → Reading → Outcome (Option Reading)
  unfolding section_parser
  section_line line r =
      parsed_or_crashed (Parser.run section_parser line suite r.locals fresh_status) r
        (λ l. record r { locals = l })

  abbrev is_command : RuntimeType → Bool
  is_command command_name = true
  is_command _ = false

  abbrev set_source : Locals → Config → Config
  set_source l c =
      if is_command l.type
      then record c { command = l.read_file }
      else record c { type = l.type; port = l.port; file = l.read_file }

  unfoldable pub runtime_line : Text → Reading → Outcome (Option Reading)
  unfolding runtime_parser
  runtime_line line r =
      parsed_or_crashed (Parser.run runtime_parser line suite r.locals fresh_status) r
        (λ l. record { config = set_source l r.config; locals = record l { read_file = none } })

  abbrev line_of_section : Section → Text → Reading → Outcome (Option Reading)
  line_of_section rules line r = rule_line line r
  line_of_section runtime line r = runtime_line line r
  line_of_section unknown line r = done (some r)

  -- One line, without the space at its end.
  unfoldable pub config_line : Text → Reading → Outcome (Option Reading)
  config_line line r =
      if length line == 0 || starts_with b';' line
      then done (some r)
      else if starts_with b'[' line
      then section_line line r
      else line_of_section r.locals.section line r

  -- The loop `while (!feof(f))`: where `fgets` reads nothing the buffer keeps its last line.
  unfoldable pub config_lines : ℕ → Text → Text → Reading → Outcome (Option Reading)
  config_lines zero buffer file r = fault out_of_fuel
  config_lines (suc rounds) buffer file r =
      let l = fgets 1022 file in
      let line = trim_end (if length l.got == 0 then buffer else l.got) in
      config_line line r >>= λ o. elim o [
        | none ↦ done none
        | some r' ↦ elim l.at_end [
          | true ↦ done (some r')
          | false ↦ config_lines rounds line l.rest r'
        ]
      ]

  -- The state before the first line; `port` and `raw` are what the memory happens to hold.
  abbrev start : ℤ → Reading
  start port = record {
    config = record {
      queue = Queue.init 2000;
      type = no_source;
      port = port;
      file = none;
      command = none;
    };
    locals = record {
      section = rules;
      type = no_source;
      port = pos 0;
      read_file = none;
      crashed = false;
    };
  }

  abbrev finished : Text → Option Reading → Option Config
  finished program none = none
  finished program (some r) = if is_for program r.config.command then some r.config else none

  -- `Config_init`
  unfoldable pub config_init : Text → ℤ → Text → Option Text → Outcome (Option Config)
  unfolding config_lines
  config_init program port raw none = done none
  config_init program port raw (some file) =
      config_lines (length file + 1) raw file (start port) >>= λ o. done (finished program o)
