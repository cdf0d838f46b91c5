-- ===== src/Parser.antt =====
-- src/parser.c and src/parser.h: the status, the tree of parser pieces and its run. A position in
-- the string is the text that is left from there; `dest` is the structure that the elements fill,
-- which keeps what a failed element has written. `malloc` and `realloc` are taken to succeed.
-- The children: Elements has the leaves, Numbers `Parse_int`; Contract, Words and Errors prove.
pub mod Elements
pub mod Numbers
pub mod Contract
pub mod Words
pub mod Errors
pub mod Leaves
use Prim.Native.String.{String}
use libinject.Base.{
  ℕ, suc, ◌*◌, Bool, true, false, not, Option, none, some, ◌==◌, if◌then◌else◌, Text,
}

-- `snprintf`'s arguments for the error string: `__FUNCTION__` and the text.
pub record Message : Type 0 where
  pub function : String
  pub error : String

pub record ParserStatus : Type 0 where
  pub str : Message
  pub pos : Option Text

-- A `ParserStatus*`, which may be NULL.
abbrev pub Status : Type 0
Status = Option ParserStatus

-- `ParserStatus_set`
unfoldable pub set_status : Status → Text → Message → Bool → Status
set_status none where_ error force = none
set_status (some s) where_ error force =
    let new : ParserStatus = record { str = error; pos = some where_ } in
    elim s.pos [ none ↦ some new | some old ↦ if force then some new else some s ]

-- `ParserStatus_clear`
unfoldable pub clear_status : Status → Status
clear_status none = none
clear_status (some s) = some (record s { pos = none })

abbrev is_set : Option Text → Bool
is_set none = false
is_set (some p) = true

-- `ParserStatus_check`
unfoldable pub check_status : Status → Bool
check_status none = false
check_status (some s) = is_set s.pos

-- What an element returns: its result, `*from`, the structure behind `dest`, the status.
pub record Parsed {ℓ} (S : Type ℓ) : Type ℓ where
  pub ok : Bool
  pub from : Text
  pub dest : S
  pub status : Status

abbrev pub ParserElement {ℓ} : Type ℓ → Type ℓ
ParserElement S = Text → S → Status → Parsed S

pub data ParserBehaviour : Type 0 where
  suite first optional negated : ParserBehaviour

-- A parser is its capacity and its pieces; a piece is an element with its destination and its
-- constraint, or a sub-parser under `Parse_suite`, `Parse_first`, `Parse_optional`, `Parse_false`.
mutual
  pub data Parser {ℓ} (S : Type ℓ) : Type ℓ where
    parser : ℕ → Pieces S → Parser S

  pub data Pieces {ℓ} (S : Type ℓ) : Type ℓ where
    no_more : Pieces S
    more : Piece S → Pieces S → Pieces S

  pub data Piece {ℓ} (S : Type ℓ) : Type ℓ where
    element : ParserElement S → Piece S
    sub : ParserBehaviour → Parser S → Piece S

abbrev pub suite_error : Message
suite_error = record { function = "Parse_suite"; error = "Parse error" }

abbrev pub first_error : Message
first_error = record { function = "Parse_first"; error = "No alternative matched" }

module _ {ℓ} {S : Type ℓ} where
  abbrev pub succeed : Text → S → Status → Parsed S
  succeed from dest status = record {
    ok = true;
    from = from;
    dest = dest;
    status = clear_status status;
  }

  -- `return SET_PARSE_ERROR(from, …)`
  abbrev pub refuse : Text → S → Status → Message → Parsed S
  refuse from dest status error = record {
    ok = false;
    from = from;
    dest = dest;
    status = set_status status from error false;
  }

  abbrev pub negate : Parsed S → Parsed S
  negate r = record r { ok = not r.ok }

  abbrev pub whatever : Parsed S → Parsed S
  whatever r = record r { ok = true; status = clear_status r.status }

unfoldable mutual
  pub run_piece {ℓ} : {S : Type ℓ} → Piece S → ParserElement S
  run_piece (element e) from dest status = e from dest status
  run_piece (sub b p) from dest status = run_parser b p from dest status

  -- `switch (behaviour)`: `Parse_suite`, `Parse_first`, `Parse_optional` and `Parse_false` on a parser
  pub run_parser {ℓ} : {S : Type ℓ} → ParserBehaviour → Parser S → ParserElement S
  run_parser suite (parser c ps) from dest status = run_suite from ps from dest status
  run_parser first (parser c ps) from dest status = run_first ps from dest status
  run_parser optional (parser c ps) from dest status = whatever (run_suite from ps from dest status)
  run_parser negated (parser c ps) from dest status = negate (run_suite from ps from dest status)

  -- The loop of `Parse_suite`: `*from` first, then `string`.
  pub run_suite {ℓ} : {S : Type ℓ} → Text → Pieces S → ParserElement S
  run_suite from no_more string dest status = succeed string dest status
  run_suite from (more p ps) string dest status =
      let r = run_piece p string dest status in
      elim r.ok [
        | true ↦ run_suite from ps r.from r.dest r.status
        | false ↦ refuse from r.dest r.status suite_error
      ]

  -- The loop of `Parse_first`.
  pub run_first {ℓ} : {S : Type ℓ} → Pieces S → ParserElement S
  run_first no_more from dest status = record {
    ok = false;
    from = from;
    dest = dest;
    status = set_status status from first_error true;
  }
  run_first (more p ps) from dest status =
      let r = run_piece p from dest status in
      elim r.ok [
        | true ↦ succeed r.from r.dest r.status
        | false ↦ run_first ps r.from r.dest r.status
      ]

module _ {ℓ} {S : Type ℓ} where
  abbrev count_pieces : Pieces S → ℕ
  count_pieces no_more = 0
  count_pieces (more p ps) = suc (count_pieces ps)

  abbrev append_piece : Pieces S → Piece S → Pieces S
  append_piece no_more q = more q no_more
  append_piece (more p ps) q = more p (append_piece ps q)

  abbrev pub init : Parser S
  init = parser 128 no_more

  -- `Parser_add`, which doubles a full table
  unfoldable pub add : Parser S → Piece S → Parser S
  add (parser c ps) p = parser (if count_pieces ps == c then c * 2 else c) (append_piece ps p)

  -- `Parser_run` with its root behaviour
  unfoldable pub run : Parser S → Text → ParserBehaviour → S → Status → Parsed S
  run p string b dest status = run_parser b p string dest status
