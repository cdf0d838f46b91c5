-- ===== src/Read/Arguments.antt =====
-- What stands behind the name of a condition or of an action in a rule: the `argument` functions
-- of src/conditions/*.c and src/actions/*.c, and their tables. `time` is `getMSecTime()` when the
-- rule is read.
use libinject.Base.{
  ℕ, Bool, true, false, ◌&&◌, Option, none, some, List, [], ◌∷◌, ◌++◌, not, Text, text_eq, codes, ℤ,
  pos, ltb_ℤ,
}
use libinject.Parser
use libinject.Parser.Elements.{parse_word, parse_space, parse_enum, parse_bool, because}
use libinject.Parser.Numbers.{parse_int}
use libinject.Parser.{ParserElement, Parsed, Parser, Message, element, sub, suite, add, refuse}
use libinject.Read.Combine.{add_spaced, chain, Argument, Entry, focus}
use libinject.Read.Names.{errors, signals}
use libinject.Rule.{
  ActionData, ActionCondition, ActionTask, ActionConditionType, ActionTaskType, int_of, with_int,
  after, always, before, between, cycle, matched, never, prob, unmatched, alter, cancel_syscall,
  drop, dump, echo, emit, error, hang, local_hang, log, mark_done, nop, remote_hang, remove, replay,
  reset, split, syscall, truncate,
}

-- What lies behind an array in memory, up to a NULL: the tables of `emit` and `mark-done` have
-- no closing entry, and the search of `Parse_enum` goes on there.
pub record Beyond : Type 0 where
  pub entries : List (Text × ℤ)
  pub last : ℤ

abbrev pub put_int0 : ℤ → ActionData → ActionData
put_int0 i d = record d { word0 = with_int d.word0 i }

abbrev pub put_int1 : ℤ → ActionData → ActionData
put_int1 i d = record d { word1 = with_int d.word1 i }

abbrev pub put_int2 : ℤ → ActionData → ActionData
put_int2 i d = record d { word2 = with_int d.word2 i }

abbrev pub put_str : Option Text → ActionData → ActionData
put_str text d = record d { str = text }

-- `data[0].i`, as `alter`, `hang`, `local-hang`, `remote-hang`, `remove` and `truncate` read it
pub one_int : ParserElement ActionData
one_int = parse_int put_int0

-- `ActionAfter_argument` and `ActionBefore_argument`
unfoldable pub after_argument : ℕ → ParserElement ActionData
after_argument time from d status = parse_int put_int0 from (record d { word1 = time }) status

unfoldable pub between_argument : ℕ → ParserElement ActionData
between_argument time from d status =
    let r = chain (parse_int put_int0 ∷ parse_space ∷ parse_int put_int1 ∷ []) from from d status in
    elim r.ok [ true ↦ record r { dest = record r.dest { word2 = time } } | false ↦ r ]

pub cycle_parser : Parser ActionData
cycle_parser =
    add (add_spaced (add_spaced Parser.init (parse_bool put_int0)) (parse_int put_int1))
      (element (parse_int put_int2))

unfoldable pub cycle_argument : ℕ → ParserElement ActionData
unfolding cycle_parser
cycle_argument time from d status =
    let r = Parser.run cycle_parser from suite d status in
    elim r.ok [
      | true ↦ record r { dest = record r.dest { word3 = time } }
      | false ↦ record r { from = from }
    ]

abbrev pub is_percent : ℤ → Bool
is_percent i = not (ltb_ℤ i (pos 0)) && not (ltb_ℤ (pos 100) i)

-- The reading of a percentage, in `ActionProb_argument` and `ActionSplit_argument`.
unfoldable pub percent_argument : Message → ParserElement ActionData
percent_argument message from d status =
    let r = parse_int put_int0 from d status in
    elim (r.ok && is_percent (int_of r.dest.word0)) [
      | true ↦ r
      | false ↦ refuse from r.dest r.status message
    ]

unfoldable pub prob_argument : ParserElement ActionData
prob_argument =
    percent_argument (because "ActionProb_argument" "Probability must be between 0 and 100")

unfoldable pub split_argument : ParserElement ActionData
split_argument =
    percent_argument (because "ActionSplit_argument" "Value should be between 0 and 100")

-- `ActionEcho_argument`
unfoldable pub echo_argument : ParserElement ActionData
echo_argument from d status =
    let r = parse_word (some put_str) none from d status in
    elim r.ok [ true ↦ r | false ↦ record r { dest = record r.dest { str = none } } ]

-- The file name that `dump` and `replay` read; the FILE pointer is NULL.
unfoldable pub file_argument : ParserElement ActionData
file_argument from d status =
    let r = parse_word (some put_str) none from d status in
    elim r.ok [ true ↦ record r { dest = record r.dest { word0 = 0 } } | false ↦ r ]

abbrev is_dash : Option Text → Bool
is_dash none = false
is_dash (some word) = text_eq word (codes "-")

-- `ActionLog_argument`: a dash is the standard error.
unfoldable pub log_argument : ParserElement ActionData
log_argument from d status =
    let r = file_argument from d status in
    elim (r.ok && is_dash r.dest.str) [
      | true ↦ record r { dest = record r.dest { str = none } }
      | false ↦ r
    ]

unfoldable pub error_argument : ParserElement ActionData
error_argument = parse_enum errors (pos 0) put_int0

unfoldable pub emit_argument : Beyond → ParserElement ActionData
emit_argument beyond = parse_enum (signals ++ beyond.entries) beyond.last put_int0

abbrev mark_kinds : List (Text × ℤ)
mark_kinds = (codes "call", pos 1) ∷ (codes "socket", pos 2) ∷ []

unfoldable pub mark_done_argument : Beyond → ParserElement ActionData
mark_done_argument beyond from d status =
    chain
      (parse_enum (mark_kinds ++ beyond.entries) beyond.last put_int0
        ∷ parse_space
        ∷ parse_int put_int1
        ∷ [])
      from from d status

abbrev of_condition : ParserElement ActionData → Argument ActionCondition
of_condition e = some (focus (λ c. c.args) (λ d c. record c { args = d }) e)

abbrev of_task : ParserElement ActionData → Argument ActionTask
of_task e = some (focus (λ t. t.args) (λ d t. record t { args = d }) e)

-- `conditionSet`: the names and arguments that the `register` functions give.
abbrev pub condition_set : ℕ → List (Text × Entry ActionConditionType ActionCondition)
condition_set time =
    (codes "after", (after, of_condition (after_argument time)))
    ∷ (codes "always", (always, none))
    ∷ (codes "before", (before, of_condition (after_argument time)))
    ∷ (codes "between", (between, of_condition (between_argument time)))
    ∷ (codes "cycle", (cycle, of_condition (cycle_argument time)))
    ∷ (codes "matched", (matched, none))
    ∷ (codes "never", (never, none))
    ∷ (codes "prob", (prob, of_condition prob_argument))
    ∷ (codes "unmatched", (unmatched, none))
    ∷ []

-- `taskSet`
abbrev pub task_set : Beyond → List (Text × Entry ActionTaskType ActionTask)
task_set beyond =
    (codes "alter", (alter, of_task one_int))
    ∷ (codes "cancel-syscall", (cancel_syscall, none))
    ∷ (codes "drop", (drop, none))
    ∷ (codes "dump", (dump, of_task file_argument))
    ∷ (codes "echo", (echo, of_task echo_argument))
    ∷ (codes "emit", (emit, of_task (emit_argument beyond)))
    ∷ (codes "error", (error, of_task error_argument))
    ∷ (codes "hang", (hang, of_task one_int))
    ∷ (codes "local-hang", (local_hang, of_task one_int))
    ∷ (codes "log", (log, of_task log_argument))
    ∷ (codes "mark-done", (mark_done, of_task (mark_done_argument beyond)))
    ∷ (codes "nop", (nop, none))
    ∷ (codes "remote-hang", (remote_hang, of_task one_int))
    ∷ (codes "remove", (remove, of_task one_int))
    ∷ (codes "replay", (replay, of_task file_argument))
    ∷ (codes "reset", (reset, none))
    ∷ (codes "split", (split, of_task split_argument))
    ∷ (codes "syscall", (syscall, none))
    ∷ (codes "truncate", (truncate, of_task one_int))
    ∷ []
