-- ===== src/Runtime.antt =====
-- The thread of src/runtime.c that edits the rules while the program runs. A connection is the list of
-- what its reads give, as texts without NUL; the replies are data, in the order in which they are
-- written. Start opens the pipe or the socket; Edits, Removal, Replacement and Guard prove.
pub mod Edits
pub mod Start
pub mod Guard
pub mod Removal
pub mod Replacement
use libinject.Base.{
  ℕ, Bool, true, false, not, ◌&&◌, ◌||◌, Option, none, some, List, [], ◌∷◌, ◌++◌, ◌==◌,
  if◌then◌else◌, leb, Text, codes, length, ℤ, pos,
}
use libinject.Outcome.{Outcome, done, fault, ◌>>=◌}
use libinject.Parser
use libinject.Parser.Elements.{parse_space, parse_enum, parse_char}
use libinject.Parser.Numbers.{parse_int}
use libinject.Parser.{
  Status, Parsed, Parser, element, sub, suite, optional, add, clear_status, check_status,
}
use libinject.Queue
use libinject.Queue.{ActionQueue}
use libinject.Read.Arguments.{Beyond}
use libinject.Read.Hosts.{Resolver}
use libinject.Read.{action_init}
use libinject.Rule.{Action}
use libinject.Show

-- `enum Runtime_Command`
pub data RuntimeCommand : Type 0 where
  no_command list add_rule replace_rule remove_rule close exit help : RuntimeCommand

-- What is written to the connection. An `invalid_rule` carries what is printed behind its first
-- line: the text of the error for `add`, of which only the status is kept, the rule for `replace`.
pub data Reply : Type 0 where
  greeting finished invalid_command collision line_required not_implemented bye : Reply
  rules : Text → Reply
  invalid_rule : Status → Reply
  invalid_replacement : Text → Reply

abbrev commands : List (Text × RuntimeCommand)
commands =
    (codes "list", list)
    ∷ (codes "add", add_rule)
    ∷ (codes "replace", replace_rule)
    ∷ (codes "remove", remove_rule)
    ∷ (codes "quit", close)
    ∷ (codes "exit", exit)
    ∷ (codes "help", help)
    ∷ []

unfoldable pub command_parser : Parser RuntimeCommand
command_parser =
    add
      (add (add Parser.init (element (parse_enum commands no_command (λ c _. c))))
        (element (parse_char (b':' ∷ []))))
      (sub optional (add Parser.init (element parse_space)))

-- The state of the thread between two commands.
pub record Session : Type 0 where
  pub queue : ActionQueue
  pub status : Status
  pub command : RuntimeCommand
  pub replies : List Reply
  pub close_connection : Bool
  pub close_program : Bool

abbrev pub reply : Session → Reply → Session
reply s r = record s { replies = s.replies ++ r ∷ [] }

module _ (resolver : Resolver) (beyond : Beyond) (time : ℕ) (memory : Action) where
  abbrev read_rule : Session → Text → Option Action × Status
  read_rule s line = action_init resolver beyond time memory line s.status

  abbrev put_session : Session → Bool × ActionQueue → Status → Session
  put_session s p status = record s { queue = p.1; status = status }

  -- `RC_Add`
  unfoldable pub run_add : Text → Session → Outcome Session
  run_add line s =
      let (a, status) = read_rule s line in
      Queue.put s.queue a false true >>= λ p.
      let s' = put_session s p status in
      done (
        if p.0
        then reply s' finished
        else if check_status status
        then reply s' (invalid_rule status)
        else reply s' collision)

  -- `RC_Replace`: the message shows the rule, not the error.
  unfoldable pub run_replace : Text → Session → Outcome Session
  run_replace line s =
      let (a, status) = read_rule s line in
      Queue.put s.queue a true true >>= λ p.
      let s' = put_session s p status in
      done (
        if p.0
        then reply s' finished
        else if check_status status
        then reply s' (invalid_replacement line)
        else s')

  -- `RC_Remove`; `lnb` is written by `Parse_int`, or left as the memory has it.
  unfoldable pub run_remove : Text → Session → Outcome Session
  run_remove line s =
      let r = parse_int (λ n _. n) line (pos 0) s.status in
      let s' = record s { status = r.status } in
      if r.ok
      then (Queue.remove s.queue r.dest true >>= λ q.
          done (reply (record s' { queue = q }) finished))
      else done (reply s' line_required)

  -- `RC_List`
  unfoldable pub run_list : Session → Outcome Session
  run_list s = Show.list s.queue >>= λ text. done (reply (reply s (rules text)) finished)

  run_command_of : RuntimeCommand → Text → Session → Outcome Session
  run_command_of list line s = run_list s
  run_command_of add_rule line s = run_add line s
  run_command_of replace_rule line s = run_replace line s
  run_command_of remove_rule line s = run_remove line s
  run_command_of exit line s = done (record s { close_program = true; close_connection = true })
  run_command_of close line s = done (record s { close_connection = true })
  run_command_of help line s = done (reply s greeting)
  run_command_of no_command line s = done (reply s not_implemented)

  abbrev is_no_command : RuntimeCommand → Bool
  is_no_command no_command = true
  is_no_command _ = false

  -- One line of a buffer: the body of `while (!closeCon && pos)`.
  unfoldable pub run_line : Text → Session → Outcome Session
  unfolding command_parser run_command_of
  run_line line s =
      let r = Parser.run command_parser line suite s.command (clear_status s.status) in
      let s' = record s { command = r.dest; status = r.status } in
      if leb (length line) 3
      then done (record s { status = clear_status s.status })
      else if not r.ok || is_no_command r.dest
      then done (reply s' invalid_command)
      else run_command_of r.dest r.from s'

  -- The lines of a buffer, up to one that closes the connection.
  unfoldable pub run_lines : List Text → Session → Outcome Session
  run_lines [] s = done s
  run_lines (line ∷ lines) s = elim s.close_connection [
    | true ↦ done s
    | false ↦ run_line line s >>= λ s'. run_lines lines s'
  ]

abbrev onto_first : ℕ → List Text → List Text
onto_first c [] = (c ∷ []) ∷ []
onto_first c (line ∷ lines) = (c ∷ line) ∷ lines

-- The lines of a text: the part behind the last newline is one too.
unfoldable pub split_lines : Text → List Text
split_lines [] = [] ∷ []
split_lines (c ∷ text) =
    let rest = split_lines text in if c == b'\n' then [] ∷ rest else onto_first c rest

module _ (resolver : Resolver) (beyond : Beyond) (time : ℕ) (memory : Action) where
  -- One `read` of the connection; one of three bytes or less is passed over.
  unfoldable pub run_buffer : Text → Session → Outcome Session
  unfolding run_lines split_lines
  run_buffer buffer s =
      if leb (length buffer) 3
      then done s
      else run_lines resolver beyond time memory (split_lines buffer) s

  abbrev said_bye : Session → Session
  said_bye s = reply s bye

  -- The reads of a connection, until it is closed or a read fails; then the farewell.
  unfoldable pub run_reads : List Text → Session → Outcome Session
  run_reads [] s = done (said_bye s)
  run_reads (buffer ∷ buffers) s = elim s.close_connection [
    | true ↦ done (said_bye s)
    | false ↦ run_buffer buffer s >>= λ s'. run_reads buffers s'
  ]

  -- A connection from its greeting on.
  unfoldable pub run_connection : List Text → Session → Outcome Session
  unfolding run_reads
  run_connection buffers s =
      run_reads buffers (reply (record s { close_connection = false }) greeting)

  -- The loop over connections, until one asks for the end of the program.
  unfoldable pub run_thread : List (List Text) → Session → Outcome Session
  unfolding run_connection
  run_thread [] s = done s
  run_thread (connection ∷ connections) s = elim s.close_program [
    | true ↦ done s
    | false ↦ run_connection connection s >>= λ s'. run_thread connections s'
  ]
