-- ===== src/Tests/Sessions.antt =====
-- Dumps, the file of rules and the commands of a connection.
use libinject.Base.{
  Bool, true, false, none, some, [], ◌++◌, ◌≡◌, ◌≢◌, refl, arith, pos, negsuc, minus_one, Text,
  codes, take, drop,
}
use libinject.Config.Rules.{config_init-ends}
use libinject.Config.{config_init}
use libinject.Format.Decimal.{parse_int-show_ℤ}
use libinject.Format.{show_ℤ}
use libinject.LigHt
use libinject.Outcome.{fault, out_of_fuel}
use libinject.Parser
use libinject.Parser.Elements.{
  skip_spaces, parse_space, parse_word, parse_until, parse_enum, parse_eob,
}
use libinject.Parser.Numbers.{parse_int, strtol}
use libinject.Parser.{succeed, set_status, clear_status, check_status}
use libinject.Read.Arguments.{between_argument, split_argument, percent_argument}
use libinject.Read.Combine.{named, chain, argument}
use libinject.Read.Hosts.{parse_host}
use libinject.Read.{
  action_init, parse_with, parse_connect, parse_close, parse_next, parse_condition, parse_action,
}
use libinject.Rule.{Os}
use libinject.Runtime.Removal.{run_remove-RemoveEnd, RemoveEnd}
use libinject.Runtime.Replacement.{run_replace-ReplaceEnd, ReplaceEnd}
use libinject.Runtime.Edits.{run_add-AddEnd, AddEnd}
use libinject.Runtime.{Session, run_add, run_replace, run_remove, no_command}
use libinject.Socket.{reading}
use libinject.Task.Dumps.{replay_record-dump_record, Replayed, IsStream}
use libinject.Task.Files.{dump_record, replay_record}
use libinject.Task.{Machine, Syscall, ActionCallData, user}
use libinject.Tests.Data.{
  connect_rule, two_rules, web_socket, hello, one_host, nothing_beyond, fresh_status,
}

-- A world that is what is left of a file.
abbrev one_file : Os Text
one_file = record {
  now = λ w. (7, w);
  random = λ w. (7, w);
  sleep = λ ms w. w;
  process_id = 1;
  errno = λ w. pos 0;
  open_write = λ name w. (1, w);
  open_read = λ name w. (1, w);
  write_file = λ file bytes w. w;
  read_file = λ file count w. (take count w, drop count w);
}

abbrev never_called : Syscall Text
never_called fd bytes len w = record { result = minus_one; errno = pos 0; bytes = bytes; world = w }

one_file-IsStream : IsStream one_file 1 (λ w. w)
one_file-IsStream = record { bytes = λ n w. refl; rest = λ n w. refl }

-- The read of a text that gave all of it, or that is still to be done.
abbrev read_call : Bool → Text → ActionCallData
read_call is_done bytes = record {
  orig_len = 5;
  buf = user 0;
  len = 5;
  dont_wait = false;
  direction = reading;
  aborted = false;
  is_done = is_done;
  called_lines = LigHt.init 3 false;
  err = pos 0;
  result = pos 5;
  user_memory = bytes;
  copy_memory = [];
}

abbrev reading_file : Machine Text
reading_file = record {
  queue = two_rules;
  si = web_socket;
  socket_data = none;
  call = read_call false (codes "-----");
  is_closed = false;
  world = dump_record 7 (pos 0) web_socket (read_call true hello) ++ codes "next";
}

replay_record-dump_record_example :
    Replayed one_file never_called 1
      (λ w. w)
      one_file-IsStream
      reading_file
      hello
      (codes "next")
      (replay_record one_file never_called 1 reading_file)
replay_record-dump_record_example =
    replay_record-dump_record one_file never_called 1 (λ w. w) one_file-IsStream reading_file 7
      (pos 0) web_socket (read_call true hello) (codes "next") refl refl (λ e. cc) refl
      (omega arith) (omega arith) refl refl refl

config_init-ends_example :
    config_init one_host nothing_beyond 0
      (connect_rule 0 (pos 0))
      (codes "cat")
      (pos 0)
      []
      (some (codes "[Rules]\n; a comment"))
    ≢ fault out_of_fuel
config_init-ends_example =
    config_init-ends one_host nothing_beyond 0 (connect_rule 0 (pos 0)) (codes "cat") (pos 0) []
      (some (codes "[Rules]\n; a comment"))

abbrev first_session : Session
first_session = record {
  queue = two_rules;
  status = fresh_status;
  command = no_command;
  replies = [];
  close_connection = false;
  close_program = false;
}

-- Line 2 is taken.
abbrev taken_line : Text
taken_line = codes "2 on tcp from me to any port 80 when between 100 250 do-once split 50 goto 30"

run_add-AddEnd_example :
    AddEnd one_host nothing_beyond 1000
      (connect_rule 0 (pos 7))
      taken_line
      first_session
      (run_add one_host nothing_beyond 1000 (connect_rule 0 (pos 7)) taken_line first_session)
unfolding action_init Parser.run Parser.run_parser Parser.add parse_int strtol skip_spaces
    parse_space parse_word parse_until parse_enum parse_eob set_status clear_status check_status
    parse_host parse_with parse_connect parse_close parse_next parse_condition parse_action named
    chain argument between_argument split_argument percent_argument
run_add-AddEnd_example =
    run_add-AddEnd one_host nothing_beyond 1000 (connect_rule 0 (pos 7)) taken_line first_session
      refl

parse_int-show_ℤ_example :
    parse_int (λ z _. z) (show_ℤ (negsuc 41) ++ codes " next") (pos 0) fresh_status
    ≡ succeed (codes " next") (negsuc 41) fresh_status
parse_int-show_ℤ_example =
    parse_int-show_ℤ (λ z _. z) (negsuc 41) (codes " next") (pos 0) fresh_status (omega arith) refl

run_replace-ReplaceEnd_example :
    ReplaceEnd one_host nothing_beyond 1000
      (connect_rule 0 (pos 7))
      taken_line
      first_session
      (run_replace one_host nothing_beyond 1000 (connect_rule 0 (pos 7)) taken_line first_session)
unfolding action_init Parser.run Parser.run_parser Parser.add parse_int strtol skip_spaces
    parse_space parse_word parse_until parse_enum parse_eob set_status clear_status check_status
    parse_host parse_with parse_connect parse_close parse_next parse_condition parse_action named
    chain argument between_argument split_argument percent_argument
run_replace-ReplaceEnd_example =
    run_replace-ReplaceEnd one_host nothing_beyond 1000 (connect_rule 0 (pos 7)) taken_line
      first_session refl

run_remove-RemoveEnd_example :
    RemoveEnd
      (codes "1")
      first_session
      (run_remove one_host nothing_beyond 1000 (connect_rule 0 (pos 7)) (codes "1") first_session)
run_remove-RemoveEnd_example =
    run_remove-RemoveEnd one_host nothing_beyond 1000 (connect_rule 0 (pos 7)) (codes "1")
      first_session
