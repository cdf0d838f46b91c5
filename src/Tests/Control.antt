-- ===== src/Tests/Control.antt =====
-- The start of the commands, and a call on their port.
use libinject.Base.{ℕ, suc, true, false, none, some, [], ◌∷◌, ◌≡◌, refl, pos, minus_one, codes}
use libinject.Config.{Config, tcp_source}
use libinject.Format.{digits_onto}
use libinject.Outcome.{done}
use libinject.Parser
use libinject.Parser.Elements.{
  skip_spaces, parse_space, parse_word, parse_until, parse_enum, parse_eob,
}
use libinject.Parser.Numbers.{parse_int, strtol}
use libinject.Parser.{succeed, set_status, clear_status, check_status}
use libinject.Process.Control.{control_rule, on_port, passed}
use libinject.Process.{process, direct}
use libinject.Read.Combine.{named, chain, argument}
use libinject.Read.Hosts.{parse_host}
use libinject.Read.{
  action_init, parse_with, parse_connect, parse_close, parse_next, parse_condition, parse_action,
}
use libinject.Rule.{Action}
use libinject.Runtime.Guard.{start-control}
use libinject.Runtime.Start.{Platform, Started, start, control_text, create_pipe}
use libinject.Tests.Data.{
  clock, write_some, connect_rule, two_rules, web_socket, write_hello, one_host, nothing_beyond,
}

-- A system that gives out descriptors and counts the files that it deletes.
abbrev pub small_system : Platform ℕ
small_system = record {
  stat = λ file w. pos 0;
  is_fifo = λ file w. false;
  mkfifo = λ file w. (pos 0, w);
  unlink = λ file w. suc w;
  open_reading = λ file w. (pos 4, w);
  set_blocking = λ fd w. w;
  set_nonblocking = λ fd w. w;
  chmod = λ file w. w;
  read = λ fd w. (pos 0, w);
  close = λ fd w. w;
  socket = λ w. (pos 3, w);
  bind = λ fd port w. (pos 0, w);
  listen = λ fd w. (pos 0, w);
  accept = λ fd w. (pos 5, w);
  thread = λ fd w. (true, w);
}

abbrev tcp_config : Config
tcp_config = record {
  queue = two_rules;
  type = tcp_source;
  port = pos 4000;
  file = none;
  command = none;
}

abbrev pub a_rule : Action
a_rule = connect_rule 0 (pos 7)

control_text-reads :
    (action_init one_host nothing_beyond 0 a_rule (control_text (pos 4000)) none).0
    ≡ some (control_rule a_rule 4000 (pos 0))
unfolding action_init Parser.run Parser.run_parser Parser.add parse_int strtol skip_spaces
    parse_space parse_word parse_until parse_enum parse_eob set_status clear_status check_status
    parse_host parse_with parse_connect parse_close parse_next parse_condition parse_action named
    chain argument digits_onto
control_text-reads = refl

start-control_example :
    (s : Started ℕ) × (start small_system one_host nothing_beyond 0 a_rule tcp_config 0 ≡ done s)
    × (process clock write_some 1 s.queue (on_port web_socket 4000) none write_hello 0
        ≡ done (
            direct clock write_some write_hello
              (on_port web_socket 4000)
              s.queue
              (some (
                passed clock write_some a_rule 4000
                  (pos 0)
                  (some (connect_rule 1 (pos 0)) ∷ some (connect_rule 2 (pos 1)) ∷ [])
                  none))
              0))
start-control_example =
    start-control small_system one_host nothing_beyond 0 a_rule clock write_some tcp_config 4000
      none (some (connect_rule 1 (pos 0)) ∷ some (connect_rule 2 (pos 1)) ∷ []) 0 0 web_socket none
      write_hello 0 refl refl control_text-reads refl

-- A file that is no pipe is deleted.
deleted : create_pipe small_system (some (codes "rules")) 0 ≡ (minus_one, 1)
unfolding create_pipe
deleted = refl
