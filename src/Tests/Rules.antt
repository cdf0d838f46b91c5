-- ===== src/Tests/Rules.antt =====
-- Rules, their table and sockets.
use libinject.Base.{
  ℕ, ◌<◌, true, false, ◌&&◌, none, some, length, ◌≡◌, ◌≢◌, inl, refl, arith, ◌==◌, if◌then◌else◌,
  pos, eq_ℤ, codes, Text,
}
use libinject.Outcome.{done, fault, null_pointer, ◌>>=◌}
use libinject.Parser
use libinject.Parser.Elements.{
  skip_spaces, parse_space, parse_word, parse_until, parse_enum, parse_eob,
}
use libinject.Parser.Numbers.{parse_int, strtol}
use libinject.Parser.{set_status, clear_status, check_status}
use libinject.Queue.Lines.{put_accepted, first_line-FirstFrom, FirstFrom}
use libinject.Queue.Locks.{unlock_action-get, remove_empty}
use libinject.Queue.{line_at, put, remove, get, unlock_action, first_line}
use libinject.Read.Refusal.{put-action_init}
use libinject.Read.Arguments.{between_argument, split_argument, percent_argument}
use libinject.Read.Combine.{named, chain, argument}
use libinject.Read.Hosts.{parse_host}
use libinject.Read.{
  action_init, parse_with, parse_connect, parse_close, parse_next, parse_condition, parse_action,
}
use libinject.Rule.Addresses.{match_action-same_address}
use libinject.Rule.Conditions.{match_action}
use libinject.Rule.{Action}
use libinject.Socket.Lifecycle.{check-references, unlock-lock, Checked}
use libinject.Socket.{SocketFacts, lock, unlock, check, connecting}
use libinject.Tests.Data.{
  clock, connect_rule, two_rules, web_socket, one_host, nothing_beyond, fresh_status,
}

put_accepted_example :
    (1 < length two_rules)
    × (length two_rules ≡ length two_rules)
    × (line_at two_rules 2
        ≡ (if 1 == 2 then some (connect_rule 1 (pos 0)) else line_at two_rules 2))
unfolding put
put_accepted_example =
    put_accepted two_rules two_rules (connect_rule 1 (pos 0)) true true 1 2 refl refl

first_line-FirstFrom_example : FirstFrom two_rules 0 3 (first_line 3 two_rules 0)
first_line-FirstFrom_example = first_line-FirstFrom 3 two_rules 0

remove_empty_example : remove two_rules (pos 0) true ≡ fault null_pointer
remove_empty_example = remove_empty two_rules 0 (omega arith) refl

unlock_action-get_example :
    (get two_rules (pos 1) true >>= λ r. unlock_action r.1 1) ≡ done two_rules
unlock_action-get_example =
    unlock_action-get two_rules 1 (connect_rule 1 (pos 0)) (omega arith) refl refl

match_action-same_address_example :
    match_action clock (connect_rule 1 (pos 0)) web_socket connecting false 0 ≢ done (true, 0)
match_action-same_address_example =
    match_action-same_address clock (connect_rule 1 (pos 0)) web_socket connecting false 0 0
      (inl refl) refl refl

unlock-lock_example :
    unlock (lock web_socket)
    ≡ (if web_socket.to_destroy && eq_ℤ web_socket.sem (pos 0) then none else some web_socket)
unlock-lock_example = unlock-lock web_socket

abbrev no_facts : SocketFacts
no_facts = record {
  is_socket = true;
  peer_name = none;
  sock_name = none;
  socket_type = none;
  flags = none;
}

check-references_example : Checked web_socket 2 (check no_facts web_socket)
check-references_example = check-references no_facts web_socket 2 refl

-- A rule, and a text that is none.
abbrev rule_text : Text
rule_text = codes "2 on tcp from me to any port 80 when between 100 250 do-once split 50 goto 30"

abbrev wrong_text : Text
wrong_text = codes "stop"

put-action_init_example :
    (false ≡ false)
    × (two_rules ≡ two_rules)
    × ((i : ℕ) × (a : Action) × (old : Action) × ((action_init one_host nothing_beyond 1000
            (connect_rule 0 (pos 7))
            rule_text
            fresh_status).0
          ≡ some a)
        × (a.pos ≡ pos i)
        × (line_at two_rules i ≡ some old))
unfolding action_init put Parser.run Parser.run_parser Parser.add parse_int strtol skip_spaces
    parse_space parse_word parse_until parse_enum parse_eob set_status clear_status check_status
    parse_host parse_with parse_connect parse_close parse_next parse_condition parse_action named
    chain argument between_argument split_argument percent_argument
put-action_init_example =
    put-action_init one_host nothing_beyond 1000 (connect_rule 0 (pos 7)) two_rules two_rules false
      true rule_text fresh_status refl refl refl
