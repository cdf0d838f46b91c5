-- ===== src/Tests/Calls.antt =====
-- Whole calls, tasks and the loop over the rules.
use libinject.Base.{
  ℕ, zero, suc, true, false, Option, none, some, [], ◌∷◌, ◌≡◌, inr, refl, ap, subst, arith, ℤ, pos,
  minus_one,
}
use libinject.Outcome.{Outcome, done, fault, deadlock, ◌>>=◌}
use libinject.LigHt
use libinject.Process.Answers.{Answers}
use libinject.Process.Idle.{process-Unmatched, Unmatched}
use libinject.Process.Once.{after_task-once}
use libinject.Process.{
  Processed, is_spent_as, action_process, next_action, process, direct, rounds, round, after_task,
  finish,
}
use libinject.Rule.Conditions.{match_action}
use libinject.Rule.{
  Action, ActionMode, ActionTaskType, match_hosts, remove, drop, split, nop, normal, once,
}
use libinject.Queue
use libinject.Queue.{ActionQueue}
use libinject.Socket.{writing, any_dir, any, nobody}
use libinject.Task.Failures.{perform_failed}
use libinject.Task.Perform.{
  perform_split, perform, perform_type, split_writing, after_first, second_write, perform_remove,
}
use libinject.Task.Splits.{perform_split-AtMost, IsBounded, AtMost}
use libinject.Task.{perform_syscall, perform_drop}
use libinject.Tests.Data.{
  clock, write_some, data_of, host, connect_rule, two_rules, web_socket, write_hello, writing_hello,
}

abbrev rule_or : Action → Option Action → Action
rule_or default none = default
rule_or default (some a) = a

connect_rule-refused :
    (line : ℕ) (accessors : ℤ) (a : Action)
    → some (connect_rule line accessors) ≡ some a
    → match_action clock a web_socket writing false 0 ≡ done (false, 0)
unfolding match_action
connect_rule-refused line accessors a e =
    subst (λ b. match_action clock b web_socket writing false 0 ≡ done (false, 0))
      (ap (rule_or a) e) refl

-- Both rules are for connections.
two_rules-Unmatched : Unmatched clock two_rules web_socket writing false 0
two_rules-Unmatched zero a e = absurd (cc)
two_rules-Unmatched (suc zero) a e = connect_rule-refused 1 (pos 0) a e
two_rules-Unmatched (suc (suc zero)) a e = connect_rule-refused 2 (pos 1) a e
two_rules-Unmatched (suc (suc (suc n))) a e = absurd (cc)

process-Unmatched_example :
    process clock write_some 9 two_rules web_socket none write_hello 0
    ≡ done (direct clock write_some write_hello web_socket two_rules none 0)
process-Unmatched_example =
    process-Unmatched clock write_some 9 two_rules web_socket none write_hello 0 two_rules-Unmatched

write_some-IsBounded : IsBounded write_some
write_some-IsBounded fd bytes len w = inr (_, refl, omega arith)

perform_split-AtMost_example :
    ((perform_split clock write_some (data_of 50 0 0 0) writing_hello).0 ≡ true)
    × ((perform_split clock write_some (data_of 50 0 0 0) writing_hello).1.call.is_done ≡ true)
    × AtMost 5 (perform_split clock write_some (data_of 50 0 0 0) writing_hello).1.call.result
perform_split-AtMost_example =
    perform_split-AtMost clock write_some write_some-IsBounded (data_of 50 0 0 0) writing_hello refl
      refl refl (omega arith) (omega arith) (omega arith)

after_task-once_example :
    after_task clock write_some 2 (connect_rule 2 (pos 1)) writing_hello ≡ fault deadlock
after_task-once_example =
    after_task-once clock write_some 2 2 (connect_rule 2 (pos 1)) writing_hello refl refl refl
      (omega arith) refl

-- Line 4 is the system's.
perform_failed_example : writing_hello ≡ writing_hello
unfolding perform perform_remove
perform_failed_example =
    perform_failed clock write_some (record { type = remove; args = data_of 4 0 0 0 }) (pos 1)
      writing_hello writing_hello refl refl

-- A rule on its own, for every call.
abbrev rule_for_all : ActionMode → ActionTaskType → ActionQueue
rule_for_all mode type =
    some (record (connect_rule 0 (pos 0)) {
      direction = any_dir;
      from = host any 0 minus_one;
      to = host nobody 0 minus_one;
      mode = mode;
      task = record { type = type; args = data_of 50 0 0 0 };
    })
    ∷ []

-- The result of a call that is done, and how many bytes were written.
abbrev written : Outcome (Processed ℕ) → Outcome (ℤ × ℕ)
written r = r >>= λ p. done (p.result, p.world)

abbrev write_through : ActionMode → ActionTaskType → Outcome (ℤ × ℕ)
write_through mode type =
    written (process clock write_some 2 (rule_for_all mode type) web_socket none write_hello 0)

-- A dropped write answers 5 and writes nothing; a split one writes 2 and 3 bytes; one that no rule
-- answers is cut to 4 bytes by the system; a do-once rule waits for itself.
written_through :
    (write_through normal drop ≡ done (pos 5, 0))
    × (write_through normal split ≡ done (pos 5, 5))
    × (write_through normal nop ≡ done (pos 4, 4))
    × (write_through once nop ≡ fault deadlock)
unfolding process Queue.get_match Queue.first_match match_action match_hosts rounds round
    action_process perform perform_type perform_drop perform_split split_writing after_first
    second_write perform_syscall is_spent_as after_task next_action finish Queue.unlock_action
    Queue.remove LigHt.init LigHt.put LigHt.probe
written_through = (refl, refl, refl, refl)
