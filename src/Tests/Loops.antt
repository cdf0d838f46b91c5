-- ===== src/Tests/Loops.antt =====
-- A call that runs through a table of rules.
use libinject.Base.{
  ℕ, zero, suc, Option, none, some, [], ◌∷◌, ◌≡◌, ◌≢◌, refl, subst, arith, ℤ, pos, minus_one,
}
use libinject.Outcome.{Outcome, done, fault, out_of_fuel, ◌>>=◌}
use libinject.LigHt
use libinject.Process.Forward.{AreForward, IsForward}
use libinject.Process.Termination.{process-ends}
use libinject.Process.{
  Processed, is_spent_as, action_process, next_action, process, rounds, round, after_task, finish,
}
use libinject.Queue
use libinject.Queue.{ActionQueue, line_at}
use libinject.Rule.Conditions.{match_action, match_condition}
use libinject.Rule.{Action, ActionGoto, ActionTask, match_hosts, split, nop, normal, goto, stop}
use libinject.Socket.{any_dir, any, nobody}
use libinject.Task.Perform.{perform, perform_type, split_writing, after_first, second_write}
use libinject.Task.{perform_syscall}
use libinject.Tests.Data.{clock, write_some, data_of, host, connect_rule, web_socket, write_hello}

-- A rule for every call.
abbrev rule_for_all : ℕ → ActionTask → ActionGoto → Action
rule_for_all line task next = record (connect_rule line (pos 0)) {
  direction = any_dir;
  from = host any 0 minus_one;
  to = host nobody 0 minus_one;
  mode = normal;
  task = task;
  next = next;
}

abbrev first_rule : Action
first_rule =
    rule_for_all 0 (record { type = nop; args = data_of 0 0 0 0 })
      (record { type = goto; line = pos 2 })

abbrev last_rule : Action
last_rule =
    rule_for_all 2 (record { type = split; args = data_of 50 0 0 0 })
      (record { type = stop; line = pos 0 })

-- `nop goto 2`, an empty line and `split 50% stop`
abbrev jumping_rules : ActionQueue
jumping_rules = some first_rule ∷ none ∷ some last_rule ∷ []

abbrev ForwardAt : ℕ → Option Action → Type 0
ForwardAt i none = ℕ
ForwardAt i (some a) = IsForward i a

jumping_rules-IsForward : (i : ℕ) (a : Action) → line_at jumping_rules i ≡ some a → IsForward i a
jumping_rules-IsForward zero a e = subst (ForwardAt 0) e (refl, (2, refl, omega arith))
jumping_rules-IsForward (suc zero) a e = absurd (cc)
jumping_rules-IsForward (suc (suc zero)) a e = subst (ForwardAt 2) e (refl, tt)
jumping_rules-IsForward (suc (suc (suc n))) a e = absurd (cc)

jumping_rules-AreForward : AreForward 3 jumping_rules
jumping_rules-AreForward = record { size = refl; forward = jumping_rules-IsForward }

process-ends_example :
    process clock write_some 3 jumping_rules web_socket none write_hello 0 ≢ fault out_of_fuel
process-ends_example =
    process-ends clock write_some jumping_rules web_socket none write_hello 0
      jumping_rules-AreForward

abbrev written : Outcome (Processed ℕ) → Outcome (ℤ × ℕ)
written r = r >>= λ p. done (p.result, p.world)

-- The second rule that runs writes in two parts.
jumping_rules-result :
    written (process clock write_some 3 jumping_rules web_socket none write_hello 0)
    ≡ done (pos 5, 5)
unfolding process Queue.get_match Queue.first_match match_action match_condition match_hosts rounds
    round action_process perform perform_type split_writing after_first second_write perform_syscall
    is_spent_as after_task next_action finish Queue.unlock_action LigHt.init LigHt.put LigHt.probe
jumping_rules-result = refl
