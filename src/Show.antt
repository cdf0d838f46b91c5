-- ===== src/Show.antt =====
-- `Action_show` of src/actions.c and the `write` functions of src/conditions and src/actions: the
-- text of a rule. The buffer of 1024 bytes is taken to be long enough.
use libinject.Base.{
  ℕ, not, ◌&&◌, Option, none, some, [], ◌∷◌, ◌++◌, if◌then◌else◌, Text, codes, ℤ, pos, eq_ℤ,
  minus_one,
}
use libinject.Format.{show_ℤ}
use libinject.Outcome.{Outcome, done, fault, endless_loop, ◌>>=◌}
use libinject.Queue.{ActionQueue}
use libinject.Rule.{
  Action, ActionData, ActionConditionType, ActionMode, ActionGoto, ActionTaskType, int_of, is_dns,
  after, always, before, between, cycle, matched, never, prob, unmatched, normal, once,
  once_per_call, once_per_socket, continue, goto, next, exec, stop, alter, cancel_syscall, drop,
  dump, echo, emit, error, hang, local_hang, log, mark_done, nop, remote_hang, remove, replay,
  reset, split, syscall, truncate, is_nobody,
}
use libinject.Socket.{
  SocketInfoDirection, Proto, Host, HostAddress, tcp, udp, ip, nobody, me, dns, address, any,
  any_dir, connecting, closing,
}
use libinject.Task.Files.{show_address}

-- `"%d "`
abbrev pub int_space : ℕ → Text
int_space word = show_ℤ (int_of word) ++ b' ' ∷ []

-- `"%s "`, with what printf writes for NULL
abbrev word_space : Option Text → Text
word_space none = codes "(null) "
word_space (some t) = t ++ b' ' ∷ []

abbrev show_host : Host → ℕ → Text
show_host me addr = codes " me "
show_host any addr = codes " any "
show_host dns addr = codes " dns "
show_host address addr = b' ' ∷ show_address addr ++ b' ' ∷ []
show_host nobody addr = codes " ?none? "

-- `Action_show_address`
unfoldable pub show_end : Text → HostAddress → Text
show_end keyword h =
    keyword
    ++ show_host h.type h.addr
    ++ (if not (eq_ℤ h.port minus_one) && not (is_dns h.type)
        then codes "port " ++ show_ℤ h.port ++ b' ' ∷ []
        else [])

abbrev show_proto : Proto → Text
show_proto udp = codes " on udp "
show_proto tcp = codes " on tcp "
show_proto ip = codes " on ip "

abbrev show_ends : SocketInfoDirection → Action → Text
show_ends any_dir a = show_end (codes "with") a.from
show_ends connecting a = show_end (codes "connect to") a.to
show_ends closing a = show_end (codes "close to") a.to
show_ends _ a =
    if is_nobody a.to.type
    then show_end (codes "talk-with") a.from
    else show_end (codes "from") a.from ++ show_end (codes "to") a.to

abbrev bool_word : ℤ → Text
bool_word i = if eq_ℤ i (pos 0) then codes "false" else codes "true"

abbrev pub write_after : ActionData → Text
write_after d = codes "after " ++ int_space d.word0

abbrev pub write_before : ActionData → Text
write_before d = codes "before " ++ int_space d.word0

abbrev pub write_between : ActionData → Text
write_between d = codes "between " ++ int_space d.word0 ++ int_space d.word1

abbrev pub write_cycle : ActionData → Text
write_cycle d =
    codes "cycle " ++ bool_word (int_of d.word0) ++ b' ' ∷ int_space d.word1 ++ int_space d.word2

abbrev pub write_prob : ActionData → Text
write_prob d = codes "prob " ++ int_space d.word0

-- The `write` function of a condition, or its name.
unfoldable pub show_condition : ActionConditionType → ActionData → Text
show_condition after d = write_after d
show_condition always d = codes "always "
show_condition before d = write_before d
show_condition between d = write_between d
show_condition cycle d = write_cycle d
show_condition matched d = codes "matched "
show_condition never d = codes "never "
show_condition prob d = write_prob d
show_condition unmatched d = codes "unmatched "

abbrev show_mode : ActionMode → Text
show_mode normal = codes "do "
show_mode once = codes "do-once "
show_mode once_per_call = codes "do-once-per-call "
show_mode once_per_socket = codes "do-once-per-socket "

-- The loops of `error` and `emit` over the names do not move on, so they end at the first or never.
abbrev first_or_never : Text → ℤ → Text → ActionData → Outcome Text
first_or_never task value name d =
    if eq_ℤ (int_of d.word0) value then done (task ++ name ++ b' ' ∷ []) else fault endless_loop

abbrev log_name : Option Text → Text
log_name none = codes "-"
log_name (some t) = t

abbrev pub write_alter : ActionData → Outcome Text
write_alter d = done (codes "alter " ++ int_space d.word0)

abbrev pub write_dump : ActionData → Outcome Text
write_dump d = done (codes "dump " ++ word_space d.str)

abbrev pub write_echo : ActionData → Outcome Text
write_echo d = done (codes "echo " ++ word_space d.str)

abbrev pub write_emit : ActionData → Outcome Text
write_emit d = first_or_never (codes "emit ") (pos 1) (codes "SIGHUP") d

abbrev pub write_error : ActionData → Outcome Text
write_error d = first_or_never (codes "error ") (pos 11) (codes "EAGAIN") d

abbrev pub write_hang : ActionData → Outcome Text
write_hang d = done (codes "hang " ++ int_space d.word0)

abbrev pub write_local_hang : ActionData → Outcome Text
write_local_hang d = done (codes "local-hang " ++ int_space d.word0)

abbrev pub write_log : ActionData → Outcome Text
write_log d = done (codes "log " ++ log_name d.str ++ b' ' ∷ [])

abbrev pub write_mark_done : ActionData → Outcome Text
write_mark_done d = done (
    codes "mark-done "
    ++ (if eq_ℤ (int_of d.word0) (pos 1) then codes "call" else codes "socket")
    ++ b' ' ∷ int_space d.word1)

abbrev pub write_remote_hang : ActionData → Outcome Text
write_remote_hang d = done (codes "remote-hang " ++ int_space d.word0)

abbrev pub write_remove : ActionData → Outcome Text
write_remove d = done (codes "remove " ++ int_space d.word0)

abbrev pub write_replay : ActionData → Outcome Text
write_replay d = done (codes "replay " ++ word_space d.str)

abbrev pub write_split : ActionData → Outcome Text
write_split d = done (codes "split " ++ int_space d.word0)

abbrev pub write_truncate : ActionData → Outcome Text
write_truncate d = done (codes "trucate " ++ int_space d.word0)

-- The `write` function of a task, or its name.
unfoldable pub show_task : ActionTaskType → ActionData → Outcome Text
show_task alter d = write_alter d
show_task cancel_syscall d = done (codes "cancel-syscall ")
show_task drop d = done (codes "drop ")
show_task dump d = write_dump d
show_task echo d = write_echo d
show_task emit d = write_emit d
show_task error d = write_error d
show_task hang d = write_hang d
show_task local_hang d = write_local_hang d
show_task log d = write_log d
show_task mark_done d = write_mark_done d
show_task nop d = done (codes "nop ")
show_task remote_hang d = write_remote_hang d
show_task remove d = write_remove d
show_task replay d = write_replay d
show_task reset d = done (codes "reset ")
show_task split d = write_split d
show_task syscall d = done (codes "syscall ")
show_task truncate d = write_truncate d

abbrev show_next : ActionGoto → Text
show_next g = elim g.type [
  | continue ↦ codes "continue"
  | goto ↦ codes "goto " ++ show_ℤ g.line
  | next ↦ codes "next"
  | exec ↦ codes "exec " ++ show_ℤ g.line
  | stop ↦ codes "stop"
]

-- `Action_show`: what is written to the file.
unfoldable pub action_show : Action → Outcome Text
action_show a = show_task a.task.type a.task.args >>= λ task. done (
    show_ℤ a.pos
    ++ show_proto a.proto
    ++ show_ends a.direction a
    ++ codes "when "
    ++ show_condition a.condition.type a.condition.args
    ++ show_mode a.mode
    ++ task
    ++ show_next a.next
    ++ b'\n' ∷ [])

-- `ActionQueue_list`
unfoldable pub list : ActionQueue → Outcome Text
list [] = done []
list (none ∷ q) = list q
list (some a ∷ q) = action_show a >>= λ text. list q >>= λ rest. done (text ++ rest)
