-- ===== src/Process.antt =====
-- `ActionQueue_process` and `Action_process` of src/actions.c: the run of the rules over one call.
-- A rule that is in use is named by its line; the loop takes fuel, since rules can go round in a
-- ring. Once, Loop, Idle and Answers prove; so do Forward, Unchanged, Tasks, Search, Onward and
-- Termination, for tables whose jumps go forward, and Control, for the rule of the commands.
pub mod Forward
pub mod Unchanged
pub mod Tasks
pub mod Search
pub mod Onward
pub mod Termination
pub mod Once
pub mod Loop
pub mod Idle
pub mod Answers
pub mod Control
use libinject.Base.{
  ℕ, zero, suc, ◌+◌, Bool, true, false, not, ◌&&◌, ◌||◌, Option, none, some, [], if◌then◌else◌, ltb,
  length, Text, ℤ, pos, eq_ℤ, minus_one, plus_ℕ, get_or,
}
use libinject.LigHt
use libinject.Outcome.{Outcome, done, fault, null_pointer, out_of_fuel, out_of_bounds, ◌>>=◌}
use libinject.Queue
use libinject.Queue.{ActionQueue, line_at, place, unlock_action}
use libinject.Rule.{
  Os, Action, ActionData, ActionMode, ActionGoto, ActionTaskType, normal, once, once_per_call,
  once_per_socket, continue, goto, next, exec, stop, hang, is_reading, is_writing,
}
use libinject.Socket.{SocketInfo, SocketInfoDirection}
use libinject.Task
use libinject.Task.{
  Buffer, null, user, Lines, ActionCallData, ActionSocketData, Syscall, SyscallResult, Machine,
  eagain, socket_data_of, with_call, perform_syscall,
}
use libinject.Task.Perform.{perform}

-- What a call of `ActionQueue_process` leaves: its result, `errno`, the user's buffer and the rest.
pub record Processed (W : Type 0) : Type 0 where
  pub result : ℤ
  pub errno : ℤ
  pub queue : ActionQueue
  pub socket_data : Option ActionSocketData
  pub user_memory : Text
  pub world : W

-- The arguments of a call.
pub record Request : Type 0 where
  pub direction : SocketInfoDirection
  pub memory : Text
  pub len : ℕ
  pub dont_wait : Bool
  pub errno : ℤ

abbrev pub is_hang : ActionTaskType → Bool
is_hang hang = true
is_hang _ = false

module _ {W : Type 0} (os : Os W) (callback : Syscall W) where
  abbrev pub with_queue : Machine W → ActionQueue → Machine W
  with_queue m q = record m { queue = q }

  abbrev pub with_socket_data : Machine W → ActionSocketData → Machine W
  with_socket_data m s = record m { socket_data = some s }

  -- `Action_process`
  unfoldable pub action_process : Action → Machine W → Outcome (Bool × Machine W)
  action_process a m =
      let s = socket_data_of m in
      let woken = with_socket_data m (record s { hanging = false }) in
      if is_reading m.call.direction && s.hanging
      then (if is_hang a.task.type
          then done (true, woken)
          else perform os callback a.task a.pos woken)
      else perform os callback a.task a.pos (with_socket_data m s)

  -- `LigHT_put(lines, line, "OK", true, …)`
  abbrev pub mark : Lines → ℤ → Lines
  mark lines line = (LigHt.put lines line (some tt) true).0

  abbrev pub marked : Action → Machine W → Machine W
  marked a m =
      let s = socket_data_of m in
      record m {
        call = record m.call { called_lines = mark m.call.called_lines a.pos };
        socket_data = some (record s { called_lines = mark s.called_lines a.pos });
      }

  -- The rule is skipped: it has run already in this call, or on this socket.
  unfoldable pub is_spent_as : ActionMode → Action → Machine W → Bool
  is_spent_as once_per_call a m = LigHt.contains m.call.called_lines a.pos
  is_spent_as once_per_socket a m = LigHt.contains (socket_data_of m).called_lines a.pos
  is_spent_as normal a m = false
  is_spent_as once a m = false

  abbrev pub is_spent : Action → Machine W → Bool
  is_spent a m = is_spent_as a.mode a m

  abbrev pub found_match : Machine W → ℤ → Outcome (Option ℕ × Machine W)
  found_match m line =
      Queue.get_match os m.queue m.si m.call.direction true line true m.world >>= λ r.
      done (r.0, record m { queue = r.1; world = r.2 })

  abbrev pub found_from : Machine W → ℤ → Outcome (Option ℕ × Machine W)
  found_from m line = Queue.get_from m.queue line true >>= λ r. done (r.0, with_queue m r.1)

  -- The `switch` over the kinds of goto.
  unfoldable pub next_action : ActionGoto → ℤ → Machine W → Outcome (Option ℕ × Machine W)
  next_action g line m = elim g.type [
    | continue ↦ found_match m (plus_ℕ line 1)
    | goto ↦ found_match m g.line
    | next ↦ found_from m (plus_ℕ line 1)
    | exec ↦ found_from m g.line
    | stop ↦ done (none, m)
  ]

  -- A rule of mode `once` is removed after its run.
  abbrev pub removed_once : Action → Machine W → Outcome (Machine W)
  removed_once a m = elim a.mode [
    | once ↦ Queue.remove m.queue a.pos true >>= λ q. done (with_queue m q)
    | _ ↦ done m
  ]

  abbrev pub unlocked : ℕ → Machine W → Outcome (Machine W)
  unlocked line m = unlock_action m.queue line >>= λ q. done (with_queue m q)

  -- The end of a round, after a task that went on.
  unfoldable pub after_task : ℕ → Action → Machine W → Outcome (Option ℕ × Machine W)
  after_task line a m = next_action a.next a.pos (marked a m) >>= λ r.
      removed_once a r.1 >>= λ m'. unlocked line m' >>= λ m''. done (r.0, m'')

  abbrev pub task_done : ℕ → Action → Bool × Machine W → Outcome (Option ℕ × Machine W)
  task_done line a (ok, m) =
      if not ok || (socket_data_of m).hanging
      then (unlocked line m >>= λ m'. done (none, m'))
      else after_task line a m

  -- One round of the loop on the rule of a line: the next line, and the state.
  abbrev pub round_on : ℕ → Option Action → Machine W → Outcome (Option ℕ × Machine W)
  round_on line none m = fault null_pointer
  round_on line (some a) m =
      if is_spent a m
      then (unlocked line m >>= λ m'. found_match m' (plus_ℕ a.pos 1))
      else action_process a m >>= task_done line a

  unfoldable pub round : ℕ → Machine W → Outcome (Option ℕ × Machine W)
  unfolding is_spent_as
  round line m = round_on line (line_at m.queue line) m

  -- The `while (action)` loop.
  unfoldable pub rounds : ℕ → Option ℕ → Machine W → Outcome (Machine W)
  rounds fuel none m = done m
  rounds zero (some line) m = fault out_of_fuel
  rounds (suc fuel) (some line) m = round line m >>= λ r. rounds fuel r.0 r.1

  -- The system call on its own, as in `return callback(…)`.
  abbrev pub direct : Request → SocketInfo → ActionQueue → Option ActionSocketData → W → Processed W
  direct r si q s w =
      let c = callback si.fd r.memory r.len w in
      record {
        result = c.result;
        errno = c.errno;
        queue = q;
        socket_data = s;
        user_memory = c.bytes;
        world = c.world;
      }

  -- `state` as it is set up before the loop.
  abbrev pub initial : Request → SocketInfo → ActionQueue → ActionSocketData → W → Machine W
  initial r si q s w = record {
    queue = q;
    si = si;
    socket_data = some s;
    call = record {
      orig_len = r.len;
      buf = if is_writing r.direction then null else user 0;
      len = if is_writing r.direction then 0 else r.len;
      dont_wait = r.dont_wait;
      direction = r.direction;
      aborted = false;
      is_done = false;
      called_lines = LigHt.init (length q) false;
      err = r.errno;
      result = pos 0;
      user_memory = r.memory;
      copy_memory = [];
    };
    is_closed = false;
    world = w;
  }

  -- What follows the loop: the call itself, if no rule did or aborted it.
  unfoldable pub finish : Machine W → Processed W
  finish m =
      let m' =
        if not m.call.is_done && not m.call.aborted then (perform_syscall os callback m).1 else m in
      record {
        result = m'.call.result;
        errno = m'.call.err;
        queue = m'.queue;
        socket_data = m'.socket_data;
        user_memory = m'.call.user_memory;
        world = m'.world;
      }

  abbrev pub run_from :
      ℕ → Request → SocketInfo → ActionQueue → ActionSocketData → W → ℕ → Outcome (Processed W)
  run_from fuel r si q s w line =
      rounds fuel (some line) (initial r si q s w) >>= λ m. done (finish m)

  abbrev pub rehung :
      ℕ
      → Request
      → SocketInfo
      → ActionSocketData
      → Option ℕ × ActionQueue × W
      → Outcome (Processed W)
  rehung fuel r si s (none, q, w) = done (direct r si q (some (record s { hanging = false })) w)
  rehung fuel r si s (some line, q, w) = run_from fuel r si q s w line

  -- A read whose delay is over goes on at the rule that hung, which is not locked again. Where that
  -- line is empty `ActionQueue_getMatch` is given `pos` as `matched` and `true` as the line.
  abbrev pub resume :
      ℕ → Request → SocketInfo → ActionQueue → ActionSocketData → W → Outcome (Processed W)
  resume fuel r si q s w = place q s.line >>= λ i. elim (line_at q i) [
    | some a ↦ run_from fuel r si q s w i
    | none ↦
        Queue.get_match os q si r.direction (not (eq_ℤ s.line (pos 0))) (pos 1) true w
        >>= rehung fuel r si s
  ]

  abbrev pub postponed : Request → ActionQueue → ActionSocketData → W → Processed W
  postponed r q s w = record {
    result = minus_one;
    errno = eagain;
    queue = q;
    socket_data = some s;
    user_memory = r.memory;
    world = w;
  }

  abbrev pub matched_first :
      ℕ
      → Request
      → SocketInfo
      → Option ActionSocketData
      → Option ℕ × ActionQueue × W
      → Outcome (Processed W)
  matched_first fuel r si data_ptr (none, q, w) = done (direct r si q data_ptr w)
  matched_first fuel r si data_ptr (some line, q, w) =
      let s = Task.got_socket_data q data_ptr in
      let (time, w') = os.now w in
      if is_reading r.direction && s.hanging
      then (if ltb time s.msec then done (postponed r q s w') else resume fuel r si q s w')
      else run_from fuel r si q s w line

  unfoldable pub process :
      ℕ → ActionQueue → SocketInfo → Option ActionSocketData → Request → W → Outcome (Processed W)
  process fuel q si data_ptr r w =
      Queue.get_match os q si r.direction false (pos 0) true w >>= matched_first fuel r si data_ptr
