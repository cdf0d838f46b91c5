-- ===== src/Task/Perform.antt =====
-- The tasks of src/actions that perform the system call or change the queue or the socket's data,
-- and the choice of the task by its type (`Action(action).perform`).
use libinject.Base.{
  ℕ, ◌+◌, ◌-◌, ◌*◌, ◌/◌, ◌%◌, Bool, true, false, not, ◌&&◌, ◌||◌, some, ◌==◌, if◌then◌else◌, ℤ, pos,
  eq_ℤ, ltb_ℤ, minus_one, plus_ℕ, u64_mod,
}
use libinject.LigHt
use libinject.Outcome.{Outcome, done, ◌>>=◌}
use libinject.Queue
use libinject.Rule.Conditions.{wide}
use libinject.Rule.{
  Os, ActionData, ActionTask, ActionTaskType, int_of, is_writing, is_reading, alter, cancel_syscall,
  drop, dump, echo, emit, error, hang, local_hang, log, mark_done, nop, remote_hang, remove, replay,
  reset, split, syscall, truncate,
}
use libinject.Task.Alter.{perform_alter}
use libinject.Task.Files.{perform_dump, perform_log, perform_replay}
use libinject.Task.{
  Syscall, Machine, eagain, read_buffer, read_buffer_length, advance, is_blocking, socket_data_of,
  with_call, perform_syscall, perform_cancel_syscall, perform_drop, perform_error, perform_emit,
  perform_reset, perform_truncate,
}

abbrev pub at_least_one : ℕ → ℕ
at_least_one n = if n == 0 then 1 else n

-- `(data[0].i * len) / 100` in `size_t`
abbrev pub percent : ActionData → ℕ → ℕ
percent d n = wide d.word0 * n % u64_mod / 100

module _ {W : Type 0} (os : Os W) (callback : Syscall W) where
  -- The second write of a split, after one that wrote its whole part of `first` bytes.
  unfoldable pub second_write : ℕ → ℕ → Machine W → Machine W
  second_write first total m =
      let m₁ = with_call m (record m.call {
        is_done = false;
        buf = advance m.call.buf first;
        len = (total + u64_mod - first) % u64_mod;
      }) in
      let m₂ = (perform_syscall os callback m₁).1 in
      with_call m₂ (record m₂.call {
        result = if eq_ℤ m₂.call.result minus_one then pos first else plus_ℕ m₂.call.result first;
      })

  -- What follows the first write: the second, unless the first fell short.
  unfoldable pub after_first : ℕ → ℕ → Machine W → Machine W
  after_first first total m =
      if eq_ℤ m.call.result (pos first) then second_write first total m else m

  unfoldable pub split_writing : ActionData → Machine W → Bool × Machine W
  split_writing d m =
      let total = read_buffer_length m.call in
      let first = at_least_one (percent d total) in
      let m₁ = with_call m (record m.call { buf = read_buffer m.call; len = first }) in
      let m₂ = after_first first total (perform_syscall os callback m₁).1 in
      if total == 1
      then perform_syscall os callback m
      else (true, with_call m₂ (record m₂.call { buf = m.call.buf; len = m.call.len }))

  unfoldable pub perform_split : ActionData → Machine W → Bool × Machine W
  perform_split d m =
      if m.call.is_done || m.call.aborted
      then (false, m)
      else if is_reading m.call.direction
      then perform_syscall os callback
          (with_call m (record m.call { len = at_least_one (percent d m.call.len) }))
      else if is_writing m.call.direction
      then split_writing d m
      else (false, m)

  -- A read that would not block is put off; in any other case the thread sleeps.
  unfoldable pub perform_hang : ℤ → ActionData → Machine W → Bool × Machine W
  perform_hang line d m =
      let (time, world) = os.now m.world in
      if not (is_blocking m.si m.call) && is_reading m.call.direction && not m.call.is_done
      then (
        true,
        record m {
          socket_data = some (record (socket_data_of m) {
            hanging = true;
            line = line;
            msec = (time + wide d.word0) % u64_mod;
          });
          call = record m.call { aborted = true; err = eagain; result = minus_one };
          world = world;
        },
      )
      else (true, record m { world = os.sleep (int_of d.word0) m.world })

  abbrev pub hang_after : ℤ → ActionData → Bool × Machine W → Bool × Machine W
  hang_after line d (false, m) = (false, m)
  hang_after line d (true, m) = perform_hang line d m

  unfoldable pub perform_local_hang : ℤ → ActionData → Machine W → Bool × Machine W
  unfolding perform_hang perform_syscall
  perform_local_hang line d m =
      if is_reading m.call.direction && not m.call.is_done && not m.call.aborted
      then hang_after line d (perform_syscall os callback m)
      else perform_hang line d m

  unfoldable pub perform_mark_done : ActionData → Machine W → Bool × Machine W
  perform_mark_done d m =
      if eq_ℤ (int_of d.word0) (pos 1)
      then (
        true,
        with_call m (record m.call {
          called_lines = (LigHt.put m.call.called_lines (int_of d.word1) (some tt) true).0;
        }),
      )
      else (let s = socket_data_of m in
          (
            true,
            record m {
              socket_data = some (record s {
                called_lines = (LigHt.put s.called_lines (int_of d.word1) (some tt) true).0;
              });
            },
          ))

  -- Lines below 10 are the system's.
  unfoldable pub perform_remove : ActionData → Machine W → Outcome (Bool × Machine W)
  perform_remove d m =
      if ltb_ℤ (int_of d.word0) (pos 10)
      then done (false, m)
      else Queue.remove m.queue (int_of d.word0) true >>= λ q. done (true, record m { queue = q })

  unfoldable pub perform_type :
      ActionTaskType → ℤ → ActionData → Machine W → Outcome (Bool × Machine W)
  perform_type cancel_syscall line d m = done (perform_cancel_syscall os callback m)
  perform_type drop line d m = done (perform_drop os callback m)
  perform_type echo line d m = done (true, m)
  perform_type emit line d m = done (perform_emit os callback d m)
  perform_type error line d m = done (perform_error os callback d m)
  perform_type hang line d m = done (perform_hang line d m)
  perform_type local_hang line d m = done (perform_local_hang line d m)
  perform_type log line d m = done (perform_log os callback line d m)
  perform_type mark_done line d m = done (perform_mark_done d m)
  perform_type nop line d m = done (true, m)
  perform_type remote_hang line d m = done (perform_hang line d m)
  perform_type remove line d m = perform_remove d m
  perform_type reset line d m = done (perform_reset os callback m)
  perform_type split line d m = done (perform_split d m)
  perform_type syscall line d m = done (perform_syscall os callback m)
  perform_type truncate line d m = done (perform_truncate os callback d m)
  perform_type alter line d m = perform_alter os callback d m
  perform_type dump line d m = done (perform_dump os callback line d m)
  perform_type replay line d m = done (perform_replay os callback line d m)

  unfoldable pub perform : ActionTask → ℤ → Machine W → Outcome (Bool × Machine W)
  unfolding perform_type perform_split split_writing after_first second_write
  perform t line m = perform_type t.type line t.args m
