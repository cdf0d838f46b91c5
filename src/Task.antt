-- ===== src/Task.antt =====
-- src/actions/*.c: what a rule does to the call that it is applied to. The buffers are texts: the
-- user's, at `origBuf`, and the copy that a task may allocate; a pointer is an offset into one.
-- Messages on stderr are output only and are left out. Files has the tasks that write and read
-- files, Alter the one that flips bits, Perform the longer ones and their choice by type; Splits,
-- Failures and Dumps prove.
pub mod Files
pub mod Alter
pub mod Dumps
pub mod Perform
pub mod Splits
pub mod Failures
use libinject.Base.{
  ℕ, ◌+◌, ◌-◌, ◌*◌, ◌/◌, ◌%◌, Bool, true, false, not, ◌&&◌, ◌||◌, Option, none, some, [], ◌++◌,
  ◌==◌, if◌then◌else◌, ltb, length, take, drop, Text, ℤ, pos, negsuc, eq_ℤ, ltb_ℤ, minus_one,
  to_unsigned, to_ssize, u64_mod,
}
use libinject.LigHt
use libinject.LigHt.{LigHt}
use libinject.Outcome.{Outcome, done, fault, ◌>>=◌}
use libinject.Queue
use libinject.Queue.{ActionQueue}
use libinject.Rule.Conditions.{wide}
use libinject.Rule.{
  Os, ActionData, ActionTaskType, int_of, is_writing, is_reading, cancel_syscall, echo, emit, error,
  hang, local_hang, log, mark_done, nop, remote_hang, remove, reset, split, syscall, truncate,
}
use libinject.Socket.{
  SocketInfo, SocketInfoDirection, direction_bits, shares, data_dir, reading, writing,
}

-- A buffer pointer: NULL, or an offset into the user's buffer or into the copy.
pub data Buffer : Type 0 where
  null : Buffer
  user : ℕ → Buffer
  copy : ℕ → Buffer

-- The lines that were called, marked by a pointer to "OK".
abbrev pub Lines : Type 0
Lines = LigHt (Unit {0})

-- `dont_wait` is `flags & MSG_DONTWAIT`; the queue and the callback stand apart, and `user_memory`
-- and `copy_memory` are what the pointers point to.
pub record ActionCallData : Type 0 where
  pub orig_len : ℕ
  pub buf : Buffer
  pub len : ℕ
  pub dont_wait : Bool
  pub direction : SocketInfoDirection
  pub aborted : Bool
  pub is_done : Bool
  pub called_lines : Lines
  pub err : ℤ
  pub result : ℤ
  pub user_memory : Text
  pub copy_memory : Text

pub record ActionSocketData : Type 0 where
  pub called_lines : Lines
  pub hanging : Bool
  pub msec : ℕ
  pub line : ℤ

-- What a system call returns, with the bytes at its buffer and the world afterwards.
pub record SyscallResult (W : Type 0) : Type 0 where
  pub result : ℤ
  pub errno : ℤ
  pub bytes : Text
  pub world : W

-- `Action_syscall`: descriptor, bytes from the buffer on, length.
abbrev pub Syscall : Type 0 → Type 0
Syscall W = ℤ → Text → ℕ → W → SyscallResult W

pub record Machine (W : Type 0) : Type 0 where
  pub queue : ActionQueue
  pub si : SocketInfo
  pub socket_data : Option ActionSocketData
  pub call : ActionCallData
  pub is_closed : Bool
  pub world : W

-- The errno and signal numbers of Linux.
abbrev pub eagain : ℤ
eagain = pos 11

abbrev pub ebadf : ℤ
ebadf = pos 9

abbrev pub eintr : ℤ
eintr = pos 4

abbrev pub epipe : ℤ
epipe = pos 32

abbrev pub sigpipe : ℤ
sigpipe = pos 13

abbrev pub is_null : Buffer → Bool
is_null null = true
is_null (user o) = false
is_null (copy o) = false

-- `READ_BUFFER`
abbrev pub read_buffer : ActionCallData → Buffer
read_buffer c = elim c.buf [ null ↦ user 0 | user o ↦ user o | copy o ↦ copy o ]

-- `READ_BUFFER_LENGTH`
abbrev pub read_buffer_length : ActionCallData → ℕ
read_buffer_length c = if is_null c.buf then c.orig_len else c.len

-- `(uint8_t*)buf + n`
abbrev pub advance : Buffer → ℕ → Buffer
advance null n = null
advance (user o) n = user (o + n)
advance (copy o) n = copy (o + n)

abbrev pub bytes_at : ActionCallData → Buffer → Text
bytes_at c null = []
bytes_at c (user o) = drop o c.user_memory
bytes_at c (copy o) = drop o c.copy_memory

abbrev pub with_bytes : ActionCallData → Buffer → Text → ActionCallData
with_bytes c null bytes = c
with_bytes c (user o) bytes = record c { user_memory = take o c.user_memory ++ bytes }
with_bytes c (copy o) bytes = record c { copy_memory = take o c.copy_memory ++ bytes }

-- How many bytes a result stands for: none for -1.
abbrev pub transferred : ℤ → ℕ
transferred (pos n) = n
transferred (negsuc n) = 0

-- `Data & state->direction`
abbrev pub is_data : SocketInfoDirection → Bool
is_data direction = shares (direction_bits data_dir) (direction_bits direction)

-- `IS_BLOCKING`
abbrev pub is_blocking : SocketInfo → ActionCallData → Bool
is_blocking si c = si.blocking && not c.dont_wait

-- `ActionSocketData_get` on a socket with no data yet
abbrev pub fresh_socket_data : ActionQueue → ActionSocketData
fresh_socket_data q = record {
  called_lines = LigHt.init (length q) false;
  hanging = false;
  msec = 0;
  line = pos 0;
}

abbrev pub got_socket_data : ActionQueue → Option ActionSocketData → ActionSocketData
got_socket_data q none = fresh_socket_data q
got_socket_data q (some d) = d

module _ {W : Type 0} where
  abbrev pub with_call : Machine W → ActionCallData → Machine W
  with_call m c = record m { call = c }

  abbrev pub socket_data_of : Machine W → ActionSocketData
  socket_data_of m = got_socket_data m.queue m.socket_data

  -- The state after a system call that gave `r`.
  abbrev pub called : Machine W → SyscallResult W → Machine W
  called m r =
      let c = with_bytes m.call (read_buffer m.call) r.bytes in
      record m {
        call = record c {
          result = r.result;
          err = r.errno;
          len = if is_null m.call.buf then m.call.len else transferred r.result;
          orig_len = transferred r.result;
          aborted = false;
          is_done = true;
        };
        world = r.world;
      }

  abbrev pub aborted_with : Machine W → ℤ → Machine W
  aborted_with m result = with_call m (record m.call { aborted = true; result = result })

module _ {W : Type 0} (os : Os W) (callback : Syscall W) where
  -- `ActionSyscall_perform`
  unfoldable pub perform_syscall : Machine W → Bool × Machine W
  perform_syscall m = if m.call.aborted then (false, m) else (
    true,
    called m (
        callback m.si.fd (bytes_at m.call (read_buffer m.call)) (read_buffer_length m.call)
          m.world),
  )

  unfoldable pub perform_cancel_syscall : Machine W → Bool × Machine W
  perform_cancel_syscall m = if m.call.is_done then (false, m) else (true, aborted_with m minus_one)

  unfoldable pub perform_drop : Machine W → Bool × Machine W
  perform_drop m =
      if m.call.is_done
      then (false, m)
      else (true, aborted_with m (to_ssize (read_buffer_length m.call)))

  unfoldable pub perform_error : ActionData → Machine W → Bool × Machine W
  perform_error d m =
      if m.call.is_done
      then (false, m)
      else if is_blocking m.si m.call && eq_ℤ (int_of d.word0) eagain
      then (false, m)
      else (
        true,
        with_call m (record m.call { err = int_of d.word0; result = minus_one; aborted = true }),
      )

  unfoldable pub perform_emit : ActionData → Machine W → Bool × Machine W
  perform_emit d m = if m.call.is_done then (false, m) else (
    true,
    with_call m (record m.call {
      err = if eq_ℤ (int_of d.word0) sigpipe then epipe else eintr;
      result = minus_one;
      aborted = true;
    }),
  )

  unfoldable pub perform_reset : Machine W → Bool × Machine W
  perform_reset m = if m.call.is_done then (false, m) else (
    true,
    record m {
      call = record m.call { is_done = true; result = minus_one; err = ebadf };
      is_closed = true;
    },
  )

  abbrev at_most : ℕ → ℕ → ℕ
  at_most limit n = if ltb limit n then limit else n

  unfoldable pub perform_truncate : ActionData → Machine W → Bool × Machine W
  perform_truncate d m =
      if m.call.is_done || m.call.aborted
      then (false, m)
      else if not (is_data m.call.direction)
      then (false, m)
      else (
        true,
        with_call m (record m.call {
          orig_len = at_most (wide d.word0) m.call.orig_len;
          len = at_most (wide d.word0) m.call.len;
        }),
      )
