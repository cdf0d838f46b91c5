-- ===== src/Task/Alter.antt =====
-- src/actions/alter.c: the task that flips bits of the data.
use libinject.Base.{
  ℕ, zero, suc, ◌+◌, ◌-◌, ◌*◌, ◌/◌, ◌%◌, ◌^◌, Bool, true, false, not, ◌&&◌, ◌||◌, ◌==◌,
  if◌then◌else◌, get_or, set, Text, ℤ, pos, negsuc, to_int, u32_mod, bit_xor, min,
}
use libinject.Outcome.{Outcome, done, fault, division_by_zero}
use libinject.Rule.{Os, ActionData, int_of, is_reading, is_writing}
use libinject.Task.Files.{prepare_buffer}
use libinject.Task.{Machine, Syscall, bytes_at, with_bytes, is_data, with_call, perform_syscall}

-- `*buf = (*buf & ~bit) | ((*buf & bit) ^ bit)` on the bit of that number in the bytes.
unfoldable pub flip_bit : Text → ℕ → Text
flip_bit bytes bit = set bytes (bit / 8) (bit_xor (get_or bytes (bit / 8) 0) (2 ^ (bit % 8)))

-- The absolute value of `2 * n`, by which `rand()` is divided; `%` gives the sign of the left side.
abbrev pub double_of : ℤ → ℕ
double_of (pos n) = 2 * n
double_of (negsuc n) = 2 * (n + 1)

-- How many of the bits of a batch are flipped, in `uint32_t`.
abbrev pub flips_of : ℕ → ℕ → ℕ
flips_of value batch = value * batch * 8 % u32_mod / 1_000_000

module _ {W : Type 0} (os : Os W) where
  -- The inner loop: `count` bits at random among the `batch` bytes from `off` on.
  unfoldable pub flip_bits : ℕ → ℕ → ℕ → Text × W → Text × W
  flip_bits zero off batch (bytes, w) = (bytes, w)
  flip_bits (suc count) off batch (bytes, w) =
      let (value, w') = os.random w in
      flip_bits count off batch (flip_bit bytes (8 * off + value % (8 * batch)), w')

  -- The loop over batches of at most 1024 bytes.
  unfoldable pub alter_batches : ℕ → ℕ → ℕ → ℕ → Text × W → Text × W
  alter_batches zero modulus off len (bytes, w) = (bytes, w)
  alter_batches (suc rounds) modulus off len (bytes, w) =
      let batch = min len 1024 in
      let (value, w') = os.random w in
      let rest =
        alter_batches rounds modulus (off + batch) (len - batch)
          (flip_bits (flips_of (value % modulus) batch) off batch (bytes, w')) in
      if len == 0 then (bytes, w) else rest

  -- `int length = state->len`: a length that is negative as an `int` alters nothing.
  abbrev pub int_length : ℕ → ℕ
  int_length len = elim (to_int len) [ pos n ↦ n | negsuc n ↦ 0 ]

module _ {W : Type 0} (os : Os W) (callback : Syscall W) where
  abbrev pub altered : ℕ → Machine W → Machine W
  altered modulus m =
      let len = int_length os m.call.len in
      let (bytes, w) =
        alter_batches os (len / 1024 + 1) modulus 0 len (bytes_at m.call m.call.buf, m.world) in
      record m { call = with_bytes m.call m.call.buf bytes; world = w }

  -- The modulus is 0 where it is used, which is only where there are bytes.
  abbrev pub no_modulus : ActionData → Machine W → Bool
  no_modulus d m = double_of (int_of d.word0) == 0 && not (int_length os m.call.len == 0)

  abbrev pub altered_or_fault : ActionData → Machine W → Outcome (Bool × Machine W)
  altered_or_fault d m =
      if no_modulus d m
      then fault division_by_zero
      else done (true, altered (double_of (int_of d.word0)) m)

  -- The system call comes first for a read that has not been done.
  abbrev pub read_first : Machine W → Machine W
  read_first m =
      if is_reading m.call.direction && not m.call.is_done
      then (perform_syscall os callback m).1
      else m

  abbrev pub prepared : Machine W → Machine W
  prepared m = with_call (read_first m) (prepare_buffer (read_first m).call)

  unfoldable pub perform_alter : ActionData → Machine W → Outcome (Bool × Machine W)
  perform_alter d m =
      if not (is_data m.call.direction) || (is_writing m.call.direction && m.call.is_done)
      then done (false, m)
      else altered_or_fault d (prepared m)
