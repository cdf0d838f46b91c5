-- ===== src/Task/Files.antt =====
-- src/actions/dump.c, log.c and replay.c: the tasks that write and read files. A task keeps its FILE
-- pointer in the rule that it belongs to, at its line of the queue.
use libinject.Base.{
  ℕ, ◌-◌, ◌/◌, ◌%◌, ◌^◌, Bool, true, false, not, ◌&&◌, ◌||◌, Option, none, some, [], ◌∷◌, ◌++◌,
  ◌==◌, if◌then◌else◌, ltb, length, take, drop, set, Text, codes, ℤ, pos, negsuc, eq_ℤ, minus_one,
  to_unsigned, to_int, u32_mod, u64_mod,
}
use libinject.Format.{show_ℕ, show_ℤ, le_bytes, of_le_bytes}
use libinject.Queue.{ActionQueue, line_at}
use libinject.Rule.{Os, ActionData, is_writing}
use libinject.Socket.{
  SocketInfo, SocketInfoDirection, direction_bits, proto_bits, shares, data_dir, reading, writing,
  connecting, tcp,
}
use libinject.Task.{
  Machine, Syscall, ActionCallData, Buffer, copy, bytes_at, read_buffer, read_buffer_length,
  with_bytes, is_null, is_data, with_call, perform_syscall,
}

-- `memcpy` and `malloc` of `ActionCallData_prepareBuffer`
unfoldable pub prepare_buffer : ActionCallData → ActionCallData
prepare_buffer c =
    if is_null c.buf
    then record c { buf = copy 0; copy_memory = take c.orig_len c.user_memory; len = c.orig_len }
    else c

-- `data[…] = …` in the rule at a line.
abbrev pub store_data : ℤ → ActionData → ActionQueue → ActionQueue
store_data (negsuc n) d q = q
store_data (pos i) d q = elim (line_at q i) [
  | none ↦ q
  | some a ↦ set q i (some (record a { task = record a.task { args = d } }))
]

abbrev pub text_of : Option Text → Text
text_of none = []
text_of (some t) = t

-- `"%d.%d.%d.%d"` with SHOW_ADDR
abbrev pub show_address : ℕ → Text
show_address a =
    show_ℕ (a / 2 ^ 24 % 256)
    ++ b'.' ∷ show_ℕ (a / 2 ^ 16 % 256)
    ++ b'.' ∷ show_ℕ (a / 2 ^ 8 % 256)
    ++ b'.' ∷ show_ℕ (a % 256)

-- What `dump` writes of `success`: of a call that is done or aborted -1 or 1, of another 0.
abbrev pub success_of : ActionCallData → ℤ
success_of c =
    if c.is_done || c.aborted then (if eq_ℤ c.result minus_one then minus_one else pos 1) else pos 0

-- The bytes of a record before its `success`.
abbrev pub record_head : ℕ → SocketInfo → SocketInfoDirection → Text
record_head timer si direction =
    le_bytes 8 timer
    ++ le_bytes 1 (direction_bits direction)
    ++ le_bytes 1 (proto_bits si.proto)
    ++ le_bytes 2 (to_unsigned 0x1_0000 si.local.port)
    ++ le_bytes 4 si.remote.addr
    ++ le_bytes 2 (to_unsigned 0x1_0000 si.remote.port)

abbrev pub error_bytes : ℤ → ℤ → Text
error_bytes errno success =
    if eq_ℤ success minus_one then le_bytes 4 (to_unsigned u32_mod errno) else []

-- The length and the data, for a result other than -1. The count of the last `fwrite` is an `int`.
abbrev pub data_bytes : ActionCallData → Text
data_bytes c =
    let len = read_buffer_length c in
    if is_data c.direction && not (eq_ℤ c.result minus_one)
    then le_bytes 4 len ++ take (to_unsigned u64_mod (to_int len)) (bytes_at c (read_buffer c))
    else []

-- A record of a dump: the bytes that one call of `ActionDump_perform` writes.
unfoldable pub dump_record : ℕ → ℤ → SocketInfo → ActionCallData → Text
dump_record timer errno si c =
    record_head timer si c.direction
    ++ le_bytes 1 (to_unsigned 256 (success_of c))
    ++ error_bytes errno (success_of c)
    ++ data_bytes c

abbrev pub with_pid : Text → ℕ → Text
with_pid name pid = name ++ b'.' ∷ show_ℕ pid

abbrev pub log_verb : SocketInfoDirection → Text
log_verb reading = codes "read "
log_verb writing = codes "write "
log_verb connecting = codes "connect "
log_verb _ = codes "close "

-- The line that `log` prints.
unfoldable pub log_line : ℕ → ℤ → SocketInfo → ActionCallData → Text
log_line time line si c =
    codes "[ts "
    ++ show_ℕ time
    ++ codes "] [line "
    ++ show_ℤ line
    ++ codes "] "
    ++ log_verb c.direction
    ++ (if shares (proto_bits si.proto) (proto_bits tcp) then codes "tcp" else codes "udp")
    ++ b':' ∷ show_ℤ si.local.port
    ++ codes ":["
    ++ show_address si.remote.addr
    ++ codes "]:"
    ++ show_ℤ si.remote.port
    ++ (if is_data c.direction then codes " length=" ++ show_ℕ (read_buffer_length c) else [])
    ++ b'\n' ∷ []

abbrev pub signed_byte : ℕ → ℤ
signed_byte n = if ltb n 128 then pos n else negsuc (255 - n)

-- The bytes that `fread` stores at a buffer, before what was there behind them.
abbrev pub read_into : ActionCallData → Buffer → Text → ActionCallData
read_into c b bytes = with_bytes c b (bytes ++ drop (length bytes) (bytes_at c b))

module _ {W : Type 0} (os : Os W) (callback : Syscall W) where
  abbrev pub with_world : Machine W → W → Machine W
  with_world m w = record m { world = w }

  abbrev with_data : ℤ → ActionData → Machine W → Machine W
  with_data line d m = record m { queue = store_data line d m.queue }

  -- A file that is open already, or that is opened and kept in the rule; 0 where it cannot be.
  abbrev pub opened : (Text → W → ℕ × W) → ℤ → ActionData → Text → Machine W → ℕ × Machine W
  opened open_file line d name m =
      let (file, w) = open_file name m.world in
      if d.word0 == 0
      then (file, with_data line (record d { word0 = file }) (with_world m w))
      else (d.word0, m)

  -- `errno` is read where the record is written, not `state->err`.
  unfoldable pub perform_dump : ℤ → ActionData → Machine W → Bool × Machine W
  perform_dump line d m =
      let (timer, w) = os.now m.world in
      let (file, m₁) =
        opened os.open_write line d (with_pid (text_of d.str) os.process_id) (with_world m w) in
      let bytes = dump_record timer (os.errno m₁.world) m.si m.call in
      if file == 0 then (false, m₁) else (true, with_world m₁ (os.write_file file bytes m₁.world))

  abbrev pub logged : ℤ → ℕ × Machine W → Bool × Machine W
  logged line (file, m) =
      let (time, w) = os.now m.world in
      (true, with_world m (os.write_file file (log_line time line m.si m.call) w))

  -- The time is asked for also where the line goes to stderr, which is not modelled.
  abbrev pub logged_stderr : Machine W → Bool × Machine W
  logged_stderr m = (true, with_world m (os.now m.world).1)

  abbrev pub log_to : ℤ → ActionData → ℕ × Machine W → Bool × Machine W
  log_to line d (file, m) =
      if file == 0
      then logged_stderr (with_data line (record d { word0 = 0; str = none }) m)
      else logged line (file, m)

  abbrev pub log_named : ℤ → ActionData → Option Text → Machine W → Bool × Machine W
  log_named line d none m = logged_stderr m
  log_named line d (some name) m =
      log_to line d (opened os.open_write line d (with_pid name os.process_id) m)

  unfoldable pub perform_log : ℤ → ActionData → Machine W → Bool × Machine W
  perform_log line d m = log_named line d d.str m

  -- `READ(var)` for a variable of `count` bytes.
  abbrev pub read_field : ℕ → ℕ → Machine W → (ℕ → Machine W → Bool × Machine W) → Bool × Machine W
  read_field file count m next =
      let (bytes, w) = os.read_file file count m.world in
      if length bytes == count
      then next (of_le_bytes bytes) (with_world m w)
      else (false, with_world m w)

  abbrev replayed_call : Bool → ℤ → ℤ → ActionCallData → ActionCallData
  replayed_call has_data success len c =
      let failed = eq_ℤ success minus_one in
      let count = to_unsigned u64_mod len in
      record c {
        result = if failed then minus_one else if has_data then len else pos 0;
        err = if failed then len else pos 0;
        orig_len = if has_data && not failed then count else c.orig_len;
        len = if has_data && not failed && not (is_null c.buf) then count else c.len;
      }

  -- What follows the reading of a record.
  unfoldable pub replay_end : ℕ → ℤ → ℤ → Machine W → Bool × Machine W
  replay_end direction success len m =
      let has_data = shares (direction_bits data_dir) direction in
      let m₁ = with_call m (replayed_call has_data success len m.call) in
      let m₂ = if is_writing m.call.direction then (perform_syscall os callback m₁).1 else m₁ in
      if direction == direction_bits m.call.direction
      then (true, with_call m₂ (record m₂.call { aborted = true }))
      else (false, m)

  -- The data, behind its length. What was read into the buffer stays also where it is too short.
  unfoldable pub replay_data : ℕ → ℕ → ℤ → ℤ → Machine W → Bool × Machine W
  replay_data file direction success len m =
      let m₁ = with_call m (prepare_buffer m.call) in
      let count = to_unsigned u64_mod len in
      let (bytes, w) = os.read_file file count m.world in
      let m₂ = record m₁ { call = read_into m₁.call m₁.call.buf bytes; world = w } in
      if ltb m₁.call.len (to_unsigned u32_mod len)
      then (false, m₁)
      else if length bytes == count
      then replay_end direction success len m₂
      else (false, m₂)

  abbrev pub replay_success : ℕ → ℕ → ℤ → Machine W → Bool × Machine W
  replay_success file direction success m =
      let failed = eq_ℤ success minus_one in
      if not (eq_ℤ success (pos 0) || eq_ℤ success (pos 1) || failed)
      then (false, m)
      else if failed || shares (direction_bits data_dir) direction
      then read_field file 4 m (λ n m'.
        if failed
        then replay_end direction success (to_int n) m'
        else replay_data file direction success (to_int n) m')
      else replay_end direction success (pos 0) m

  -- `READ(success)` and the fields before it, from the last to the first.
  abbrev pub read_success : ℕ → ℕ → Machine W → Bool × Machine W
  read_success file direction m =
      read_field file 1 m (λ success m'. replay_success file direction (signed_byte success) m')

  abbrev pub read_remote_port : ℕ → ℕ → Machine W → Bool × Machine W
  read_remote_port file direction m =
      read_field file 2 m (λ port m'. read_success file direction m')

  abbrev pub read_addr : ℕ → ℕ → Machine W → Bool × Machine W
  read_addr file direction m = read_field file 4 m (λ addr m'. read_remote_port file direction m')

  abbrev pub read_local_port : ℕ → ℕ → Machine W → Bool × Machine W
  read_local_port file direction m = read_field file 2 m (λ port m'. read_addr file direction m')

  abbrev pub read_proto : ℕ → ℕ → Machine W → Bool × Machine W
  read_proto file direction m = read_field file 1 m (λ proto m'. read_local_port file direction m')

  abbrev pub read_direction : ℕ → Machine W → Bool × Machine W
  read_direction file m = read_field file 1 m (λ direction m'. read_proto file direction m')

  -- The record at the place where the file stands.
  unfoldable pub replay_record : ℕ → Machine W → Bool × Machine W
  replay_record file m = read_field file 8 m (λ timer m'. read_direction file m')

  unfoldable pub perform_replay : ℤ → ActionData → Machine W → Bool × Machine W
  perform_replay line d m =
      let (file, m₁) = opened os.open_read line d (text_of d.str) m in
      if m.call.is_done
      then (false, m)
      else if file == 0
      then (false, m₁)
      else replay_record file m₁
