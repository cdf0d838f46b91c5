-- ===== src/Rule.antt =====
-- src/actions.c and src/actionsdk.h: the rule (`struct Action`) and when it matches a socket.
-- The union ActionData is its 64 bits, of which `.i` is the low half, as on a little-endian
-- machine; the text of an action stands apart. The mutex and the condition variable of an action
-- are its accessor count and its `emptying` flag. Conditions has
-- src/conditions/*.c; Addresses and Times prove.
pub mod Conditions
pub mod Addresses
pub mod Times
use libinject.Base.{
  ℕ, ◌+◌, ◌-◌, ◌%◌, Bool, true, false, not, ◌&&◌, ◌||◌, Option, ◌==◌, if◌then◌else◌, ltb, leb, Text,
  ℤ, pos, eq_ℤ, minus_one, to_int, to_unsigned, u32_mod, u64_mod,
}
use libinject.Outcome.{Outcome, done, fault, division_by_zero, ◌>>=◌}
use libinject.Socket.{
  SocketInfoDirection, Proto, Host, nobody, me, dns, address, any, HostAddress, SocketInfo,
  direction_bits, proto_bits, shares, reading, writing, connecting, closing, data_dir, connection,
  any_dir,
}

-- What the rules ask of the operating system and the C library: the time in milliseconds, `rand`,
-- `getpid`, `errno` as it stands, and files. A FILE pointer is a number, 0 for NULL; a read gives
-- at most as many bytes as it is asked for.
pub record Os (W : Type 0) : Type 0 where
  pub now : W → ℕ × W
  pub random : W → ℕ × W
  pub sleep : ℤ → W → W
  pub process_id : ℕ
  pub errno : W → ℤ
  pub open_write : Text → W → ℕ × W
  pub open_read : Text → W → ℕ × W
  pub write_file : ℕ → Text → W → W
  pub read_file : ℕ → ℕ → W → Text × W

pub data ActionConditionType : Type 0 where
  after always before between cycle matched never prob unmatched : ActionConditionType

-- The four words of the `data` array that some type uses.
pub record ActionData : Type 0 where
  pub word0 : ℕ
  pub word1 : ℕ
  pub word2 : ℕ
  pub word3 : ℕ
  pub str : Option Text

-- `.i` read from and written to a word of the union
abbrev pub int_of : ℕ → ℤ
int_of word = to_int word

abbrev pub with_int : ℕ → ℤ → ℕ
with_int word i = word - word % u32_mod + to_unsigned u32_mod i

pub record ActionCondition : Type 0 where
  pub type : ActionConditionType
  pub args : ActionData

pub data ActionMode : Type 0 where
  normal once once_per_call once_per_socket : ActionMode

pub data ActionGotoType : Type 0 where
  continue goto next exec stop : ActionGotoType

pub record ActionGoto : Type 0 where
  pub type : ActionGotoType
  pub line : ℤ

pub data ActionTaskType : Type 0 where
  alter cancel_syscall drop dump echo emit error hang local_hang log mark_done nop remote_hang :
      ActionTaskType
  remove replay reset split syscall truncate : ActionTaskType

pub record ActionTask : Type 0 where
  pub type : ActionTaskType
  pub args : ActionData

pub record Action : Type 0 where
  pub pos : ℤ
  pub proto : Proto
  pub direction : SocketInfoDirection
  pub from : HostAddress
  pub to : HostAddress
  pub condition : ActionCondition
  pub mode : ActionMode
  pub task : ActionTask
  pub next : ActionGoto
  pub accessors : ℤ
  pub emptying : Bool

abbrev pub is_me : Host → Bool
is_me me = true
is_me _ = false

abbrev pub is_dns : Host → Bool
is_dns dns = true
is_dns _ = false

abbrev pub is_nobody : Host → Bool
is_nobody nobody = true
is_nobody _ = false

abbrev pub same_port : HostAddress → HostAddress → Bool
same_port a sock = eq_ℤ a.port minus_one || eq_ℤ a.port sock.port

unfoldable pub address_match_as : Host → HostAddress → HostAddress → Bool
address_match_as me a sock = is_me sock.type && same_port a sock
address_match_as dns a sock = is_dns sock.type
address_match_as address a sock = not (sock.addr == a.addr) && same_port a sock
address_match_as any a sock = same_port a sock
address_match_as nobody a sock = false

-- `Action_addressMatch`; the test for the same host is `!=`.
unfoldable pub address_match : HostAddress → HostAddress → Bool
unfolding address_match_as
address_match a sock = address_match_as a.type a sock

abbrev pub is_writing : SocketInfoDirection → Bool
is_writing writing = true
is_writing _ = false

abbrev pub is_reading : SocketInfoDirection → Bool
is_reading reading = true
is_reading _ = false

abbrev pub match_either : Action → SocketInfo → Bool
match_either a si = address_match a.from si.local || address_match a.from si.remote

abbrev pub match_both : Action → SocketInfo → SocketInfoDirection → Bool
match_both a si direction =
    if not (is_nobody a.to.type)
    then address_match (if is_writing direction then a.from else a.to) si.local
      && address_match (if is_reading direction then a.from else a.to) si.remote
    else match_either a si

-- The last `switch` of `Action_match`, on the direction of the rule.
unfoldable pub match_hosts : SocketInfoDirection → Action → SocketInfo → SocketInfoDirection → Bool
unfolding address_match
match_hosts data_dir a si direction = match_both a si direction
match_hosts writing a si direction = match_both a si direction
match_hosts reading a si direction = match_both a si direction
match_hosts any_dir a si direction = match_either a si
match_hosts connecting a si direction = address_match a.to si.remote
match_hosts closing a si direction = address_match a.to si.remote
match_hosts connection a si direction = false
