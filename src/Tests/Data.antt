-- ===== src/Tests/Data.antt =====
-- The rules, sockets and calls of the tests.
use Prim.Native.Nat.{min}
use libinject.Base.{ℕ, true, false, none, some, [], ◌∷◌, ◌+◌, ℤ, pos, minus_one, Text, codes}
use libinject.LigHt
use libinject.Parser.{Status}
use libinject.Process.{Request}
use libinject.Queue.{ActionQueue}
use libinject.Read.Arguments.{Beyond}
use libinject.Read.Hosts.{Resolver}
use libinject.Rule.{Os, Action, ActionData, always, once, nop, stop}
use libinject.Socket.{SocketInfo, HostAddress, Host, address, me, nobody, tcp, connecting, writing}
use libinject.Task.{Machine, Syscall, null}

-- A world that counts its clock readings.
abbrev pub clock : Os ℕ
clock = record {
  now = λ w. (w, w + 1);
  random = λ w. (w, w + 1);
  sleep = λ ms w. w;
  process_id = 1;
  errno = λ w. pos 0;
  open_write = λ name w. (0, w);
  open_read = λ name w. (0, w);
  write_file = λ file bytes w. w;
  read_file = λ file count w. ([], w);
}

-- A `write` that takes at most 4 bytes and adds up how many it took.
abbrev pub write_some : Syscall ℕ
write_some fd bytes len w = record {
  result = pos (min len 4);
  errno = pos 0;
  bytes = bytes;
  world = w + min len 4;
}

abbrev pub data_of : ℕ → ℕ → ℕ → ℕ → ActionData
data_of a b c d = record { word0 = a; word1 = b; word2 = c; word3 = d; str = none }

abbrev pub host : Host → ℕ → ℤ → HostAddress
host type addr port = record { type = type; addr = addr; port = port }

-- `do-once nop stop`, for connections to the address 77, on its line
abbrev pub connect_rule : ℕ → ℤ → Action
connect_rule line accessors = record {
  pos = pos line;
  proto = tcp;
  direction = connecting;
  from = host nobody 0 minus_one;
  to = host address 77 minus_one;
  condition = record { type = always; args = data_of 0 0 0 0 };
  mode = once;
  task = record { type = nop; args = data_of 0 0 0 0 };
  next = record { type = stop; line = pos 0 };
  accessors = accessors;
  emptying = false;
}

abbrev pub two_rules : ActionQueue
two_rules = none ∷ some (connect_rule 1 (pos 0)) ∷ some (connect_rule 2 (pos 1)) ∷ []

abbrev pub web_socket : SocketInfo
web_socket = record {
  fd = pos 5;
  proto = tcp;
  local = host me 1 (pos 4000);
  remote = host address 77 (pos 80);
  blocking = true;
  to_destroy = false;
  sem = pos 2;
}

abbrev pub hello : Text
hello = codes "hello"

abbrev pub write_hello : Request
write_hello = record {
  direction = writing;
  memory = hello;
  len = 5;
  dont_wait = false;
  errno = pos 0;
}

-- The state of the write of "hello" before its first task.
abbrev pub writing_hello : Machine ℕ
writing_hello = record {
  queue = two_rules;
  si = web_socket;
  socket_data = none;
  call = record {
    orig_len = 5;
    buf = null;
    len = 0;
    dont_wait = false;
    direction = writing;
    aborted = false;
    is_done = false;
    called_lines = LigHt.init 3 false;
    err = pos 0;
    result = pos 0;
    user_memory = hello;
    copy_memory = [];
  };
  is_closed = false;
  world = 0;
}

abbrev pub one_host : Resolver
one_host = record { host_by_name = λ name. some 77; service_by_name = λ name. none }

abbrev pub nothing_beyond : Beyond
nothing_beyond = record { entries = []; last = pos 0 }

abbrev pub fresh_status : Status
fresh_status = some (record { str = record { function = ""; error = "" }; pos = none })
