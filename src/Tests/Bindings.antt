-- ===== src/Tests/Bindings.antt =====
-- The wrappers of src/binding.c on a table of four sockets.
use libinject.Base.{
  ℕ, true, false, none, some, List, [], ◌∷◌, ◌++◌, ◌≡◌, ◌≢◌, refl, arith, pos, minus_one, Text,
  codes, take, drop,
}
use libinject.Binding.Ends.{connect-IsForgotten, IsForgotten}
use libinject.Binding.References.{AreSafe}
use libinject.Binding.Calls.{System, close, connect, on_end}
use libinject.Binding.Scatter.{gather-scatter}
use libinject.Binding.Sequences.{
  Steps, Steps-AreSafe, start-IsSafe, no_step, one_more, buffer_call, close_call,
}
use libinject.Binding.Vectors.{MessageCall, total_length, gather, scatter}
use libinject.Binding.{
  Bindings, Returned, get_infos, wrapped, check_pointer, process_at, native, release,
}
use libinject.LigHt
use libinject.LigHt.{LigHt}
use libinject.Outcome.{Outcome, done, fault}
use libinject.Process.{process}
use libinject.Queue
use libinject.Rule.Conditions.{match_action}
use libinject.Socket
use libinject.Socket.{SocketFacts, HostAddress, nobody, stream, connecting}
use libinject.Tests.Data.{clock, write_some, host, two_rules, write_hello}

-- A connected TCP socket.
abbrev pub connected_facts : SocketFacts
connected_facts = record {
  is_socket = true;
  peer_name = some (77, 80);
  sock_name = some (1, 4000);
  socket_type = some stream;
  flags = some false;
}

abbrev pub no_host : HostAddress
no_host = host nobody 0 (pos 0)

-- Calls on several buffers answer 0.
abbrev no_message : MessageCall ℕ
no_message fd vectors flags w = record { result = pos 0; errno = pos 0; bytes = []; world = w }

abbrev pub write_system : System ℕ
write_system = record {
  sysread = write_some;
  sysrecv = λ flags. write_some;
  sysrecvfrom = λ flags. write_some;
  sysrecvmsg = no_message;
  sysreadv = λ fd vectors w. no_message fd vectors 0 w;
  syswrite = write_some;
  syssend = λ flags. write_some;
  syssendto = λ flags. write_some;
  syssendmsg = no_message;
  syswritev = λ fd vectors w. no_message fd vectors 0 w;
  sysconnect = write_some;
  sysclose = write_some;
}

abbrev at_start : Bindings
at_start = record { is_on = true; queue = two_rules; sockets = LigHt.init 4 false; heap = [] }

abbrev pub returned_or : Bindings → Outcome (Returned ℕ) → Returned ℕ
returned_or b (done r) = r
returned_or b (fault e) = record {
  result = minus_one;
  errno = pos 0;
  memory = [];
  bindings = b;
  world = 0;
}

abbrev first_write : Outcome (Returned ℕ)
first_write = wrapped clock 10 connected_facts no_host write_some (pos 5) write_hello at_start 0

abbrev written : Returned ℕ
written = returned_or at_start first_write

first_write-done : first_write ≡ done written
unfolding wrapped get_infos check_pointer process_at release native process LigHt.get LigHt.probe
    LigHt.init Socket.init Queue.get_match match_action
first_write-done = refl

abbrev first_close : Outcome (Returned ℕ)
first_close = close clock write_system 10 connected_facts no_host (pos 0) (pos 5) written.bindings 0

abbrev closed : Returned ℕ
closed = returned_or at_start first_close

first_close-done : first_close ≡ done closed
unfolding wrapped get_infos check_pointer process_at release native process LigHt.get LigHt.probe
    LigHt.init Socket.init Queue.get_match match_action close Socket.unlock Socket.lock LigHt.put
    Socket.check
first_close-done = refl

five-ne : pos 5 ≢ minus_one
five-ne = λ e. cc

write_and_close : Steps clock write_system at_start closed.bindings
write_and_close =
    one_more at_start written.bindings closed.bindings
      (one_more at_start at_start written.bindings (no_step at_start) (
        buffer_call 10 connected_facts no_host write_some (pos 5) write_hello at_start 0 written
          five-ne first_write-done))
      (close_call 10 connected_facts no_host (pos 0) (pos 5) written.bindings 0 closed five-ne
        first_close-done)

abbrev two_buffers : List Text
two_buffers = codes "ab" ∷ codes "cdef" ∷ []

gather-scatter_example :
    gather (scatter 3 (codes "xyz") two_buffers)
    ≡ take 3 (codes "xyz") ++ drop 3 (gather two_buffers)
unfolding gather scatter total_length
gather-scatter_example = gather-scatter 3 (codes "xyz") two_buffers (omega arith) (omega arith)

scattered : scatter 3 (codes "xyz") two_buffers ≡ codes "xy" ∷ codes "zdef" ∷ []
unfolding scatter
scattered = refl

-- The descriptor is now no IPv4 socket.
abbrev other_facts : SocketFacts
other_facts = record connected_facts { is_socket = false }

is_still_on : written.bindings.is_on ≡ true
unfolding wrapped get_infos check_pointer process_at release native process LigHt.get LigHt.probe
    LigHt.init Socket.init Queue.get_match match_action Socket.unlock Socket.lock
is_still_on = refl

unknown : Socket.init_light other_facts no_host (pos 5) (77, 80) ≡ none
unfolding Socket.init_light
unknown = refl

connect-IsForgotten_example :
    (b : Bindings) × (connect clock write_system 10 other_facts no_host
        (pos 0)
        (pos 5)
        (77, 80)
        written.bindings
        0
      ≡ done (
          native clock write_system.sysconnect
            (pos 5)
            (on_end clock write_system 10 other_facts no_host (pos 0) (pos 5) connecting)
            b
            0))
    × AreSafe b
    × IsForgotten clock write_system 10 other_facts no_host (pos 0) (pos 5) written.bindings b
connect-IsForgotten_example =
    connect-IsForgotten clock write_system 10 other_facts no_host (pos 0) (pos 5) (77, 80)
      written.bindings 0
      (Steps-AreSafe clock write_system
        (one_more at_start at_start written.bindings (no_step at_start) (
          buffer_call 10 connected_facts no_host write_some (pos 5) write_hello at_start 0 written
            five-ne first_write-done))
        (start-IsSafe 4 (omega arith) (omega arith)))
      five-ne is_still_on unknown
