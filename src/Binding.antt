-- ===== src/Binding.antt =====
-- src/binding.c: the calls that take the place of those of the C library. A pointer to the info of a
-- socket is its place in a heap, where `none` is one that was freed; the table of sockets maps
-- descriptors to pointers. The functions that `dlsym` finds are a parameter. The `close` that a task
-- `reset` makes is not seen by the table. Vectors has the calls on several buffers, Calls the
-- wrappers; Scatter proves of the buffers; the others prove that no info is used after it was freed:
-- Safety has the invariant, Table the writes to the table, References `getInfos` and `RELEASE_SI`,
-- Wrappers, Several and Ends the wrappers, Sequences any number of calls. Load has `inj_init` and
-- `inj_fini`; Loaded proves of the calls after them.
pub mod Calls
pub mod Vectors
pub mod Safety
pub mod Table
pub mod References
pub mod Wrappers
pub mod Several
pub mod Ends
pub mod Sequences
pub mod Scatter
pub mod Load
pub mod Loaded
use libinject.Base.{
  ℕ, ◌+◌, Bool, true, false, not, ◌&&◌, Option, none, some, List, [], ◌∷◌, ◌++◌, ◌==◌,
  if◌then◌else◌, length, get_or, set, Text, ℤ, pos, bit_and,
}
use libinject.LigHt
use libinject.LigHt.{LigHt}
use libinject.Outcome.{Outcome, done, fault, null_pointer, use_after_free, ◌>>=◌}
use libinject.Process
use libinject.Process.{Request, Processed, process}
use libinject.Queue.{ActionQueue}
use libinject.Rule.{Os}
use libinject.Socket
use libinject.Socket.{SocketInfo, SocketFacts, SocketInfoDirection, HostAddress}
use libinject.Task.{ActionSocketData, Syscall, SyscallResult}

-- A `SocketInfo` with the data that `SocketInfo_setData` attached to it.
pub record Attached : Type 0 where
  pub info : SocketInfo
  pub context : Option ActionSocketData

-- `config->queue` and `sockets`, and the infos in memory. `is_on` tells that there is a `config`.
pub record Bindings : Type 0 where
  pub is_on : Bool
  pub queue : ActionQueue
  pub sockets : LigHt ℕ
  pub heap : List (Option Attached)

abbrev pub deref : List (Option Attached) → ℕ → Outcome Attached
deref heap p = elim (get_or heap p none) [ none ↦ fault use_after_free | some a ↦ done a ]

-- The info behind a pointer after a function that may have freed it.
abbrev pub put_info : Bindings → ℕ → Attached → Option SocketInfo → Bindings
put_info b p a none = record b { heap = set b.heap p none }
put_info b p a (some si) = record b { heap = set b.heap p (some (record a { info = si })) }

-- A new info, at the end of the heap.
abbrev pub allocate : Bindings → SocketInfo → ℕ × Bindings
allocate b si =
    (length b.heap, record b { heap = b.heap ++ some (record { info = si; context = none }) ∷ [] })

abbrev pub put_socket : Bindings → ℤ → Option ℕ → Bindings
put_socket b fd p = record b { sockets = (LigHt.put b.sockets fd p true).0 }

abbrev usable : ℕ → Option SocketInfo → Option ℕ
usable p none = none
usable p (some si) = if si.to_destroy then none else some p

-- `SocketInfo_check` behind a pointer, which may be NULL: whether the info may be used.
unfoldable pub check_pointer : SocketFacts → Option ℕ → Bindings → Outcome (Option ℕ × Bindings)
check_pointer facts none b = done (none, b)
check_pointer facts (some p) b = deref b.heap p >>= λ a.
    let r = Socket.check facts a.info in done (usable p r.1, put_info b p a r.0)

abbrev pub locked_new : Bindings → ℤ → Option SocketInfo → Option ℕ × Bindings
locked_new b fd none = (none, put_socket b fd none)
locked_new b fd (some si) =
    let (p, b') = allocate b (Socket.lock si) in (some p, put_socket b' fd (some p))

abbrev pub found_or_new : SocketFacts → HostAddress → ℤ → Option ℕ × Bindings → Option ℕ × Bindings
found_or_new facts raw fd (some p, b) = (some p, b)
found_or_new facts raw fd (none, b) = locked_new b fd (Socket.init facts raw fd)

-- `getInfos`, where the library is switched on. What the system says of the descriptor does not
-- change during the call; `raw` is the fresh memory of an address.
unfoldable pub get_infos : SocketFacts → HostAddress → ℤ → Bindings → Outcome (Option ℕ × Bindings)
get_infos facts raw fd b =
    check_pointer facts (LigHt.get b.sockets fd) b >>= λ r. done (found_or_new facts raw fd r)

-- The `old` part of `getInfosOnConnect`: the lock is given back in the same breath.
unfoldable pub retire : Option ℕ → Bindings → Outcome Bindings
retire none b = done b
retire (some p) b = deref b.heap p >>= λ a.
    done (put_info b p a (Socket.unlock (record (Socket.lock a.info) { to_destroy = true })))

abbrev pub connected : Bindings → ℤ → SocketInfo → Outcome (Option ℕ × Bindings)
connected b fd si =
    let (p, b') = allocate b (Socket.lock si) in
    retire (LigHt.get b'.sockets fd) b' >>= λ b''. done (some p, put_socket b'' fd (some p))

-- What is stored where there is no info to be had.
abbrev pub forgotten : Bindings → ℤ → Outcome (Option ℕ × Bindings)
forgotten b fd = retire (LigHt.get b.sockets fd) b >>= λ b'. done (none, put_socket b' fd none)

-- `getInfosOnConnect`; a lock of NULL does nothing.
unfoldable pub get_infos_on_connect :
    SocketFacts → HostAddress → ℤ → ℕ × ℕ → Bindings → Outcome (Option ℕ × Bindings)
get_infos_on_connect facts raw fd given b = elim (Socket.init_light facts raw fd given) [
  | none ↦ forgotten b fd
  | some si ↦ connected b fd si
]

-- `RELEASE_SI`
unfoldable pub release : Option ℕ → Bindings → Outcome Bindings
release none b = done b
release (some p) b = deref b.heap p >>= λ a. done (put_info b p a (Socket.unlock a.info))

-- The end of an outermost call: what the program gets back.
pub record Returned (W : Type 0) : Type 0 where
  pub result : ℤ
  pub errno : ℤ
  pub memory : Text
  pub bindings : Bindings
  pub world : W

module _ {W : Type 0} (os : Os W) where
  abbrev returned : Bindings → Processed W → Returned W
  returned b r = record {
    result = r.result;
    errno = r.errno;
    memory = r.user_memory;
    bindings = b;
    world = r.world;
  }

  -- `ActionQueue_process` on the info behind a pointer, whose data it may attach.
  unfoldable pub process_at : ℕ → Syscall W → Request → ℕ → Bindings → W → Outcome (Returned W)
  process_at fuel callback request p b w = deref b.heap p >>= λ a.
      process os callback fuel b.queue a.info a.context request w >>= λ r.
      let heap = set b.heap p (some (record a { context = r.socket_data })) in
      done (returned (record b { queue = r.queue; heap = heap }) r)

  -- The native call, as the wrappers make it for a descriptor that has no info.
  unfoldable pub native : Syscall W → ℤ → Request → Bindings → W → Returned W
  native callback fd request b w =
      let r = callback fd request.memory request.len w in
      record { result = r.result; errno = r.errno; memory = r.bytes; bindings = b; world = r.world }

  abbrev pub released : Option ℕ → Returned W → Outcome (Returned W)
  released p r = release p r.bindings >>= λ b. done (record r { bindings = b })

  abbrev wrapped_at : ℕ → Syscall W → ℤ → Request → W → Option ℕ × Bindings → Outcome (Returned W)
  wrapped_at fuel callback fd request w (none, b) = done (native callback fd request b w)
  wrapped_at fuel callback fd request w (some p, b) =
      process_at fuel callback request p b w >>= released (some p)

  -- The body that the wrappers of one buffer share.
  unfoldable pub wrapped :
      ℕ → SocketFacts → HostAddress → Syscall W → ℤ → Request → Bindings → W → Outcome (Returned W)
  wrapped fuel facts raw callback fd request b w =
      if b.is_on
      then (get_infos facts raw fd b >>= wrapped_at fuel callback fd request w)
      else done (native callback fd request b w)
