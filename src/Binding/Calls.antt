-- ===== src/Binding/Calls.antt =====
-- The wrappers of src/binding.c, one for each call of the C library. The flag `is_on` of the
-- bindings is `config`; without it each is the native call. A native call on several buffers gives
-- the bytes that it reads as one text.
use libinject.Base.{
  ℕ, Bool, true, false, not, Option, none, some, List, [], ◌==◌, if◌then◌else◌, length, map, Text,
  ℤ, bit_and,
}
use libinject.Binding.{
  Bindings, Returned, deref, put_info, get_infos, get_infos_on_connect, released, process_at,
  native, wrapped,
}
use libinject.Binding.Vectors.{
  MessageCall, ReturnedVectors, read_vectors, write_vectors, recvmsg_callback, sendmsg_callback,
  scatter,
}
use libinject.LigHt
use libinject.Outcome.{Outcome, done, ◌>>=◌}
use libinject.Process.{Request}
use libinject.Rule.{Os}
use libinject.Socket.{
  SocketFacts, HostAddress, SocketInfoDirection, reading, writing, connecting, closing,
}
use libinject.Task.{Syscall, SyscallResult, transferred}

-- What `dlsym` finds: the calls of the C library. The flags come first; the address arguments of
-- `recvfrom`, `sendto` and `connect` are the closure's.
pub record System (W : Type 0) : Type 0 where
  pub sysread : Syscall W
  pub sysrecv : ℕ → Syscall W
  pub sysrecvfrom : ℕ → Syscall W
  pub sysrecvmsg : MessageCall W
  pub sysreadv : ℤ → List Text → W → SyscallResult W
  pub syswrite : Syscall W
  pub syssend : ℕ → Syscall W
  pub syssendto : ℕ → Syscall W
  pub syssendmsg : MessageCall W
  pub syswritev : ℤ → List Text → W → SyscallResult W
  pub sysconnect : Syscall W
  pub sysclose : Syscall W

-- `MSG_DONTWAIT` of Linux
abbrev pub waits_not : ℕ → Bool
waits_not flags = not (bit_and flags 0x40 == 0)

abbrev pub request_of : SocketInfoDirection → Text → ℕ → ℕ → ℤ → Request
request_of direction memory len flags errno = record {
  direction = direction;
  memory = memory;
  len = len;
  dont_wait = waits_not flags;
  errno = errno;
}

module _ {W : Type 0} (os : Os W) (system : System W) (fuel : ℕ) (facts : SocketFacts)
    (raw : HostAddress) (errno : ℤ) (fd : ℤ) where
  abbrev on_buffer :
      SocketInfoDirection → Syscall W → Text → ℕ → ℕ → Bindings → W → Outcome (Returned W)
  on_buffer direction callback memory len flags b w =
      wrapped os fuel facts raw callback fd (request_of direction memory len flags errno) b w

  unfoldable pub read : Text → ℕ → Bindings → W → Outcome (Returned W)
  read memory len = on_buffer reading system.sysread memory len 0

  unfoldable pub recv : Text → ℕ → ℕ → Bindings → W → Outcome (Returned W)
  recv memory len flags = on_buffer reading (system.sysrecv flags) memory len flags

  unfoldable pub recvfrom : Text → ℕ → ℕ → Bindings → W → Outcome (Returned W)
  recvfrom memory len flags = on_buffer reading (system.sysrecvfrom flags) memory len flags

  unfoldable pub write : Text → ℕ → Bindings → W → Outcome (Returned W)
  write memory len = on_buffer writing system.syswrite memory len 0

  unfoldable pub send : Text → ℕ → ℕ → Bindings → W → Outcome (Returned W)
  send memory len flags = on_buffer writing (system.syssend flags) memory len flags

  unfoldable pub sendto : Text → ℕ → ℕ → Bindings → W → Outcome (Returned W)
  sendto memory len flags = on_buffer writing (system.syssendto flags) memory len flags

  abbrev pub native_vectors :
      (List Text → W → SyscallResult W) → List Text → Bindings → W → ReturnedVectors W
  native_vectors call vectors b w =
      let r = call vectors w in
      record {
        returned = record {
          result = r.result;
          errno = r.errno;
          memory = [];
          bindings = b;
          world = r.world;
        };
        vectors = scatter (transferred r.result) r.bytes vectors;
      }

  abbrev pub released_vectors : Option ℕ → ReturnedVectors W → Outcome (ReturnedVectors W)
  released_vectors p r = released os p r.returned >>= λ x. done (record r { returned = x })

  abbrev pub on_vectors_at :
      (List Text → W → SyscallResult W)
      → (ℕ → Bindings → Outcome (ReturnedVectors W))
      → List Text
      → W
      → Option ℕ × Bindings
      → Outcome (ReturnedVectors W)
  on_vectors_at call through vectors w (none, b) = done (native_vectors call vectors b w)
  on_vectors_at call through vectors w (some p, b) = through p b >>= released_vectors (some p)

  -- The body that the wrappers of several buffers share.
  unfoldable pub on_vectors :
      (List Text → W → SyscallResult W)
      → (ℕ → Bindings → Outcome (ReturnedVectors W))
      → List Text
      → Bindings
      → W
      → Outcome (ReturnedVectors W)
  on_vectors call through vectors b w =
      if b.is_on
      then (get_infos facts raw fd b >>= on_vectors_at call through vectors w)
      else done (native_vectors call vectors b w)

  -- `fresh` is what `malloc` gives for the one buffer.
  unfoldable pub readv : Text → List Text → Bindings → W → Outcome (ReturnedVectors W)
  readv fresh vectors b w =
      on_vectors (system.sysreadv fd)
        (λ p b'. read_vectors os fuel system.sysread fresh vectors false errno p b' w) vectors b w

  unfoldable pub recvmsg : Text → List Text → ℕ → Bindings → W → Outcome (ReturnedVectors W)
  recvmsg fresh vectors flags b w =
      on_vectors (λ vs. system.sysrecvmsg fd vs flags)
        (λ p b'.
          read_vectors os fuel (recvmsg_callback system.sysrecvmsg flags) fresh vectors
            (waits_not flags) errno p b' w)
        vectors b w

  unfoldable pub writev : List Text → Bindings → W → Outcome (ReturnedVectors W)
  writev vectors b w =
      on_vectors (system.syswritev fd)
        (λ p b'. write_vectors os fuel system.syswrite vectors false errno p b' w) vectors b w

  unfoldable pub sendmsg : List Text → ℕ → Bindings → W → Outcome (ReturnedVectors W)
  sendmsg vectors flags b w =
      on_vectors (λ vs. system.syssendmsg fd vs flags)
        (λ p b'.
          write_vectors os fuel
            (sendmsg_callback system.sysrecvmsg (map (λ (v : Text). length v) vectors) flags)
            vectors (waits_not flags) errno p b' w)
        vectors b w

  abbrev pub on_end : SocketInfoDirection → Request
  on_end direction = request_of direction [] 0 0 errno

  abbrev pub connected_at : W → Option ℕ × Bindings → Outcome (Returned W)
  connected_at w (none, b) = done (native os system.sysconnect fd (on_end connecting) b w)
  connected_at w (some p, b) =
      process_at os fuel system.sysconnect (on_end connecting) p b w >>= released os (some p)

  -- `connect`; the address that it is given is known to `facts` as the remote one.
  unfoldable pub connect : ℕ × ℕ → Bindings → W → Outcome (Returned W)
  connect given b w =
      if b.is_on
      then (get_infos_on_connect facts raw fd given b >>= connected_at w)
      else done (native os system.sysconnect fd (on_end connecting) b w)

  -- `si->toDestroy = true`
  abbrev pub doomed : ℕ → Returned W → Outcome (Returned W)
  doomed p r = deref r.bindings.heap p >>= λ a.
      done (record r {
        bindings = put_info r.bindings p a (some (record a.info { to_destroy = true }));
      })

  abbrev pub closed_at : W → Option ℕ × Bindings → Outcome (Returned W)
  closed_at w (none, b) = done (native os system.sysclose fd (on_end closing) b w)
  closed_at w (some p, b) =
      let b' = record b { sockets = (LigHt.remove b.sockets fd).0 } in
      process_at os fuel system.sysclose (on_end closing) p b' w
      >>= doomed p
      >>= released os (some p)

  unfoldable pub close : Bindings → W → Outcome (Returned W)
  close b w =
      if b.is_on
      then (get_infos facts raw fd b >>= closed_at w)
      else done (native os system.sysclose fd (on_end closing) b w)
