-- ===== src/Binding/Vectors.antt =====
-- `prepareReadIOVec`, `prepareWriteIOVec` and `sendmsgCB` of src/binding.c: calls on several buffers
-- go through one. `fresh` is what `malloc` gives.
use libinject.Base.{
  ℕ, ◌+◌, ◌-◌, Bool, List, [], ◌∷◌, ◌++◌, ◌==◌, if◌then◌else◌, length, take, drop, Text, ℤ, min,
}
use libinject.Binding.{Bindings, Returned, process_at}
use libinject.Outcome.{Outcome, done, ◌>>=◌}
use libinject.Process.{Request}
use libinject.Rule.{Os}
use libinject.Socket.{reading}
use libinject.Task.{Syscall, SyscallResult, transferred}

-- The sum of the `iov_len`
unfoldable pub total_length : List Text → ℕ
total_length [] = 0
total_length (v ∷ vs) = length v + total_length vs

-- The loop of `memcpy` that fills the one buffer.
unfoldable pub gather : List Text → Text
gather [] = []
gather (v ∷ vs) = v ++ gather vs

-- The loop that hands out the first `count` bytes of a buffer.
unfoldable pub scatter : ℕ → Text → List Text → List Text
scatter count bytes [] = []
scatter count bytes (v ∷ vs) =
    let part = min count (length v) in
    (take part bytes ++ drop part v) ∷ scatter (count - part) (drop part bytes) vs

-- How `sendmsgCB` cuts `len` bytes along the buffers of a message.
unfoldable pub cut : ℕ → Text → List ℕ → List Text
cut len bytes [] = []
cut len bytes (n ∷ ns) =
    let part = min len n in
    if len == 0 then [] else take part bytes ∷ cut (len - part) (drop part bytes) ns

-- A `recvmsg` or `sendmsg` on the buffers of a message: descriptor, their bytes, and flags.
abbrev pub MessageCall : Type 0 → Type 0
MessageCall W = ℤ → List Text → ℕ → W → SyscallResult W

-- `sendmsgCB`: it is `recvmsg` that it calls.
unfoldable pub sendmsg_callback : {W : Type 0} → MessageCall W → List ℕ → ℕ → Syscall W
sendmsg_callback sysrecvmsg lengths flags fd bytes len w =
    sysrecvmsg fd (cut len (take len bytes) lengths) flags w

-- `recvmsgCB`: one buffer in place of those of the message.
unfoldable pub recvmsg_callback : {W : Type 0} → MessageCall W → ℕ → Syscall W
recvmsg_callback sysrecvmsg flags fd bytes len w = sysrecvmsg fd (take len bytes ∷ []) flags w

-- What a call on several buffers gives back.
pub record ReturnedVectors (W : Type 0) : Type 0 where
  pub returned : Returned W
  pub vectors : List Text

abbrev pub vector_request : Text → ℕ → Bool → ℤ → Request
vector_request bytes len dont_wait errno = record {
  direction = reading;
  memory = bytes;
  len = len;
  dont_wait = dont_wait;
  errno = errno;
}

module _ {W : Type 0} (os : Os W) where
  -- `prepareReadIOVec`
  unfoldable pub read_vectors :
      ℕ → Syscall W → Text → List Text → Bool → ℤ → ℕ → Bindings → W → Outcome (ReturnedVectors W)
  read_vectors fuel callback fresh vectors dont_wait errno p b w =
      process_at os fuel callback (vector_request fresh (total_length vectors) dont_wait errno) p b
        w
      >>= λ r.
          done (record { returned = r; vectors = scatter (transferred r.result) r.memory vectors })

  -- `prepareWriteIOVec`: the direction is that of a read here too.
  unfoldable pub write_vectors :
      ℕ → Syscall W → List Text → Bool → ℤ → ℕ → Bindings → W → Outcome (ReturnedVectors W)
  write_vectors fuel callback vectors dont_wait errno p b w =
      process_at os fuel callback
        (vector_request (gather vectors) (total_length vectors) dont_wait errno) p b w
      >>= λ r. done (record { returned = r; vectors = vectors })
