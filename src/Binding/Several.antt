-- ===== src/Binding/Several.antt =====
-- The wrappers of src/binding.c for a call on several buffers keep the table of sockets safe.
use libinject.Base.{ℕ, Bool, false, List, length, map, Option, none, some, Text, ℤ, ◌≢◌, minus_one}
use libinject.Binding.Calls.{
  System, on_vectors, on_vectors_at, native_vectors, released_vectors, readv, recvmsg, writev,
  sendmsg, waits_not,
}
use libinject.Binding.References.{AreSafe, AreHeld, Obtained, get_infos-Obtained}
use libinject.Binding.Vectors.{
  ReturnedVectors, read_vectors, write_vectors, recvmsg_callback, sendmsg_callback, vector_request,
  total_length, gather,
}
use libinject.Binding.Wrappers.{IsReturnedSafe, IsKept, process_at-IsKept, released-AreSafe}
use libinject.Binding.{Bindings, get_infos, process_at, released}
use libinject.Outcome.{Outcome, IfDone, IfDone->>=, IfDone-if, done, ◌>>=◌}
use libinject.Rule.{Os}
use libinject.Socket.{SocketFacts, HostAddress}
use libinject.Task.{Syscall, SyscallResult}

-- A call on several buffers, with what `malloc` gives for the one that it goes through.
pub data VectorCall : Type 0 where
  readv_call : (fresh : Text) (vectors : List Text) → VectorCall
  recvmsg_call : (fresh : Text) (vectors : List Text) (flags : ℕ) → VectorCall
  writev_call : (vectors : List Text) → VectorCall
  sendmsg_call : (vectors : List Text) (flags : ℕ) → VectorCall

module _ {W : Type 0} (os : Os W) where
  abbrev pub AreReturnedSafe : ReturnedVectors W → Type 0
  AreReturnedSafe r = IsReturnedSafe os r.returned

  -- What a run of the rules on the one buffer keeps of the bindings.
  abbrev AreKept : ℤ → ℕ → Bindings → ReturnedVectors W → Type 0
  AreKept fd p b r = IsKept os fd p b r.returned

  read_vectors-AreKept :
      (fuel : ℕ) (callback : Syscall W) (fresh : Text) (vectors : List Text) (dont_wait : Bool)
      (errno : ℤ) (fd : ℤ) (p : ℕ) (b : Bindings) (w : W)
      → AreHeld fd p b
      → IfDone (AreKept fd p b) (read_vectors os fuel callback fresh vectors dont_wait errno p b w)
  unfolding read_vectors
  read_vectors-AreKept fuel callback fresh vectors dont_wait errno fd p b w s =
      let request = vector_request fresh (total_length vectors) dont_wait errno in
      IfDone->>= (IsKept os fd p b) (AreKept fd p b) (process_at os fuel callback request p b w) _
        (process_at-IsKept os fuel callback request fd p b w s) (λ r h. h)

  write_vectors-AreKept :
      (fuel : ℕ) (callback : Syscall W) (vectors : List Text) (dont_wait : Bool) (errno : ℤ)
      (fd : ℤ) (p : ℕ) (b : Bindings) (w : W)
      → AreHeld fd p b
      → IfDone (AreKept fd p b) (write_vectors os fuel callback vectors dont_wait errno p b w)
  unfolding write_vectors
  write_vectors-AreKept fuel callback vectors dont_wait errno fd p b w s =
      let request = vector_request (gather vectors) (total_length vectors) dont_wait errno in
      IfDone->>= (IsKept os fd p b) (AreKept fd p b) (process_at os fuel callback request p b w) _
        (process_at-IsKept os fuel callback request fd p b w s) (λ r h. h)

module _ {W : Type 0} (os : Os W) (system : System W) (fuel : ℕ) (facts : SocketFacts)
    (raw : HostAddress) (errno : ℤ) (fd : ℤ) where
  released_vectors-AreSafe :
      (p : ℕ) (b : Bindings) (r : ReturnedVectors W)
      → AreKept os fd p b r
      → IfDone (AreReturnedSafe os) (released_vectors os system fuel facts raw errno fd (some p) r)
  released_vectors-AreSafe p b r h =
      IfDone->>= (IsReturnedSafe os) (AreReturnedSafe os) (released os (some p) r.returned) _
        (released-AreSafe os fd p b r.returned h) (λ x safe. safe)

  on_vectors_at-AreSafe :
      (call : List Text → W → SyscallResult W)
      (through : ℕ → Bindings → Outcome (ReturnedVectors W)) (vectors : List Text) (w : W)
      (r : Option ℕ × Bindings)
      → ((p : ℕ) (b' : Bindings) → AreHeld fd p b' → IfDone (AreKept os fd p b') (through p b'))
      → Obtained fd r
      → IfDone
          (AreReturnedSafe os)
          (on_vectors_at os system fuel facts raw errno fd call through vectors w r)
  on_vectors_at-AreSafe call through vectors w (none, b) kept s = s
  on_vectors_at-AreSafe call through vectors w (some p, b) kept s =
      IfDone->>= (AreKept os fd p b) (AreReturnedSafe os) (through p b) _ (kept p b s)
        (released_vectors-AreSafe p b)

  on_vectors-AreSafe :
      (call : List Text → W → SyscallResult W)
      (through : ℕ → Bindings → Outcome (ReturnedVectors W)) (vectors : List Text) (b : Bindings)
      (w : W)
      → ((p : ℕ) (b' : Bindings) → AreHeld fd p b' → IfDone (AreKept os fd p b') (through p b'))
      → AreSafe b
      → fd ≢ minus_one
      → IfDone
          (AreReturnedSafe os)
          (on_vectors os system fuel facts raw errno fd call through vectors b w)
  unfolding on_vectors
  on_vectors-AreSafe call through vectors b w kept s ne =
      let (r, e, o) = get_infos-Obtained facts raw fd b s ne in
      IfDone-if (AreReturnedSafe os) b.is_on
        (get_infos facts raw fd b
          >>= on_vectors_at os system fuel facts raw errno fd call through vectors w)
        (done (native_vectors os system fuel facts raw errno fd call vectors b w))
        (rw e (on_vectors_at-AreSafe call through vectors w r kept o)) s

  -- The four calls, one after the other.
  abbrev pub on_several : VectorCall → Bindings → W → Outcome (ReturnedVectors W)
  on_several (readv_call fresh vectors) = readv os system fuel facts raw errno fd fresh vectors
  on_several (recvmsg_call fresh vectors flags) =
      recvmsg os system fuel facts raw errno fd fresh vectors flags
  on_several (writev_call vectors) = writev os system fuel facts raw errno fd vectors
  on_several (sendmsg_call vectors flags) = sendmsg os system fuel facts raw errno fd vectors flags

  pub on_several-AreSafe :
      (c : VectorCall) (b : Bindings) (w : W)
      → AreSafe b
      → fd ≢ minus_one
      → IfDone (AreReturnedSafe os) (on_several c b w)
  unfolding readv recvmsg writev sendmsg
  on_several-AreSafe (readv_call fresh vectors) b w s ne =
      on_vectors-AreSafe (system.sysreadv fd) _ vectors b w
        (λ p b' h.
          read_vectors-AreKept os fuel system.sysread fresh vectors false errno fd p b' w h)
        s ne
  on_several-AreSafe (recvmsg_call fresh vectors flags) b w s ne =
      on_vectors-AreSafe (λ vs. system.sysrecvmsg fd vs flags) _ vectors b w
        (λ p b' h.
          read_vectors-AreKept os fuel (recvmsg_callback system.sysrecvmsg flags) fresh vectors
            (waits_not flags) errno fd p b' w h)
        s ne
  on_several-AreSafe (writev_call vectors) b w s ne =
      on_vectors-AreSafe (system.syswritev fd) _ vectors b w
        (λ p b' h. write_vectors-AreKept os fuel system.syswrite vectors false errno fd p b' w h) s
        ne
  on_several-AreSafe (sendmsg_call vectors flags) b w s ne =
      on_vectors-AreSafe (λ vs. system.syssendmsg fd vs flags) _ vectors b w
        (λ p b' h.
          write_vectors-AreKept os fuel
            (sendmsg_callback system.sysrecvmsg (map (λ (v : Text). length v) vectors) flags)
            vectors (waits_not flags) errno fd p b' w h)
        s ne
