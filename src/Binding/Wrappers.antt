-- ===== src/Binding/Wrappers.antt =====
-- The wrappers of src/binding.c for a call on one buffer keep the table of sockets safe.
use libinject.Base.{ℕ, Option, none, some, ◌≡◌, ◌≢◌, refl, ℤ, minus_one}
use libinject.Binding.Safety.{IsHeld-set}
use libinject.Binding.{
  Bindings, Returned, get_infos, process_at, released, wrapped, wrapped_at, native,
}
use libinject.Outcome.{Outcome, IfDone, IfDone->>=, IfDone->>=_any, IfDone-if, done, ◌>>=◌}
use libinject.Process.{Request, process}
use libinject.Rule.{Os}
use libinject.Socket.{SocketFacts, HostAddress}
use libinject.Task.{Syscall}
use libinject.Binding.References.{
  AreSafe, AreHeld, Obtained, deref-live, release-AreSafe, get_infos-Obtained,
}

module _ {W : Type 0} (os : Os W) where
  abbrev pub IsReturnedSafe : Returned W → Type 0
  IsReturnedSafe r = AreSafe r.bindings

  -- What a run of the rules keeps of the bindings.
  abbrev pub IsKept : ℤ → ℕ → Bindings → Returned W → Type 0
  IsKept fd p b r = AreHeld fd p r.bindings × (r.bindings.sockets ≡ b.sockets)

  pub process_at-IsKept :
      (fuel : ℕ) (callback : Syscall W) (request : Request) (fd : ℤ) (p : ℕ) (b : Bindings) (w : W)
      → AreHeld fd p b
      → IfDone (IsKept fd p b) (process_at os fuel callback request p b w)
  unfolding process_at
  process_at-IsKept fuel callback request fd p b w s =
      let (a, live, one, kept) = s.locked in
      rw (deref-live b.heap p a live) (
        IfDone->>=_any (IsKept fd p b) (process os callback fuel b.queue a.info a.context request w)
          _
          (λ x. (
            IsHeld-set b.sockets b.heap fd p (record a { context = x.socket_data }) s one kept,
            refl,
          )))

  pub released-AreSafe :
      (fd : ℤ) (p : ℕ) (b : Bindings) (x : Returned W)
      → IsKept fd p b x
      → IfDone IsReturnedSafe (released os (some p) x)
  released-AreSafe fd p b x (s, _) =
      let (b', e, safe) = release-AreSafe fd p x.bindings s in rw e safe

  pub process_at-released :
      (fuel : ℕ) (callback : Syscall W) (request : Request) (fd : ℤ) (p : ℕ) (b : Bindings) (w : W)
      → AreHeld fd p b
      → IfDone IsReturnedSafe (process_at os fuel callback request p b w >>= released os (some p))
  process_at-released fuel callback request fd p b w s =
      IfDone->>= (IsKept fd p b) IsReturnedSafe (process_at os fuel callback request p b w)
        (released os (some p)) (process_at-IsKept fuel callback request fd p b w s)
        (released-AreSafe fd p b)

  wrapped_at-AreSafe :
      (fuel : ℕ) (callback : Syscall W) (fd : ℤ) (request : Request) (w : W)
      (r : Option ℕ × Bindings)
      → Obtained fd r
      → IfDone IsReturnedSafe (wrapped_at os fuel callback fd request w r)
  unfolding native
  wrapped_at-AreSafe fuel callback fd request w (none, b) s = s
  wrapped_at-AreSafe fuel callback fd request w (some p, b) s =
      process_at-released fuel callback request fd p b w s

  -- What follows `getInfos`, for a body that leaves what it obtained safe.
  pub get_infos->>= :
      (facts : SocketFacts) (raw : HostAddress) (fd : ℤ) (b : Bindings)
      (f : Option ℕ × Bindings → Outcome (Returned W))
      → AreSafe b
      → fd ≢ minus_one
      → ((r : Option ℕ × Bindings) → Obtained fd r → IfDone IsReturnedSafe (f r))
      → IfDone IsReturnedSafe (get_infos facts raw fd b >>= f)
  get_infos->>= facts raw fd b f s ne h =
      let (r, e, o) = get_infos-Obtained facts raw fd b s ne in rw e (h r o)

  -- A wrapper of one buffer on a descriptor other than -1 that returns leaves safe bindings safe.
  pub wrapped-AreSafe :
      (fuel : ℕ) (facts : SocketFacts) (raw : HostAddress) (callback : Syscall W) (fd : ℤ)
      (request : Request) (b : Bindings) (w : W)
      → AreSafe b
      → fd ≢ minus_one
      → IfDone IsReturnedSafe (wrapped os fuel facts raw callback fd request b w)
  unfolding wrapped native
  wrapped-AreSafe fuel facts raw callback fd request b w s ne =
      IfDone-if IsReturnedSafe b.is_on
        (get_infos facts raw fd b >>= wrapped_at os fuel callback fd request w)
        (done (native os callback fd request b w))
        (get_infos->>= facts raw fd b (wrapped_at os fuel callback fd request w) s ne
          (wrapped_at-AreSafe fuel callback fd request w))
        s
