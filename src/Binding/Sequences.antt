-- ===== src/Binding/Sequences.antt =====
-- The wrappers of src/binding.c one after the other, on any descriptors: none uses an info that was
-- freed, and each gives back the references that it takes.
use libinject.Base.{ℕ, ◌<◌, false, Option, [], ◌≡◌, ◌≢◌, subst, ℤ, u64_mod, minus_one}
use libinject.Binding.Safety.{IsSafe}
use libinject.Binding.{Bindings, Returned, get_infos, wrapped}
use libinject.LigHt
use libinject.LigHt.{LigHt, hit, search_from}
use libinject.Outcome.{IfDone, done}
use libinject.Process.{Request}
use libinject.Rule.{Os}
use libinject.Socket.{SocketFacts, HostAddress}
use libinject.Task.{Syscall}
use libinject.Binding.References.{AreSafe, Obtained, get_infos-Obtained}
use libinject.Binding.Calls.{System, connect, close}
use libinject.LigHt.Put.{init-IsValid, slot-init}
use libinject.Binding.Wrappers.{IsReturnedSafe, wrapped-AreSafe}
use libinject.Binding.Several.{VectorCall, on_several, on_several-AreSafe, AreReturnedSafe}
use libinject.Binding.Vectors.{ReturnedVectors}
use libinject.Binding.Ends.{connect-AreSafe, close-AreSafe}

-- A call that returned: the bindings before it and after it.
pub data Step {W : Type 0} (os : Os W) (system : System W) : Bindings → Bindings → Type 0 where
  buffer_call :
      (fuel : ℕ) (facts : SocketFacts) (raw : HostAddress) (callback : Syscall W) (fd : ℤ)
      (request : Request) (b : Bindings) (w : W) (r : Returned W)
      → fd ≢ minus_one
      → wrapped os fuel facts raw callback fd request b w ≡ done r
      → Step os system b r.bindings
  vector_call :
      (fuel : ℕ) (facts : SocketFacts) (raw : HostAddress) (errno : ℤ) (fd : ℤ) (c : VectorCall)
      (b : Bindings) (w : W) (r : ReturnedVectors W)
      → fd ≢ minus_one
      → on_several os system fuel facts raw errno fd c b w ≡ done r
      → Step os system b r.returned.bindings
  connect_call :
      (fuel : ℕ) (facts : SocketFacts) (raw : HostAddress) (errno : ℤ) (fd : ℤ) (given : ℕ × ℕ)
      (b : Bindings) (w : W) (r : Returned W)
      → fd ≢ minus_one
      → connect os system fuel facts raw errno fd given b w ≡ done r
      → Step os system b r.bindings
  close_call :
      (fuel : ℕ) (facts : SocketFacts) (raw : HostAddress) (errno : ℤ) (fd : ℤ) (b : Bindings)
      (w : W) (r : Returned W)
      → fd ≢ minus_one
      → close os system fuel facts raw errno fd b w ≡ done r
      → Step os system b r.bindings

pub data Steps {W : Type 0} (os : Os W) (system : System W) : Bindings → Bindings → Type 0 where
  no_step : (b : Bindings) → Steps os system b b
  one_more :
      (b b' b'' : Bindings) → Steps os system b b' → Step os system b' b'' → Steps os system b b''

module _ {W : Type 0} (os : Os W) (system : System W) where
  Step-AreSafe : {b b' : Bindings} → Step os system b b' → AreSafe b → AreSafe b'
  Step-AreSafe (buffer_call fuel facts raw callback fd request b w r ne e) s =
      subst (IfDone (IsReturnedSafe os)) e
        (wrapped-AreSafe os fuel facts raw callback fd request b w s ne)
  Step-AreSafe (vector_call fuel facts raw errno fd c b w r ne e) s =
      subst (IfDone (AreReturnedSafe os)) e
        (on_several-AreSafe os system fuel facts raw errno fd c b w s ne)
  Step-AreSafe (connect_call fuel facts raw errno fd given b w r ne e) s =
      subst (IfDone (IsReturnedSafe os)) e
        (connect-AreSafe os system fuel facts raw errno fd given b w s ne)
  Step-AreSafe (close_call fuel facts raw errno fd b w r ne e) s =
      subst (IfDone (IsReturnedSafe os)) e
        (close-AreSafe os system fuel facts raw errno fd b w s ne)

  pub Steps-AreSafe : {b b' : Bindings} → Steps os system b b' → AreSafe b → AreSafe b'
  Steps-AreSafe (no_step b) s = s
  Steps-AreSafe (one_more b b' b'' steps step) s = Step-AreSafe step (Steps-AreSafe steps s)

  -- After any sequence of calls on one buffer or on several, of `connect` and of `close`, on
  -- descriptors other than -1, that starts from safe bindings and in which each call returned:
  -- `getInfos` on a descriptor other than -1 reads no info that was freed, and gives an info with
  -- exactly one reference that only this descriptor leads to, or none; and all other infos in the
  -- table are live and have no reference.
  pub get_infos-Steps :
      (b b' : Bindings) (facts : SocketFacts) (raw : HostAddress) (fd : ℤ)
      → Steps os system b b'
      → AreSafe b
      → fd ≢ minus_one
      → (r : Option ℕ × Bindings) × (get_infos facts raw fd b' ≡ done r) × Obtained fd r
  get_infos-Steps b b' facts raw fd steps s ne =
      get_infos-Obtained facts raw fd b' (Steps-AreSafe steps s) ne

-- The table as `inj_init` makes it, with no info.
pub start-IsSafe : (n : ℕ) → 0 < n → n < u64_mod → IsSafe (LigHt.init n false) []
start-IsSafe n lo hi = record {
  sized = (init-IsValid {V = ℕ} n false lo hi).0.sized;
  at_rest = λ i p e. let none_there = slot-init {V = ℕ} n i false in cc;
  apart = λ i j p e f. let none_there = slot-init {V = ℕ} n i false in cc;
}
