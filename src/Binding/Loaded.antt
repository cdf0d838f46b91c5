-- ===== src/Binding/Loaded.antt =====
-- The wrappers of src/binding.c after `inj_init`.
use libinject.Base.{
  ℕ, Bool, true, false, Option, none, some, [], ◌≡◌, ◌≢◌, refl, ap, ◌⊎◌, subst, arith, Text, ℤ,
  minus_one, inl, inr,
}
use libinject.Binding.Calls.{System}
use libinject.Binding.Load.{
  Environment, Loaded, unused, switched_off, switched_on, load_config, start_with, unless_disabled,
  inj_init,
}
use libinject.Binding.References.{AreSafe, Obtained}
use libinject.Binding.Sequences.{Steps, get_infos-Steps, start-IsSafe}
use libinject.Binding.{Bindings, get_infos, wrapped, native}
use libinject.Config.{Config}
use libinject.Outcome.{IfDone, IfDone->>=_any, done, ◌>>=◌}
use libinject.Process.{Request}
use libinject.Read.Arguments.{Beyond}
use libinject.Read.Hosts.{Resolver}
use libinject.Rule.{Os, Action}
use libinject.Runtime.Start.{Platform, start}
use libinject.Queue.{ActionQueue}
use libinject.Socket.{SocketFacts, HostAddress}
use libinject.Task.{Syscall}

unused-AreSafe : (is_on : Bool) (q : ActionQueue) → AreSafe (unused is_on q)
unused-AreSafe is_on q = start-IsSafe 16380 (omega arith) (omega arith)

module _ {W V : Type 0} (platform : Platform W) (resolver : Resolver) (beyond : Beyond) (time : ℕ)
    (memory : Action) (program : Text) (os : Os V) where
  abbrev IsLoadedSafe : Loaded W → Type 0
  IsLoadedSafe l = AreSafe l.bindings

  start_with-AreSafe :
      (w : W) (o : Option Config)
      → IfDone IsLoadedSafe (start_with platform resolver beyond time memory program w o)
  unfolding start_with
  start_with-AreSafe w none = unused-AreSafe false []
  start_with-AreSafe w (some c) =
      IfDone->>=_any IsLoadedSafe (start platform resolver beyond time memory c w)
        (λ s. done (switched_on s)) (λ s. unused-AreSafe true s.queue)

  unless_disabled-AreSafe :
      (b : Bool) (e : Environment) (w : W)
      → IfDone IsLoadedSafe (unless_disabled platform resolver beyond time memory program b e w)
  unless_disabled-AreSafe true e w = unused-AreSafe false []
  unless_disabled-AreSafe false e w =
      IfDone->>=_any IsLoadedSafe (load_config resolver beyond time memory program e)
        (start_with platform resolver beyond time memory program w) (start_with-AreSafe w)

  inj_init-AreSafe :
      (e : Environment) (w : W)
      → IfDone IsLoadedSafe (inj_init platform resolver beyond time memory program e w)
  unfolding inj_init
  inj_init-AreSafe e w = unless_disabled-AreSafe e.is_disabled e w

  -- After `inj_init`, where it ended, and any sequence of calls on one buffer or on several, of
  -- `connect` and of `close`, on descriptors other than -1, each of which returned: `getInfos` on a
  -- descriptor other than -1 reads no info that was freed, and gives an info with exactly one
  -- reference that only this descriptor leads to, or none; and all other infos in the table are live
  -- and have no reference.
  pub get_infos-Loaded :
      (system : System V) (e : Environment) (w : W) (l : Loaded W) (b : Bindings)
      (facts : SocketFacts) (raw : HostAddress) (fd : ℤ)
      → inj_init platform resolver beyond time memory program e w ≡ done l
      → Steps os system l.bindings b
      → fd ≢ minus_one
      → (r : Option ℕ × Bindings) × (get_infos facts raw fd b ≡ done r) × Obtained fd r
  get_infos-Loaded system e w l b facts raw fd loaded steps ne =
      get_infos-Steps os system l.bindings b facts raw fd steps
        (subst (IfDone IsLoadedSafe) loaded (inj_init-AreSafe e w)) ne

  off_unless :
      (b : Bool) (e : Environment) (w : W)
      → (b ≡ true) ⊎ (load_config resolver beyond time memory program e ≡ done none)
      → (l : Loaded W) × (unless_disabled platform resolver beyond time memory program b e w
          ≡ done l)
        × (l.bindings.is_on ≡ false)
  unfolding start_with
  off_unless true e w off = (switched_off false w, refl, refl)
  off_unless false e w (inl y) = cc
  off_unless false e w (inr n) =
      let started = start_with platform resolver beyond time memory program w in
      (switched_off true w, ap (λ o. o >>= started) n, refl)

  no_config-Loaded :
      (e : Environment) (w : W)
      → (e.is_disabled ≡ true) ⊎ (load_config resolver beyond time memory program e ≡ done none)
      → (l : Loaded W) × (inj_init platform resolver beyond time memory program e w ≡ done l)
        × (l.bindings.is_on ≡ false)
  unfolding inj_init
  no_config-Loaded e w off = off_unless e.is_disabled e w off

  -- Where `LIBINJ_DISABLE` is set, or neither file of rules can be read as one for this program:
  -- `inj_init` ends, and afterwards every call on a buffer is the native call, on any descriptor.
  pub wrapped-off :
      (e : Environment) (w : W) (fuel : ℕ) (facts : SocketFacts) (raw : HostAddress)
      (callback : Syscall V) (fd : ℤ) (request : Request) (v : V)
      → (e.is_disabled ≡ true) ⊎ (load_config resolver beyond time memory program e ≡ done none)
      → (l : Loaded W) × (inj_init platform resolver beyond time memory program e w ≡ done l)
        × (wrapped os fuel facts raw callback fd request l.bindings v
            ≡ done (native os callback fd request l.bindings v))
  unfolding wrapped
  wrapped-off e w fuel facts raw callback fd request v off =
      let (l, loaded, no_config) = no_config-Loaded e w off in (l, loaded, rw no_config refl)
