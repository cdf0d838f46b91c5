-- ===== src/Binding/Ends.antt =====
-- `connect` and `close` of src/binding.c keep the table of sockets safe.
use libinject.Base.{
  ℕ, true, sym, ap, ◌∙◌, Option, none, some, [], ◌∷◌, ◌++◌, ◌≡◌, ◌≢◌, inl, inr, refl, subst, arith,
  get_or, set, if◌then◌else◌, set-set, length, ℤ, pos, minus_one, Option-cases,
}
use libinject.Binding.Safety.{
  IsSafe, IsSafe-IsSafeBut, IsSafeBut-set, IsHeld-free, Counts-set, get_or-set_live, IsSafe-append,
}
use libinject.Binding.{
  Attached, Bindings, Returned, allocate, put_socket, get_infos, retire, connected, forgotten,
  get_infos_on_connect, release, process_at, released, native,
}
use libinject.LigHt
use libinject.LigHt.{LigHt, hit, search_from}
use libinject.LigHt.Slots.{datum_in, get-search}
use libinject.Outcome.{IfDone, IfDone->>=, IfDone-if, done, ◌>>=◌}
use libinject.Rule.{Os}
use libinject.Socket.Lifecycle.{unlock-released}
use libinject.Socket.{
  closing, connecting, SocketInfo, SocketFacts, HostAddress, init_light, lock, unlock,
}
use libinject.Binding.References.{
  AreSafe, Obtained, IsNew, init_light-IsNew, new-AreHeld, newest-Counts, deref-live,
}
use libinject.Binding.Calls.{System, doomed, closed_at, connected_at, connect, close, on_end}
use libinject.LigHt.Slots.{datum_in}
use libinject.Binding.Table.{IsHeld-put, IsHeld-remove, IsSafe-put}
use libinject.Binding.Wrappers.{
  IsReturnedSafe, IsKept, process_at-IsKept, process_at-released, get_infos->>=,
}

unlock_last : (si : SocketInfo) → si.sem ≡ pos 1 → si.to_destroy ≡ true → unlock si ≡ none
unfolding unlock
unlock_last si one marked = rw (one, marked) refl

none_on_connect :
    (facts : SocketFacts) (raw : HostAddress) (fd : ℤ) (given : ℕ × ℕ) (b : Bindings)
    → init_light facts raw fd given ≡ none
    → get_infos_on_connect facts raw fd given b ≡ forgotten b fd
unfolding get_infos_on_connect
none_on_connect facts raw fd given b e = rw (get_infos_on_connect, e) refl

some_on_connect :
    (facts : SocketFacts) (raw : HostAddress) (fd : ℤ) (given : ℕ × ℕ) (b : Bindings)
    (si : SocketInfo)
    → init_light facts raw fd given ≡ some si
    → get_infos_on_connect facts raw fd given b ≡ connected b fd si
unfolding get_infos_on_connect
some_on_connect facts raw fd given b si e = rw (get_infos_on_connect, e) refl

module _ {W : Type 0} (os : Os W) (system : System W) (fuel : ℕ) (facts : SocketFacts)
    (raw : HostAddress) (errno : ℤ) (fd : ℤ) where
  -- The table no longer leads to the info of the call, which is to be destroyed.
  abbrev IsDoomed : ℕ → Returned W → Type 0
  IsDoomed p r =
      IsSafe r.bindings.sockets (set r.bindings.heap p none)
      × (a : Attached) × (get_or r.bindings.heap p none ≡ some a)
      × (a.info.sem ≡ pos 1)
      × (a.info.to_destroy ≡ true)

  doomed-IsDoomed :
      (p : ℕ) (b : Bindings) (r : Returned W)
      → ((i : ℕ) → datum_in b.sockets i ≢ some p)
      → IsKept os fd p b r
      → IfDone (IsDoomed p) (doomed os system fuel facts raw errno fd p r)
  doomed-IsDoomed p b r gone (s, same) =
      let (a, live, one, kept) = s.locked in
      let heap = r.bindings.heap in
      let gone' : (i : ℕ) → datum_in r.bindings.sockets i ≢ some p = λ i e. gone i (rw same at e) in
      rw (deref-live heap p a live) (
        rw set-set (IsHeld-free r.bindings.sockets heap fd p none s gone'),
        record a { info = record a.info { to_destroy = true } },
        get_or-set_live heap p a (some (record a { info = record a.info { to_destroy = true } }))
            live,
        one,
        refl,
      )

  released-IsDoomed :
      (p : ℕ) (r : Returned W) → IsDoomed p r → IfDone (IsReturnedSafe os) (released os (some p) r)
  unfolding release
  released-IsDoomed p r (s, a, live, one, marked) =
      rw (deref-live r.bindings.heap p a live, unlock_last a.info one marked) s

  closed_at-AreSafe :
      (w : W) (r : Option ℕ × Bindings)
      → fd ≢ minus_one
      → Obtained fd r
      → IfDone (IsReturnedSafe os) (closed_at os system fuel facts raw errno fd w r)
  unfolding native
  closed_at-AreSafe w (none, b) ne s = s
  closed_at-AreSafe w (some p, b) ne s =
      let b' = record b { sockets = (LigHt.remove b.sockets fd).0 } in
      let (held, gone) = IsHeld-remove b.sockets b.heap fd p ne s in
      let run =
        process_at os fuel system.sysclose (on_end os system fuel facts raw errno fd closing) p b'
          w in
      IfDone->>= (IsDoomed p) (IsReturnedSafe os)
        (run >>= doomed os system fuel facts raw errno fd p) (released os (some p))
        (IfDone->>= (IsKept os fd p b') (IsDoomed p) run
          (doomed os system fuel facts raw errno fd p)
          (process_at-IsKept os fuel system.sysclose _ fd p b' w held)
          (λ r. doomed-IsDoomed p b' r gone))
        (released-IsDoomed p)

  -- `close` of a descriptor other than -1 that returns leaves safe bindings safe.
  pub close-AreSafe :
      (b : Bindings) (w : W)
      → AreSafe b
      → fd ≢ minus_one
      → IfDone (IsReturnedSafe os) (close os system fuel facts raw errno fd b w)
  unfolding close native
  close-AreSafe b w s ne =
      IfDone-if (IsReturnedSafe os) b.is_on
        (get_infos facts raw fd b >>= closed_at os system fuel facts raw errno fd w) _
        (get_infos->>= os facts raw fd b (closed_at os system fuel facts raw errno fd w) s ne
          (λ r. closed_at-AreSafe w r ne))
        s

  connected-Obtained :
      (b : Bindings) (si : SocketInfo)
      → AreSafe b
      → fd ≢ minus_one
      → IsNew (some si)
      → (r : Option ℕ × Bindings) × (connected b fd si ≡ done r) × Obtained fd r
  unfolding retire
  connected-Obtained b si s ne new = elim (get-search b.sockets fd) [
    | inl (e, _) ↦ (
      (some (length b.heap), put_socket (allocate b (lock si)).1 fd (some (length b.heap))),
      rw e refl,
      new-AreHeld b.sockets b.heap fd si new ne (IsSafe-IsSafeBut b.sockets b.heap fd s),
    )
    | inr (i, q, found, e, at) ↦
        let p = length b.heap in
        let newest : Option Attached = some (record { info = lock si; context = none }) in
        let heap = b.heap ++ newest ∷ [] in
        let safe = IsSafe-append b.sockets b.heap newest s in
        let (a, live, unused, _) = safe.at_rest i q at in
        let below = (IsSafe-IsSafeBut b.sockets b.heap fd s).below in
        let older : q ≢ p = λ h. let lt = below i q at in omega arith in
        (
          (
            some p,
            put_socket (record (allocate b (lock si)).1 { heap = set heap q none }) fd (some p),
          ),
          rw (e, deref-live heap q a live, unlock-released a.info 0 unused) refl,
          IsHeld-put b.sockets (set heap q none) fd p ne
              (IsSafeBut-set b.sockets heap fd i q none safe found at)
              (λ j h. let lt = below j p h in omega arith)
              (Counts-set heap none p q 1 older (newest-Counts b.heap si new)),
        )
  ]

  -- What a descriptor led to is freed.
  abbrev pub IsForgotten : Bindings → Bindings → Type 0
  IsForgotten b b' = (p : ℕ) → LigHt.get b.sockets fd ≡ some p → get_or b'.heap p none ≡ none

  -- The old info, if there is one, is freed, and the table keeps no other.
  forgotten-AreSafe :
      (b : Bindings)
      → AreSafe b
      → fd ≢ minus_one
      → (b' : Bindings) × (forgotten b fd ≡ done (none, b')) × AreSafe b' × IsForgotten b b'
  unfolding retire
  forgotten-AreSafe b s ne = elim (get-search b.sockets fd) [
    | inl (e, _) ↦ (
      put_socket b fd none,
      rw e refl,
      IsSafe-put b.sockets b.heap fd ne (IsSafe-IsSafeBut b.sockets b.heap fd s),
      λ p h. cc,
    )
    | inr (i, q, found, e, at) ↦
        let (a, live, unused, _) = s.at_rest i q at in
        (
          put_socket (record b { heap = set b.heap q none }) fd none,
          rw (e, deref-live b.heap q a live, unlock-released a.info 0 unused) refl,
          IsSafe-put b.sockets (set b.heap q none) fd ne
              (IsSafeBut-set b.sockets b.heap fd i q none s found at),
          λ p h.
              let same : q ≡ p = ap (λ o. elim o [ none ↦ q | some k ↦ k ]) (sym e ∙ h) in
              subst (λ k. get_or (set b.heap q none) k none ≡ none) same
                (get_or-set_live b.heap q a none live),
        )
  ]

  connected_at-AreSafe :
      (w : W) (r : Option ℕ × Bindings)
      → Obtained fd r
      → IfDone (IsReturnedSafe os) (connected_at os system fuel facts raw errno fd w r)
  unfolding native
  connected_at-AreSafe w (none, b) s = s
  connected_at-AreSafe w (some p, b) s =
      process_at-released os fuel system.sysconnect
        (on_end os system fuel facts raw errno fd connecting) fd p b w s

  on_connect-AreSafe :
      (given : ℕ × ℕ) (b : Bindings) (w : W)
      → AreSafe b
      → fd ≢ minus_one
      → IfDone (IsReturnedSafe os) (
          get_infos_on_connect facts raw fd given b
          >>= connected_at os system fuel facts raw errno fd w)
  on_connect-AreSafe given b w s ne = elim (Option-cases (init_light facts raw fd given)) [
    | inl e ↦
        let (b', f, safe, _) = forgotten-AreSafe b s ne in
        rw (none_on_connect facts raw fd given b e, f) (connected_at-AreSafe w (none, b') safe)
    | inr (si, e) ↦
        let new = subst IsNew e (init_light-IsNew facts raw fd given) in
        let (r, f, o) = connected-Obtained b si s ne new in
        rw (some_on_connect facts raw fd given b si e, f) (connected_at-AreSafe w r o)
  ]

  -- `connect` of a descriptor other than -1 that returns leaves safe bindings safe.
  pub connect-AreSafe :
      (given : ℕ × ℕ) (b : Bindings) (w : W)
      → AreSafe b
      → fd ≢ minus_one
      → IfDone (IsReturnedSafe os) (connect os system fuel facts raw errno fd given b w)
  unfolding connect native
  connect-AreSafe given b w s ne =
      IfDone-if (IsReturnedSafe os) b.is_on
        (get_infos_on_connect facts raw fd given b
          >>= connected_at os system fuel facts raw errno fd w)
        _ (on_connect-AreSafe given b w s ne) s

  -- `connect` of a descriptor other than -1 on safe bindings, where there is no info to be had, as for
  -- a socket that is not IPv4: it ends with the result of the native call, what the table knew of the
  -- descriptor is freed, and the bindings are safe.
  pub connect-IsForgotten :
      (given : ℕ × ℕ) (b : Bindings) (w : W)
      → AreSafe b
      → fd ≢ minus_one
      → b.is_on ≡ true
      → init_light facts raw fd given ≡ none
      → (b' : Bindings) × (connect os system fuel facts raw errno fd given b w
          ≡ done (
              native os system.sysconnect fd
                (on_end os system fuel facts raw errno fd connecting)
                b'
                w))
        × AreSafe b'
        × IsForgotten b b'
  unfolding connect
  connect-IsForgotten given b w s ne on unknown =
      let (b', f, safe, gone) = forgotten-AreSafe b s ne in
      let at = connected_at os system fuel facts raw errno fd w in
      let found = get_infos_on_connect facts raw fd given b in
      let off = done (
        native os system.sysconnect fd (on_end os system fuel facts raw errno fd connecting) b w) in
      (
        b',
        ap (λ c. if c then (found >>= at) else off) on
            ∙ ap (λ o. o >>= at) (none_on_connect facts raw fd given b unknown ∙ f),
        safe,
        gone,
      )
