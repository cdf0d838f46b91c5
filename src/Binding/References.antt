-- ===== src/Binding/References.antt =====
-- The wrappers of src/binding.c and the infos of the sockets: none is used after it was freed, and
-- every call gives back the references that it takes.
use libinject.Base.{
  ℕ, true, false, Option, none, some, List, [], ◌∷◌, ◌++◌, ◌≡◌, ◌≢◌, inl, inr, refl, arith, get_or,
  length, ℤ, decrement_ℤ, pos, minus_one, Bool-cases, Option-cases,
}
use libinject.Binding.Safety.{
  Heap, Counts, IsSafe, IsSafeBut, IsHeld, IsSafe-IsSafeBut, IsSafeBut-set, IsSafeBut-append,
  IsSafe-lock, IsHeld-release, get_or-append_end,
}
use libinject.Binding.Table.{IsSafe-put, IsHeld-put}
use libinject.Binding.{
  Attached, Bindings, deref, put_info, check_pointer, found_or_new, locked_new, get_infos, release,
}
use libinject.LigHt
use libinject.LigHt.{LigHt, hit, search_from}
use libinject.LigHt.Slots.{datum_in, get-search}
use libinject.Outcome.{done}
use libinject.Socket.Lifecycle.{check-references}
use libinject.Socket.{
  SocketInfo, SocketFacts, HostAddress, init, init_light, set_up, known_proto, fetch_data, lock,
  unlock,
}

abbrev pub AreSafe : Bindings → Type 0
AreSafe b = IsSafe b.sockets b.heap

abbrev pub AreHeld : ℤ → ℕ → Bindings → Type 0
AreHeld fd p b = IsHeld b.sockets b.heap fd p

-- What `getInfos` gives: no info, or one that is locked once.
abbrev pub Obtained : ℤ → Option ℕ × Bindings → Type 0
Obtained fd (none, b) = AreSafe b
Obtained fd (some p, b) = AreHeld fd p b

-- A new info, if there is one, has no reference.
abbrev pub IsNew : Option SocketInfo → Type 0
IsNew none = Unit {0}
IsNew (some si) = (si.sem ≡ pos 0) × (si.to_destroy ≡ false)

set_up-IsNew :
    (facts : SocketFacts) (local remote : HostAddress) (fd : ℤ)
    → IsNew (set_up facts local remote fd)
unfolding set_up
set_up-IsNew facts local remote fd = elim (Option-cases (known_proto facts.socket_type)) [
  | inl n ↦ rw n tt
  | inr (proto, e) ↦ elim (Option-cases facts.flags) [
    | inl n ↦ rw (e, n) tt
    | inr (nonblocking, f) ↦ rw (e, f) (refl, refl)
  ]
]

init-IsNew : (facts : SocketFacts) (raw : HostAddress) (fd : ℤ) → IsNew (init facts raw fd)
unfolding init
init-IsNew facts raw fd = elim (Bool-cases facts.is_socket) [
  | inr n ↦ rw n tt
  | inl y ↦ elim (Option-cases (fetch_data facts.peer_name raw)) [
    | inl n ↦ rw (y, n) tt
    | inr (remote, e) ↦ elim (Option-cases (fetch_data facts.sock_name raw)) [
      | inl n ↦ rw (y, e, n) tt
      | inr (local, f) ↦ rw (y, e, f) (set_up-IsNew facts local remote fd)
    ]
  ]
]

pub init_light-IsNew :
    (facts : SocketFacts) (raw : HostAddress) (fd : ℤ) (given : ℕ × ℕ)
    → IsNew (init_light facts raw fd given)
unfolding init_light
init_light-IsNew facts raw fd (addr, port) = elim (Bool-cases facts.is_socket) [
  | inr n ↦ rw n tt
  | inl y ↦ elim (Option-cases (fetch_data facts.sock_name raw)) [
    | inl n ↦ rw (y, n) tt
    | inr (local, f) ↦
        rw (y, f)
          (set_up-IsNew facts (record local { addr = 0; port = pos 0 })
            (record raw { addr = addr; port = pos port }) fd)
  ]
]

-- A new info at the end of the heap.
pub newest-Counts :
    (heap : Heap) (si : SocketInfo)
    → IsNew (some si)
    → Counts (heap ++ some (record { info = lock si; context = none }) ∷ []) (length heap) 1
unfolding lock
newest-Counts heap si (unused, kept) =
    let a : Attached = record { info = lock si; context = none } in
    (a, get_or-append_end heap (some a), rw unused refl, kept)

-- It is put under its descriptor.
pub new-AreHeld :
    (t : LigHt ℕ) (heap : Heap) (fd : ℤ) (si : SocketInfo)
    → IsNew (some si)
    → fd ≢ minus_one
    → IsSafeBut t heap fd
    → IsHeld
        (LigHt.put t fd (some (length heap)) true).0
        (heap ++ some (record { info = lock si; context = none }) ∷ [])
        fd
        (length heap)
new-AreHeld t heap fd si new ne s =
    let a : Option Attached = some (record { info = lock si; context = none }) in
    IsHeld-put t (heap ++ a ∷ []) fd (length heap) ne (IsSafeBut-append t heap fd a s)
      (λ i e. let lt = s.below i (length heap) e in omega arith) (newest-Counts heap si new)

locked_new-Obtained :
    (b : Bindings) (fd : ℤ) (o : Option SocketInfo)
    → IsNew o
    → fd ≢ minus_one
    → IsSafeBut b.sockets b.heap fd
    → Obtained fd (locked_new b fd o)
locked_new-Obtained b fd none new ne s = IsSafe-put b.sockets b.heap fd ne s
locked_new-Obtained b fd (some si) new ne s = new-AreHeld b.sockets b.heap fd si new ne s

abbrev Checks : ℤ → Option ℕ × Bindings → Type 0
Checks fd (none, b) = IsSafeBut b.sockets b.heap fd
Checks fd (some p, b) = AreHeld fd p b

pub deref-live :
    (heap : List (Option Attached)) (p : ℕ) (a : Attached)
    → get_or heap p none ≡ some a
    → deref heap p ≡ done a
deref-live heap p a e = rw (deref, e) refl

check-Checks :
    (facts : SocketFacts) (fd : ℤ) (b : Bindings) (i p : ℕ)
    → AreSafe b
    → search_from b.sockets fd ≡ hit i
    → datum_in b.sockets i ≡ some p
    → (r : Option ℕ × Bindings) × (check_pointer facts (some p) b ≡ done r) × Checks fd r
unfolding check_pointer
check-Checks facts fd b i p s found at =
    let (a, live, unused, kept) = s.at_rest i p at in
    elim (check-references facts a.info 0 unused) [
      | inl (held, e, up, keep, _, _) ↦ (
        (some p, put_info b p a (some held)),
        rw (deref-live b.heap p a live, e, keep) refl,
        IsSafe-lock b.sockets b.heap fd i p (record a { info = held }) s found at up keep,
      )
      | inr (e, f) ↦ (
        (none, put_info b p a none),
        rw (deref-live b.heap p a live, e, f) refl,
        IsSafeBut-set b.sockets b.heap fd i p none s found at,
      )
    ]

found_or_new-Obtained :
    (facts : SocketFacts) (raw : HostAddress) (fd : ℤ) (r : Option ℕ × Bindings)
    → fd ≢ minus_one
    → Checks fd r
    → Obtained fd (found_or_new facts raw fd r)
found_or_new-Obtained facts raw fd (some p, b) ne c = c
found_or_new-Obtained facts raw fd (none, b) ne c =
    locked_new-Obtained b fd (init facts raw fd) (init-IsNew facts raw fd) ne c

-- `getInfos` on safe bindings and a descriptor other than -1 never reads an info that was freed. It
-- gives an info with exactly one reference that only this descriptor leads to, or none and safe
-- bindings.
pub get_infos-Obtained :
    (facts : SocketFacts) (raw : HostAddress) (fd : ℤ) (b : Bindings)
    → AreSafe b
    → fd ≢ minus_one
    → (r : Option ℕ × Bindings) × (get_infos facts raw fd b ≡ done r) × Obtained fd r
unfolding get_infos check_pointer
get_infos-Obtained facts raw fd b s ne = elim (get-search b.sockets fd) [
  | inl (e, _) ↦
      rw (e, check_pointer)
        (
          locked_new b fd (init facts raw fd),
          refl,
          locked_new-Obtained b fd (init facts raw fd) (init-IsNew facts raw fd) ne
              (IsSafe-IsSafeBut b.sockets b.heap fd s),
        )
  | inr (i, p, found, e, at) ↦
      let (r, f, c) = check-Checks facts fd b i p s found at in
      rw (e, f) (found_or_new facts raw fd r, refl, found_or_new-Obtained facts raw fd r ne c)
]

unlock_kept :
    (si : SocketInfo)
    → si.to_destroy ≡ false
    → unlock si ≡ some (record si { sem = decrement_ℤ si.sem })
unfolding unlock
unlock_kept si kept = ground (arith, kept)

-- `RELEASE_SI` on the info of a call frees nothing and leaves safe bindings.
pub release-AreSafe :
    (fd : ℤ) (p : ℕ) (b : Bindings)
    → AreHeld fd p b
    → (b' : Bindings) × (release (some p) b ≡ done b') × AreSafe b'
unfolding release
release-AreSafe fd p b s =
    let (a, live, one, kept) = s.locked in
    let si = record a.info { sem = decrement_ℤ a.info.sem } in
    (
      put_info b p a (some si),
      rw (deref-live b.heap p a live, unlock_kept a.info kept) refl,
      IsHeld-release b.sockets b.heap fd p (record a { info = si }) s (rw one refl) kept,
    )
