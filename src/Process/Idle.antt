-- ===== src/Process/Idle.antt =====
-- A call that no rule is for, in `ActionQueue_process` of src/actions.c.
use libinject.Base.{
  ℕ, zero, suc, ◌+◌, ◌-◌, Bool, false, Option, none, some, ◌≡◌, refl, Option-cases, length, inl,
  inr,
}
use libinject.Outcome.{done}
use libinject.Process.{Request, process, direct}
use libinject.Queue.{ActionQueue, line_at, first_match, get_match}
use libinject.Rule.Conditions.{match_action}
use libinject.Rule.{Os, Action}
use libinject.Socket.{SocketInfo, SocketInfoDirection}
use libinject.Task.{Syscall, ActionSocketData}

module _ {W : Type 0} (os : Os W) where
  -- No rule of the table matches the call, and none of them asks for the time or for a random number.
  abbrev pub Unmatched : ActionQueue → SocketInfo → SocketInfoDirection → Bool → W → Type 0
  Unmatched q si direction m w =
      (i : ℕ) (a : Action)
      → line_at q i ≡ some a
      → match_action os a si direction m w ≡ done (false, w)

  first_match-none :
      (n : ℕ) (q : ActionQueue) (si : SocketInfo) (direction : SocketInfoDirection) (m : Bool)
      (i : ℕ) (w : W)
      → Unmatched q si direction m w
      → first_match os n q si direction m i w ≡ done (none, w)
  unfolding first_match
  first_match-none zero q si direction m i w h = refl
  first_match-none (suc n) q si direction m i w h = elim (Option-cases (line_at q i)) [
    | inl e ↦ rw (e, first_match) (first_match-none n q si direction m (i + 1) w h)
    | inr (a, e) ↦ rw (e, h i a e, first_match) (first_match-none n q si direction m (i + 1) w h)
  ]

  -- A call that no rule of the table matches, and for which none asks for the time or for a random
  -- number, is the system call itself, whatever the fuel: its
  -- result, `errno`, bytes and world are those of the callback, and the rules and the socket's data
  -- are left alone.
  pub process-Unmatched :
      (callback : Syscall W) (fuel : ℕ) (q : ActionQueue) (si : SocketInfo)
      (s : Option ActionSocketData) (r : Request) (w : W)
      → Unmatched q si r.direction false w
      → process os callback fuel q si s r w ≡ done (direct os callback r si q s w)
  unfolding process get_match
  process-Unmatched callback fuel q si s r w h =
      rw (first_match-none (length q - 0) q si r.direction false 0 w h) refl
