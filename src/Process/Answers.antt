-- ===== src/Process/Answers.antt =====
-- Calls that a rule answers in place of the system: the tasks drop, cancel-syscall, error and emit
-- of src/actions, followed by the end of `ActionQueue_process`.
use libinject.Base.{Bool, true, ◌≡◌, ℤ}
use libinject.Process.{finish}
use libinject.Rule.{Os}
use libinject.Task.{Machine, Syscall}

module _ {W : Type 0} (os : Os W) (callback : Syscall W) where
  -- The task succeeds, and the call then ends with this result and this `errno`, and with the
  -- bytes, the world, the rules and the socket's data as they were.
  abbrev pub Answers : Machine W → ℤ → ℤ → Bool × Machine W → Type 0
  Answers m result errno r =
      let p = finish os callback r.1 in
      (r.0 ≡ true)
      × (p.result ≡ result)
      × (p.errno ≡ errno)
      × (p.user_memory ≡ m.call.user_memory)
      × (p.world ≡ m.world)
      × (p.queue ≡ m.queue)
      × (p.socket_data ≡ m.socket_data)
