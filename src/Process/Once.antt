-- ===== src/Process/Once.antt =====
-- Rules of mode do-once in `ActionQueue_process` of src/actions.c.
use libinject.Base.{ℕ, true, ◌<◌, ◌≡◌, refl, length, pos}
use libinject.Outcome.{fault, deadlock}
use libinject.Process.{after_task, next_action}
use libinject.Queue.Locks.{InUse, remove-InUse}
use libinject.Queue.{line_at, remove}
use libinject.Rule.{Os, Action, once, stop}
use libinject.Task.{Machine, Syscall}

module _ {W : Type 0} (os : Os W) (callback : Syscall W) where
  -- A do-once rule that the thread runs, and so still counts as its user, and that ends with `stop`:
  -- after a task that went on the thread waits for ever, since the removal of the rule waits for the
  -- accessor that only the `UNLOCK_ACTION` after it would give back.
  pub after_task-once :
      (line i : ℕ) (a : Action) (m : Machine W)
      → a.mode ≡ once
      → a.next.type ≡ stop
      → a.pos ≡ pos i
      → i < length m.queue
      → InUse (line_at m.queue i)
      → after_task os callback line a m ≡ fault deadlock
  unfolding after_task next_action
  after_task-once line i a m o s p h u =
      let w : remove m.queue a.pos true ≡ fault deadlock = rw p (remove-InUse m.queue i h u) in
      rw (s, o, w) refl
