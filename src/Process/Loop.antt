-- ===== src/Process/Loop.antt =====
-- The loop over the rules in `ActionQueue_process` of src/actions.c and its fuel.
use libinject.Base.{ℕ, zero, suc, ◌+◌, Option, none, some, ◌≡◌, arith}
use libinject.Outcome.{done, >>=-eq-done}
use libinject.Process.{rounds, round}
use libinject.Rule.{Os}
use libinject.Task.{Machine, Syscall}

module _ {W : Type 0} (os : Os W) (callback : Syscall W) where
  -- A loop that ends with some fuel ends with the same state with any more.
  pub rounds-more :
      (fuel extra : ℕ) (line : Option ℕ) (m m' : Machine W)
      → rounds os callback fuel line m ≡ done m'
      → rounds os callback (fuel + extra) line m ≡ done m'
  unfolding rounds
  rounds-more zero zero none m m' h = h
  rounds-more zero (suc extra) none m m' h = h
  rounds-more (suc fuel) extra none m m' h = h
  rounds-more zero extra (some line) m m' h = cc
  rounds-more (suc fuel) extra (some line) m m' h =
      let (r, e, f) = >>=-eq-done (round os callback line m) _ h in
      let s : suc fuel + extra ≡ suc (fuel + extra) = omega arith in
      rw (s, rounds, e) (rounds-more fuel extra r.0 r.1 m' f)
