-- ===== src/Task/Failures.antt =====
-- The tasks of src/actions that fail.
use libinject.Base.{
  Bool, not, ◌&&◌, true, false, ◌||◌, ◌≡◌, ◌⊎◌, subst, refl, ap, arith, if◌then◌else◌, ℤ, pos,
  ltb_ℤ, Bool-cases, Option-cases, inl, inr,
}
use libinject.Outcome.{Outcome, Fault, division_by_zero, done, fault, >>=-eq-done}
use libinject.Queue
use libinject.Rule.{
  Os, is_writing, int_of, ActionData, ActionTask, ActionTaskType, alter, cancel_syscall, drop, dump,
  echo, emit, error, hang, local_hang, log, mark_done, nop, remote_hang, remove, replay, reset,
  split, syscall, truncate,
}
use libinject.Task.Alter.{perform_alter, prepared, altered, altered_or_fault, no_modulus, double_of}
use libinject.Task.Files.{perform_log}
use libinject.Task.Perform.{
  perform, perform_type, perform_split, split_writing, hang_after, perform_hang, perform_local_hang,
  perform_mark_done, perform_remove,
}
use libinject.Task.{
  is_data, Machine, Syscall, perform_syscall, perform_cancel_syscall, perform_drop, perform_error,
  perform_emit, perform_reset, perform_truncate,
}

module _ {W : Type 0} (os : Os W) (callback : Syscall W) where
  -- A task that fails and leaves the state as it was, or that succeeds.
  abbrev Steady : Machine W → Bool × Machine W → Type 0
  Steady m r = (r ≡ (false, m)) ⊎ (r.0 ≡ true)

  guarded :
      (b : Bool) (m : Machine W) (r : Bool × Machine W)
      → Steady m r
      → Steady m (if b then (false, m) else r)
  guarded true m r h = inl refl
  guarded false m r h = h

  syscall-Steady : (m : Machine W) → Steady m (perform_syscall os callback m)
  unfolding perform_syscall
  syscall-Steady m = guarded m.call.aborted m _ (inr refl)

  drop-Steady : (m : Machine W) → Steady m (perform_drop os callback m)
  unfolding perform_drop
  drop-Steady m = guarded m.call.is_done m _ (inr refl)

  cancel_syscall-Steady : (m : Machine W) → Steady m (perform_cancel_syscall os callback m)
  unfolding perform_cancel_syscall
  cancel_syscall-Steady m = guarded m.call.is_done m _ (inr refl)

  emit-Steady : (d : ActionData) (m : Machine W) → Steady m (perform_emit os callback d m)
  unfolding perform_emit
  emit-Steady d m = guarded m.call.is_done m _ (inr refl)

  reset-Steady : (m : Machine W) → Steady m (perform_reset os callback m)
  unfolding perform_reset
  reset-Steady m = guarded m.call.is_done m _ (inr refl)

  error-Steady : (d : ActionData) (m : Machine W) → Steady m (perform_error os callback d m)
  unfolding perform_error
  error-Steady d m = guarded m.call.is_done m _ (guarded _ m _ (inr refl))

  truncate-Steady : (d : ActionData) (m : Machine W) → Steady m (perform_truncate os callback d m)
  unfolding perform_truncate
  truncate-Steady d m = guarded (m.call.is_done || m.call.aborted) m _ (guarded _ m _ (inr refl))

  -- A system call that is not aborted always succeeds.
  called_ok : (m : Machine W) → m.call.aborted ≡ false → (perform_syscall os callback m).0 ≡ true
  unfolding perform_syscall
  called_ok m e = rw e refl

  chosen_ok :
      (b : Bool) (x y : Bool × Machine W) → x.0 ≡ true → y.0 ≡ true → (if b then x else y).0 ≡ true
  chosen_ok true x y e f = e
  chosen_ok false x y e f = f

  chosen :
      (b : Bool) (m : Machine W) (x y : Bool × Machine W)
      → Steady m x
      → Steady m y
      → Steady m (if b then x else y)
  chosen true m x y e f = e
  chosen false m x y e f = f

  split_writing_ok :
      (d : ActionData) (m : Machine W)
      → m.call.aborted ≡ false
      → (split_writing os callback d m).0 ≡ true
  unfolding split_writing
  split_writing_ok d m e = chosen_ok _ _ _ (called_ok m e) refl

  split-Steady : (d : ActionData) (m : Machine W) → Steady m (perform_split os callback d m)
  unfolding perform_split
  split-Steady d m = elim (Bool-cases (m.call.is_done || m.call.aborted)) [
    | inl e ↦ rw e (inl refl)
    | inr e ↦
        let ab : m.call.aborted ≡ false = ground arith in
        rw e (
          chosen _ m _ _ (inr (called_ok _ ab))
            (chosen _ m _ _ (inr (split_writing_ok d m ab)) (inl refl)))
  ]

  hang_ok :
      (line : ℤ) (d : ActionData) (m : Machine W) → (perform_hang os callback line d m).0 ≡ true
  unfolding perform_hang
  hang_ok line d m = chosen_ok _ _ _ refl refl

  hang_after_ok :
      (line : ℤ) (d : ActionData) (r : Bool × Machine W)
      → r.0 ≡ true
      → (hang_after os callback line d r).0 ≡ true
  hang_after_ok line d (true, m) e = hang_ok line d m
  hang_after_ok line d (false, m) e = cc

  local_hang-Steady :
      (line : ℤ) (d : ActionData) (m : Machine W)
      → Steady m (perform_local_hang os callback line d m)
  unfolding perform_local_hang
  local_hang-Steady line d m =
      let after : Steady m (hang_after os callback line d (perform_syscall os callback m)) =
        elim (syscall-Steady m) [
          | inl e ↦ rw e (inl refl)
          | inr e ↦ inr (hang_after_ok line d (perform_syscall os callback m) e)
        ] in
      chosen _ m _ _ after (inr (hang_ok line d m))

  mark_done_ok : (d : ActionData) (m : Machine W) → (perform_mark_done os callback d m).0 ≡ true
  unfolding perform_mark_done
  mark_done_ok d m = chosen_ok _ _ _ refl refl

  by_done : (m : Machine W) (x r : Bool × Machine W) → Steady m x → done x ≡ done r → Steady m r
  by_done m x r s h = let e : x ≡ r = cc in subst (Steady m) e s

  remove-Steady :
      (d : ActionData) (m : Machine W) (r : Bool × Machine W)
      → perform_remove os callback d m ≡ done r
      → Steady m r
  unfolding perform_remove
  remove-Steady d m r h = elim (Bool-cases (ltb_ℤ (int_of d.word0) (pos 10))) [
    | inl e ↦ by_done m (false, m) r (inl refl) (rw e at h)
    | inr e ↦
        let (q, _, f) = >>=-eq-done (Queue.remove m.queue (int_of d.word0) true) _ (rw e at h) in
        by_done m (true, record m { queue = q }) r (inr refl) f
  ]

  log-Steady :
      (line : ℤ) (d : ActionData) (m : Machine W) → Steady m (perform_log os callback line d m)
  unfolding perform_log
  log-Steady line d m = elim (Option-cases d.str) [
    | inl e ↦ rw e (inr refl)
    | inr (name, e) ↦ rw e (inr (chosen_ok _ _ _ refl refl))
  ]

  refused_or :
      (c : Bool) (m : Machine W) (o : Outcome (Bool × Machine W)) (r : Bool × Machine W)
      → (o ≡ done r → Steady m r)
      → (if c then done (false, m) else o) ≡ done r
      → Steady m r
  refused_or true m o r k h = by_done m (false, m) r (inl refl) h
  refused_or false m o r k h = k h

  fault_or :
      (c : Bool) (e : Fault) (m : Machine W) (x r : Bool × Machine W)
      → x.0 ≡ true
      → (if c then fault e else done x) ≡ done r
      → Steady m r
  fault_or true e m x r t h = cc
  fault_or false e m x r t h = by_done m x r (inr t) h

  alter-Steady :
      (d : ActionData) (m : Machine W) (r : Bool × Machine W)
      → perform_alter os callback d m ≡ done r
      → Steady m r
  unfolding perform_alter
  alter-Steady d m r h =
      let m₁ = prepared os callback m in
      refused_or (not (is_data m.call.direction) || (is_writing m.call.direction && m.call.is_done))
        m (altered_or_fault os callback d m₁) r
        (λ k.
          fault_or (no_modulus os callback d m₁) division_by_zero m
            (true, altered os callback (double_of (int_of d.word0)) m₁) r refl k)
        h

  -- The tasks that keep a file open, and may fail after they have opened or read it.
  abbrev pub uses_file : ActionTaskType → Bool
  uses_file dump = true
  uses_file replay = true
  uses_file _ = false

  type-Steady :
      (type : ActionTaskType) (line : ℤ) (d : ActionData) (m : Machine W) (r : Bool × Machine W)
      → uses_file type ≡ false
      → perform_type os callback type line d m ≡ done r
      → Steady m r
  unfolding perform_type
  type-Steady cancel_syscall line d m r o h = by_done m _ r (cancel_syscall-Steady m) h
  type-Steady drop line d m r o h = by_done m _ r (drop-Steady m) h
  type-Steady echo line d m r o h = by_done m _ r (inr refl) h
  type-Steady emit line d m r o h = by_done m _ r (emit-Steady d m) h
  type-Steady error line d m r o h = by_done m _ r (error-Steady d m) h
  type-Steady hang line d m r o h = by_done m _ r (inr (hang_ok line d m)) h
  type-Steady local_hang line d m r o h = by_done m _ r (local_hang-Steady line d m) h
  type-Steady log line d m r o h = by_done m _ r (log-Steady line d m) h
  type-Steady mark_done line d m r o h = by_done m _ r (inr (mark_done_ok d m)) h
  type-Steady nop line d m r o h = by_done m _ r (inr refl) h
  type-Steady remote_hang line d m r o h = by_done m _ r (inr (hang_ok line d m)) h
  type-Steady remove line d m r o h = remove-Steady d m r h
  type-Steady reset line d m r o h = by_done m _ r (reset-Steady m) h
  type-Steady split line d m r o h = by_done m _ r (split-Steady d m) h
  type-Steady syscall line d m r o h = by_done m _ r (syscall-Steady m) h
  type-Steady truncate line d m r o h = by_done m _ r (truncate-Steady d m) h
  type-Steady alter line d m r o h = alter-Steady d m r h
  type-Steady dump line d m r o h = cc
  type-Steady replay line d m r o h = cc

  -- A task that fails, other than dump and replay, leaves the whole state as it was: the rules, the
  -- socket's data, the call, its bytes and the world.
  pub perform_failed :
      (t : ActionTask) (line : ℤ) (m m' : Machine W)
      → uses_file t.type ≡ false
      → perform os callback t line m ≡ done (false, m')
      → m' ≡ m
  unfolding perform
  perform_failed t line m m' o h = elim (type-Steady t.type line t.args m (false, m') o h) [
    | inl e ↦ ap (λ (r : Bool × Machine W). r.1) e
    | inr e ↦ cc
  ]
