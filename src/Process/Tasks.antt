-- ===== src/Process/Tasks.antt =====
-- The tasks of src/actions keep the jumps of the rules: all but `remove`, which takes a rule away,
-- and those that store in their rule leave the table as it is.
use libinject.Base.{
  ◌&&◌, not, ◌||◌, ℕ, Bool, true, false, none, Text, ◌≡◌, inl, inr, refl, sym, arith, if◌then◌else◌,
  ◌==◌, ℤ, pos, ltb_ℤ, Bool-cases, Option-cases, subst,
}
use libinject.Outcome.{done, fault, division_by_zero}
use libinject.Process.Forward.{
  AreForward, EndsWith, EndsWith->>=, EndsWith-if, remove-AreForward, store_data-AreForward,
}
use libinject.Queue
use libinject.Queue.{ActionQueue}
use libinject.Rule.{
  Os, ActionData, ActionTask, ActionTaskType, int_of, is_writing, alter, cancel_syscall, drop, dump,
  echo, emit, error, hang, local_hang, log, mark_done, nop, remote_hang, remove, replay, reset,
  split, syscall, truncate,
}
use libinject.Task.Alter.{perform_alter, prepared, altered, altered_or_fault, no_modulus, double_of}
use libinject.Task.Files.{
  perform_dump, perform_log, perform_replay, replay_record, log_to, log_named, opened, text_of,
  with_pid,
}
use libinject.Task.Perform.{
  perform, perform_type, perform_split, perform_hang, perform_local_hang, perform_mark_done,
  perform_remove,
}
use libinject.Task.{
  is_data, Machine, Syscall, perform_syscall, perform_cancel_syscall, perform_drop, perform_error,
  perform_emit, perform_reset, perform_truncate,
}
use libinject.Process.Unchanged.{
  Same, perform_syscall-Same, perform_drop-Same, perform_error-Same, perform_hang-Same,
  perform_split-Same, simple_tasks-Same, perform_local_hang-Same, replay_record-Same,
}

module _ {W : Type 0} (os : Os W) (callback : Syscall W) where
  -- What a task keeps.
  abbrev pub Kept : ℕ → Bool × Machine W → Type 0
  Kept n x = AreForward n x.1.queue

  kept :
      (n : ℕ) (m : Machine W) (x : Bool × Machine W)
      → AreForward n m.queue
      → Same os callback m x
      → Kept n x
  kept n m x s e = subst (AreForward n) (sym e) s

  Kept-if :
      (n : ℕ) (c : Bool) (x y : Bool × Machine W)
      → Kept n x
      → Kept n y
      → Kept n (if c then x else y)
  Kept-if n true x y h k = h
  Kept-if n false x y h k = k

  -- A task may keep its file in its rule.
  opened-AreForward :
      (n : ℕ) (open_file : Text → W → ℕ × W) (line : ℤ) (d : ActionData) (name : Text)
      (m : Machine W)
      → AreForward n m.queue
      → AreForward n (opened os callback open_file line d name m).1.queue
  opened-AreForward n open_file line d name m s = elim (Bool-cases (d.word0 == 0)) [
    | inl e ↦ rw e (store_data-AreForward n line _ m.queue s)
    | inr e ↦ rw e s
  ]

  perform_dump-Kept :
      (n : ℕ) (line : ℤ) (d : ActionData) (m : Machine W)
      → AreForward n m.queue
      → Kept n (perform_dump os callback line d m)
  unfolding perform_dump
  perform_dump-Kept n line d m s =
      let (timer, w) = os.now m.world in
      let start = record m { world = w } in
      let (file, m₁) =
        opened os callback os.open_write line d (with_pid (text_of d.str) os.process_id) start in
      let s₁ =
        opened-AreForward n os.open_write line d (with_pid (text_of d.str) os.process_id) start s in
      Kept-if n (file == 0) _ _ s₁ s₁

  perform_replay-Kept :
      (n : ℕ) (line : ℤ) (d : ActionData) (m : Machine W)
      → AreForward n m.queue
      → Kept n (perform_replay os callback line d m)
  unfolding perform_replay
  perform_replay-Kept n line d m s =
      let (file, m₁) = opened os callback os.open_read line d (text_of d.str) m in
      let s₁ = opened-AreForward n os.open_read line d (text_of d.str) m s in
      Kept-if n m.call.is_done _ _ s (
        Kept-if n (file == 0) (false, m₁) (replay_record os callback file m₁) s₁
          (kept n m₁ (replay_record os callback file m₁) s₁
            (replay_record-Same os callback file m₁)))

  log_to-Kept :
      (n : ℕ) (line : ℤ) (d : ActionData) (file : ℕ) (m : Machine W)
      → AreForward n m.queue
      → Kept n (log_to os callback line d (file, m))
  log_to-Kept n line d file m s =
      Kept-if n (file == 0) _ _
        (store_data-AreForward n line (record d { word0 = 0; str = none }) m.queue s) s

  perform_log-Kept :
      (n : ℕ) (line : ℤ) (d : ActionData) (m : Machine W)
      → AreForward n m.queue
      → Kept n (perform_log os callback line d m)
  unfolding perform_log
  perform_log-Kept n line d m s = elim (Option-cases d.str) [
    | inl e ↦ rw (log_named, e) s
    | inr (name, e) ↦
        let file_name = with_pid name os.process_id in
        let x = opened os callback os.open_write line d file_name m in
        rw (log_named, e)
          (log_to-Kept n line d x.0 x.1 (opened-AreForward n os.open_write line d file_name m s))
  ]

  prepared-queue : (m : Machine W) → (prepared os callback m).queue ≡ m.queue
  unfolding perform_syscall
  prepared-queue m = ground arith

  perform_alter-Kept :
      (n : ℕ) (d : ActionData) (m : Machine W)
      → AreForward n m.queue
      → EndsWith (Kept n) (perform_alter os callback d m)
  unfolding perform_alter
  perform_alter-Kept n d m s =
      let p = prepared os callback m in
      let after : AreForward n p.queue = subst (AreForward n) (sym (prepared-queue m)) s in
      let end = altered_or_fault os callback d p in
      let ends : EndsWith (Kept n) end =
        EndsWith-if (Kept n) (no_modulus os callback d p) (fault division_by_zero)
          (done (true, altered os callback (double_of (int_of d.word0)) p)) refl after in
      EndsWith-if (Kept n)
        (not (is_data m.call.direction) || (is_writing m.call.direction && m.call.is_done))
        (done (false, m)) end s ends

  perform_remove-Kept :
      (n : ℕ) (d : ActionData) (m : Machine W)
      → AreForward n m.queue
      → EndsWith (Kept n) (perform_remove os callback d m)
  unfolding perform_remove
  perform_remove-Kept n d m s =
      EndsWith-if (Kept n) (ltb_ℤ (int_of d.word0) (pos 10)) (done (false, m)) _ s (
        EndsWith->>= (AreForward n) (Kept n) (Queue.remove m.queue (int_of d.word0) true) _
          (remove-AreForward n (int_of d.word0) true m.queue s) (λ q t. t))

  perform_type-Kept :
      (n : ℕ) (t : ActionTaskType) (line : ℤ) (d : ActionData) (m : Machine W)
      → AreForward n m.queue
      → EndsWith (Kept n) (perform_type os callback t line d m)
  unfolding perform_type
  perform_type-Kept n cancel_syscall line d m s =
      kept n m (perform_cancel_syscall os callback m) s (simple_tasks-Same os callback d m).0
  perform_type-Kept n drop line d m s =
      kept n m (perform_drop os callback m) s (perform_drop-Same os callback m)
  perform_type-Kept n echo line d m s = s
  perform_type-Kept n emit line d m s =
      kept n m (perform_emit os callback d m) s (simple_tasks-Same os callback d m).1
  perform_type-Kept n error line d m s =
      kept n m (perform_error os callback d m) s (perform_error-Same os callback d m)
  perform_type-Kept n hang line d m s =
      kept n m (perform_hang os callback line d m) s (perform_hang-Same os callback line d m)
  perform_type-Kept n local_hang line d m s =
      kept n m (perform_local_hang os callback line d m) s
        (perform_local_hang-Same os callback line d m)
  perform_type-Kept n log line d m s = perform_log-Kept n line d m s
  perform_type-Kept n mark_done line d m s =
      kept n m (perform_mark_done os callback d m) s (simple_tasks-Same os callback d m).4
  perform_type-Kept n nop line d m s = s
  perform_type-Kept n remote_hang line d m s =
      kept n m (perform_hang os callback line d m) s (perform_hang-Same os callback line d m)
  perform_type-Kept n remove line d m s = perform_remove-Kept n d m s
  perform_type-Kept n reset line d m s =
      kept n m (perform_reset os callback m) s (simple_tasks-Same os callback d m).2
  perform_type-Kept n split line d m s =
      kept n m (perform_split os callback d m) s (perform_split-Same os callback d m)
  perform_type-Kept n syscall line d m s =
      kept n m (perform_syscall os callback m) s (perform_syscall-Same os callback m)
  perform_type-Kept n truncate line d m s =
      kept n m (perform_truncate os callback d m) s (simple_tasks-Same os callback d m).3
  perform_type-Kept n alter line d m s = perform_alter-Kept n d m s
  perform_type-Kept n dump line d m s = perform_dump-Kept n line d m s
  perform_type-Kept n replay line d m s = perform_replay-Kept n line d m s

  -- Every task of a rule keeps the table one of forward rules, and none runs out of fuel.
  pub perform-Kept :
      (n : ℕ) (t : ActionTask) (line : ℤ) (m : Machine W)
      → AreForward n m.queue
      → EndsWith (Kept n) (perform os callback t line m)
  unfolding perform
  perform-Kept n t line m s = perform_type-Kept n t.type line t.args m s
