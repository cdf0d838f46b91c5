-- ===== src/Process/Unchanged.antt =====
-- The tasks of src/actions that leave the table of rules as it is.
use libinject.Base.{
  not, ◌||◌, eq_ℤ, to_int, minus_one, ℕ, Bool, true, false, ◌≡◌, refl, ◌∙◌, arith, if◌then◌else◌,
  ◌==◌, length, ℤ, pos,
}
use libinject.Format.{of_le_bytes}
use libinject.Rule.{Os, ActionData}
use libinject.Socket.{shares, direction_bits, data_dir}
use libinject.Task.Files.{
  read_field, replay_record, read_direction, read_proto, read_local_port, read_addr,
  read_remote_port, read_success, signed_byte, replay_success, replay_data, replay_end,
}
use libinject.Task.Perform.{
  perform_split, split_writing, after_first, second_write, perform_hang, perform_local_hang,
  perform_mark_done,
}
use libinject.Task.{
  Machine, Syscall, perform_syscall, perform_cancel_syscall, perform_drop, perform_error,
  perform_emit, perform_reset, perform_truncate,
}

module _ {W : Type 0} (os : Os W) (callback : Syscall W) where
  abbrev pub Same : Machine W → Bool × Machine W → Type 0
  Same m x = x.1.queue ≡ m.queue

  Same-if :
      (m : Machine W) (c : Bool) (x y : Bool × Machine W)
      → Same m x
      → Same m y
      → Same m (if c then x else y)
  Same-if m true x y h k = h
  Same-if m false x y h k = k

  pub perform_syscall-Same : (m : Machine W) → Same m (perform_syscall os callback m)
  unfolding perform_syscall
  perform_syscall-Same m = ground arith

  pub perform_drop-Same : (m : Machine W) → Same m (perform_drop os callback m)
  unfolding perform_drop
  perform_drop-Same m = ground arith

  pub perform_error-Same : (d : ActionData) (m : Machine W) → Same m (perform_error os callback d m)
  unfolding perform_error
  perform_error-Same d m = ground arith

  pub perform_hang-Same :
      (line : ℤ) (d : ActionData) (m : Machine W) → Same m (perform_hang os callback line d m)
  unfolding perform_hang
  perform_hang-Same line d m = ground arith

  pub perform_split-Same : (d : ActionData) (m : Machine W) → Same m (perform_split os callback d m)
  unfolding perform_split split_writing after_first second_write perform_syscall
  perform_split-Same d m = ground arith

  pub simple_tasks-Same :
      (d : ActionData) (m : Machine W)
      → Same m (perform_cancel_syscall os callback m)
        × Same m (perform_emit os callback d m)
        × Same m (perform_reset os callback m)
        × Same m (perform_truncate os callback d m)
        × Same m (perform_mark_done os callback d m)
  unfolding perform_cancel_syscall perform_emit perform_reset perform_truncate perform_mark_done
  simple_tasks-Same d m = (ground arith, ground arith, ground arith, ground arith, ground arith)

  pub perform_local_hang-Same :
      (line : ℤ) (d : ActionData) (m : Machine W) → Same m (perform_local_hang os callback line d m)
  unfolding perform_local_hang perform_hang perform_syscall
  perform_local_hang-Same line d m = ground arith

  pub replay_end-Same :
      (direction : ℕ) (success len : ℤ) (m : Machine W)
      → Same m (replay_end os callback direction success len m)
  unfolding replay_end perform_syscall
  replay_end-Same direction success len m = ground arith

  pub replay_data-Same :
      (file direction : ℕ) (success len : ℤ) (m : Machine W)
      → Same m (replay_data os callback file direction success len m)
  unfolding replay_data replay_end perform_syscall
  replay_data-Same file direction success len m = ground arith

  pub read_field-Same :
      (m₀ m : Machine W) (file count : ℕ) (next : ℕ → Machine W → Bool × Machine W)
      → m.queue ≡ m₀.queue
      → ((k : ℕ) (m' : Machine W) → m'.queue ≡ m₀.queue → Same m₀ (next k m'))
      → Same m₀ (read_field os callback file count m next)
  read_field-Same m₀ m file count next e h =
      let r = os.read_file file count m.world in
      let m' = record m { world = r.1 } in
      Same-if m₀ (length r.0 == count) (next (of_le_bytes r.0) m') (false, m')
        (h (of_le_bytes r.0) m' e) e

  pub replay_success-Same :
      (m₀ : Machine W) (file direction : ℕ) (success : ℤ) (m : Machine W)
      → m.queue ≡ m₀.queue
      → Same m₀ (replay_success os callback file direction success m)
  replay_success-Same m₀ file direction success m e =
      let failed = eq_ℤ success minus_one in
      let has_data = shares (direction_bits data_dir) direction in
      let stop =
        λ (k : ℕ) (m' : Machine W). replay_end os callback direction success (to_int k) m' in
      let fill =
        λ (k : ℕ) (m' : Machine W). replay_data os callback file direction success (to_int k) m' in
      let next = λ (k : ℕ) (m' : Machine W). if failed then stop k m' else fill k m' in
      let no_data = replay_end os callback direction success (pos 0) m in
      let with_length = read_field os callback file 4 m next in
      Same-if m₀ (not (eq_ℤ success (pos 0) || eq_ℤ success (pos 1) || failed)) (false, m)
        (if failed || has_data then with_length else no_data) e
        (Same-if m₀ (failed || has_data) with_length no_data
          (read_field-Same m₀ m file 4 next e (λ k m' f.
            Same-if m₀ failed (stop k m') (fill k m')
              (replay_end-Same direction success (to_int k) m' ∙ f)
              (replay_data-Same file direction success (to_int k) m' ∙ f)))
          (replay_end-Same direction success (pos 0) m ∙ e))

  pub replay_record-Same : (file : ℕ) (m : Machine W) → Same m (replay_record os callback file m)
  unfolding replay_record
  replay_record-Same file m =
      read_field-Same m m file 8 (λ _ m'. read_direction os callback file m') refl
        (λ _ m₁ e₁.
          read_field-Same m m₁ file 1 (λ d m'. read_proto os callback file d m') e₁
            (λ d m₂ e₂.
              read_field-Same m m₂ file 1 (λ _ m'. read_local_port os callback file d m') e₂
                (λ _ m₃ e₃.
                  read_field-Same m m₃ file 2 (λ _ m'. read_addr os callback file d m') e₃
                    (λ _ m₄ e₄.
                      read_field-Same m m₄ file 4 (λ _ m'. read_remote_port os callback file d m')
                        e₄
                        (λ _ m₅ e₅.
                          read_field-Same m m₅ file 2 (λ _ m'. read_success os callback file d m')
                            e₅
                            (λ _ m₆ e₆.
                              read_field-Same m m₆ file 1
                                (λ n m'. replay_success os callback file d (signed_byte n) m') e₆
                                (λ n m₇ e₇.
                                  replay_success-Same m file d (signed_byte n) m₇ e₇)))))))
