-- ===== src/Process/Onward.antt =====
-- A round of the loop in `ActionQueue_process` of src/actions.c, where the rules only jump forward:
-- it goes on at a later line.
use libinject.Base.{
  ℕ, ◌+◌, ◌-◌, ◌≤◌, Bool, true, false, not, ◌&&◌, ◌||◌, Option, none, some, ◌≡◌, refl, sym, arith,
  length, ℤ, pos, subst,
}
use libinject.Outcome.{Outcome, done, fault}
use libinject.Process.Forward.{
  JumpsForward, IsForward, AreForward, EndsWith, EndsWith->>=, EndsWith-if, lock_line-AreForward,
  unlock_action-AreForward, remove-AreForward,
}
use libinject.Process.Tasks.{perform-Kept, Kept}
use libinject.Process.{
  round, found_match, found_from, next_action, action_process, after_task, task_done, removed_once,
  unlocked, marked, round_on, is_spent, is_hang, with_socket_data,
}
use libinject.Queue
use libinject.Queue.{
  ActionQueue, line_at, first_match, first_line, get_match, get_from, unlock_action, place,
  lock_line,
}
use libinject.Rule.{
  Os, is_reading, normal, once, once_per_call, once_per_socket, ActionGotoType, continue, goto,
  next, exec, stop, Action, ActionGoto,
}
use libinject.Socket.{SocketInfo, SocketInfoDirection}
use libinject.Task.{socket_data_of, Machine, Syscall}
use libinject.Process.Search.{
  IsFrom, IsFrom-of_le, IsFrom-rest, first_line-IsFrom, lock_line-IsFrom, first_match-IsFrom,
}

-- What is known after a round on line `i` of a table of `n` lines.
abbrev pub Onward : {W : Type 0} → ℕ → ℕ → Option ℕ × Machine W → Type 0
Onward i n r = IsFrom i n r.0 × AreForward n r.1.queue

module _ {W : Type 0} (os : Os W) (callback : Syscall W) where
  pub get_match-Onward :
      (i n : ℕ) (q : ActionQueue) (si : SocketInfo) (direction : SocketInfoDirection) (m : Bool)
      (w : W)
      → AreForward n q
      → EndsWith
          (λ r. IsFrom i n r.0 × AreForward n r.1)
          (get_match os q si direction m (pos i) true w)
  unfolding get_match
  get_match-Onward i n q si direction m w s =
      let found = first_match os (length q - i) q si direction m i w in
      EndsWith->>= (λ r. IsFrom i (i + (length q - i)) r.0) (λ r. IsFrom i n r.0 × AreForward n r.1)
        found _ (first_match-IsFrom os (length q - i) q si direction m i w)
        (λ r h.
          let below : IsFrom i n r.0 =
            subst (λ k. IsFrom i k r.0) s.size (IsFrom-rest i (length q) r.0 h) in
          (lock_line-IsFrom i n true q r.0 below, lock_line-AreForward n true q r.0 s))

  found_match-Onward :
      (i n : ℕ) (m : Machine W)
      → AreForward n m.queue
      → EndsWith (Onward i n) (found_match os callback m (pos i))
  found_match-Onward i n m s =
      EndsWith->>= (λ r. IsFrom i n r.0 × AreForward n r.1) (Onward i n)
        (get_match os m.queue m.si m.call.direction true (pos i) true m.world) _
        (get_match-Onward i n m.queue m.si m.call.direction true m.world s) (λ _ h. h)

  found_from-Onward :
      (i n : ℕ) (m : Machine W)
      → AreForward n m.queue
      → EndsWith (Onward i n) (found_from os callback m (pos i))
  unfolding get_from
  found_from-Onward i n m s =
      let q = m.queue in
      let o = first_line (length q - i) q i in
      let below : IsFrom i n o =
        subst (λ k. IsFrom i k o) s.size
          (IsFrom-rest i (length q) o (first_line-IsFrom (length q - i) q i)) in
      (lock_line-IsFrom i n true q o below, lock_line-AreForward n true q o s)

  Onward-of_le :
      (i j n : ℕ) (x : Outcome (Option ℕ × Machine W))
      → i ≤ j
      → EndsWith (Onward j n) x
      → EndsWith (Onward i n) x
  Onward-of_le i j n (done r) h k = (IsFrom-of_le i j n r.0 h k.0, k.1)
  Onward-of_le i j n (fault e) h k = k

  next_type-Onward :
      (i n : ℕ) (t : ActionGotoType) (line : ℤ) (m : Machine W)
      → JumpsForward t line i
      → AreForward n m.queue
      → EndsWith
          (Onward (i + 1) n)
          (next_action os callback (record { type = t; line = line }) (pos i) m)
  unfolding next_action
  next_type-Onward i n continue line m h s = found_match-Onward (i + 1) n m s
  next_type-Onward i n goto line m (k, e, h) s =
      rw e (Onward-of_le (i + 1) k n _ (omega arith) (found_match-Onward k n m s))
  next_type-Onward i n next line m h s = found_from-Onward (i + 1) n m s
  next_type-Onward i n exec line m (k, e, h) s =
      rw e (Onward-of_le (i + 1) k n _ (omega arith) (found_from-Onward k n m s))
  next_type-Onward i n stop line m h s = (tt, s)

  next_action-Onward :
      (i n : ℕ) (g : ActionGoto) (m : Machine W)
      → JumpsForward g.type g.line i
      → AreForward n m.queue
      → EndsWith (Onward (i + 1) n) (next_action os callback g (pos i) m)
  unfolding next_action
  next_action-Onward i n g m = next_type-Onward i n g.type g.line m

  action_process-Kept :
      (n : ℕ) (a : Action) (m : Machine W)
      → AreForward n m.queue
      → EndsWith (Kept os callback n) (action_process os callback a m)
  unfolding action_process
  action_process-Kept n a m s =
      let d = socket_data_of m in
      let woken = with_socket_data os callback m (record d { hanging = false }) in
      EndsWith-if (Kept os callback n) (is_reading m.call.direction && d.hanging) _ _
        (EndsWith-if (Kept os callback n) (is_hang a.task.type) (done (true, woken)) _ s
          (perform-Kept os callback n a.task a.pos woken s))
        (perform-Kept os callback n a.task a.pos (with_socket_data os callback m d) s)

  -- The machine holds a table of forward rules.
  abbrev pub Holds : ℕ → Machine W → Type 0
  Holds n m = AreForward n m.queue

  unlocked-Holds :
      (i n : ℕ) (m : Machine W) → Holds n m → EndsWith (Holds n) (unlocked os callback i m)
  unlocked-Holds i n m s =
      EndsWith->>= (AreForward n) (Holds n) (unlock_action m.queue i) _
        (unlock_action-AreForward n i m.queue s) (λ _ h. h)

  removed_once-Holds :
      (n : ℕ) (a : Action) (m : Machine W)
      → Holds n m
      → EndsWith (Holds n) (removed_once os callback a m)
  removed_once-Holds n a m s =
      elim a.mode
        as (λ t. EndsWith (Holds n) (removed_once os callback (record a { mode = t }) m)) [
          | once ↦
              EndsWith->>= (AreForward n) (Holds n) (Queue.remove m.queue a.pos true) _
                (remove-AreForward n a.pos true m.queue s) (λ _ h. h)
          | normal ↦ s
          | once_per_call ↦ s
          | once_per_socket ↦ s
        ]

  after_task-Onward :
      (i n : ℕ) (a : Action) (m : Machine W)
      → IsForward i a
      → Holds n m
      → EndsWith (Onward (i + 1) n) (after_task os callback i a m)
  unfolding after_task
  after_task-Onward i n a m (at, jump) s =
      let start = marked os callback a m in
      EndsWith->>= (Onward (i + 1) n) (Onward (i + 1) n)
        (next_action os callback a.next a.pos start) _
        (subst (λ l. EndsWith (Onward (i + 1) n) (next_action os callback a.next l start)) (sym at)
          (next_action-Onward i n a.next start jump s))
        (λ r h.
          EndsWith->>= (Holds n) (Onward (i + 1) n) (removed_once os callback a r.1) _
            (removed_once-Holds n a r.1 h.1)
            (λ m' h'.
              EndsWith->>= (Holds n) (Onward (i + 1) n) (unlocked os callback i m') _
                (unlocked-Holds i n m' h') (λ m'' h''. (h.0, h''))))

  task_done-Onward :
      (i n : ℕ) (a : Action) (r : Bool × Machine W)
      → IsForward i a
      → Holds n r.1
      → EndsWith (Onward (i + 1) n) (task_done os callback i a r)
  task_done-Onward i n a (ok, m) f s =
      EndsWith-if (Onward (i + 1) n) (not ok || (socket_data_of m).hanging) _ _
        (EndsWith->>= (Holds n) (Onward (i + 1) n) (unlocked os callback i m) _
          (unlocked-Holds i n m s) (λ m' h. (tt, h)))
        (after_task-Onward i n a m f s)

  round_on-Onward :
      (i n : ℕ) (o : Option Action) (m : Machine W)
      → line_at m.queue i ≡ o
      → Holds n m
      → EndsWith (Onward (i + 1) n) (round_on os callback i o m)
  round_on-Onward i n none m e s = refl
  round_on-Onward i n (some a) m e s =
      let f = s.forward i a e in
      EndsWith-if (Onward (i + 1) n) (is_spent os callback a m) _ _
        (EndsWith->>= (Holds n) (Onward (i + 1) n) (unlocked os callback i m) _
          (unlocked-Holds i n m s) (λ m' h. rw f.0 (found_match-Onward (i + 1) n m' h)))
        (EndsWith->>= (Kept os callback n) (Onward (i + 1) n) (action_process os callback a m) _
          (action_process-Kept n a m s) (λ r h. task_done-Onward i n a r f h))

  -- A round goes on at a later line, or is the last.
  pub round-Onward :
      (i n : ℕ) (m : Machine W) → Holds n m → EndsWith (Onward (i + 1) n) (round os callback i m)
  unfolding round
  round-Onward i n m s = round_on-Onward i n (line_at m.queue i) m refl s
