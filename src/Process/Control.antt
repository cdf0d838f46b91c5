-- ===== src/Process/Control.antt =====
-- The rule that `Runtime_start` of src/runtime.c puts on line 0 keeps the rules off the connection
-- that edits them.
use libinject.Base.{
  ℕ, zero, suc, ◌-◌, Bool, true, false, ◌&&◌, Option, none, some, ◌∷◌, ◌≡◌, inl, inr, refl, sym,
  ◌∙◌, ap, arith, if◌then◌else◌, length, ltb, ℤ, pos, eq_ℤ, eq_ℤ_iff, Bool-cases,
  decrement-increment, increment_ℤ,
}
use libinject.Outcome.{Outcome, done, ◌>>=◌}
use libinject.Process.{
  Processed, Request, process, matched_first, postponed, resume, direct, run_from, initial, rounds,
  round, finish, action_process, is_spent_as, next_action, after_task, mark,
}
use libinject.Queue.{ActionQueue, get_match, first_match, unlock_action}
use libinject.Rule.Conditions.{match_action, match_condition}
use libinject.Rule.{
  Os, Action, is_reading, is_writing, always, normal, nop, stop, match_hosts, address_match,
  address_match_as,
}
use libinject.Socket.{
  SocketInfo, SocketInfoDirection, any_dir, tcp, me, nobody, shares, direction_bits,
}
use libinject.Task.Perform.{perform, perform_type}
use libinject.Task.{ActionSocketData, Syscall, Machine, perform_syscall, got_socket_data}

-- What `Action_init` reads from `0 on tcp with me port … do nop stop` into fresh memory.
abbrev pub control_rule : Action → ℕ → ℤ → Action
control_rule memory port accessors = record memory {
  pos = pos 0;
  proto = tcp;
  direction = any_dir;
  from = record { type = me; addr = 0; port = pos port };
  to = record memory.to { type = nobody };
  condition = record memory.condition { type = always };
  mode = normal;
  task = record memory.task { type = nop };
  next = record { type = stop; line = pos 0 };
  accessors = accessors;
  emptying = false;
}

-- A tcp socket of this host on a port.
abbrev pub on_port : SocketInfo → ℕ → SocketInfo
on_port si port = record si { proto = tcp; local = record si.local { type = me; port = pos port } }

shares_any : (d : SocketInfoDirection) → shares 15 (direction_bits d) ≡ true
shares_any d = ground arith

module _ {W : Type 0} (os : Os W) where
  match_action-control :
      (memory : Action) (port : ℕ) (accessors : ℤ) (si : SocketInfo) (d : SocketInfoDirection)
      (w : W)
      → match_action os (control_rule memory port accessors) (on_port si port) d false w
        ≡ done (true, w)
  unfolding match_action match_condition match_hosts address_match address_match_as
  match_action-control memory port accessors si d w =
      let same : eq_ℤ (pos port) (pos port) ≡ true = (eq_ℤ_iff (pos port) (pos port)).1 refl in
      rw (shares_any d, same) refl

  module _ (memory : Action) (port : ℕ) (accessors : ℤ) (rest : ActionQueue) where
    -- The table with the rule on line 0, before and during the call.
    abbrev table : ℤ → ActionQueue
    table n = some (control_rule memory port n) ∷ rest

    get_match-control :
        (si : SocketInfo) (d : SocketInfoDirection) (w : W)
        → get_match os (table accessors) (on_port si port) d false (pos 0) true w
          ≡ done (some 0, table (increment_ℤ accessors), w)
    unfolding get_match first_match
    get_match-control si d w =
        let all : length (table accessors) - 0 ≡ suc (length rest) = omega arith in
        rw (all, first_match, match_action-control memory port accessors si d w) refl

module _ {W : Type 0} (os : Os W) (callback : Syscall W) (memory : Action) (port : ℕ)
    (accessors : ℤ) (rest : ActionQueue) where
  abbrev held : ActionQueue
  held = some (control_rule memory port (increment_ℤ accessors)) ∷ rest

  abbrev free : ActionQueue
  free = some (control_rule memory port accessors) ∷ rest

  -- A socket that is not delayed.
  abbrev calm : ActionSocketData → ActionSocketData
  calm s = record s { hanging = false }

  -- The state after the only round.
  abbrev ran : Machine W → ActionSocketData → Machine W
  ran m s = record m {
    queue = free;
    socket_data = some (record (calm s) { called_lines = mark os callback s.called_lines (pos 0) });
    call = record m.call { called_lines = mark os callback m.call.called_lines (pos 0) };
  }

  round-control :
      (m : Machine W) (s : ActionSocketData)
      → round os callback 0 (record m { queue = held; socket_data = some (calm s) })
        ≡ done (none, ran m s)
  unfolding round is_spent_as action_process perform perform_type after_task next_action
      unlock_action
  round-control m s =
      let awake : (is_reading m.call.direction && false) ≡ false = ground arith in
      rw (awake, decrement-increment accessors) refl

  -- `bytes` are those of the user, and the whole call is one system call.
  finish-control :
      (r : Request) (si : SocketInfo) (s : ActionSocketData) (w : W)
      → finish os callback (ran (initial os callback r si held (calm s) w) s)
        ≡ direct os callback r si free
            (some (record (calm s) { called_lines = mark os callback s.called_lines (pos 0) }))
            w
  unfolding finish perform_syscall
  finish-control r si s w = elim (Bool-cases (is_writing r.direction)) [
    | inl y ↦ rw y refl
    | inr other ↦ rw other refl
  ]

  and_false : (b : Bool) → (b && false) ≡ false
  and_false b = ground arith

  marked_calm :
      (s : ActionSocketData)
      → s ≡ calm s
      → record s { called_lines = mark os callback s.called_lines (pos 0) }
        ≡ record (calm s) { called_lines = mark os callback s.called_lines (pos 0) }
  marked_calm s e =
      ap
        (λ (x : ActionSocketData). record x {
          called_lines = mark os callback x.called_lines (pos 0);
        })
        e

  run_from-control :
      (fuel : ℕ) (r : Request) (si : SocketInfo) (s : ActionSocketData) (w : W)
      → run_from os callback (suc fuel) r si held (calm s) w 0
        ≡ done (
            direct os callback r si free
              (some (record (calm s) { called_lines = mark os callback s.called_lines (pos 0) }))
              w)
  unfolding rounds
  run_from-control fuel r si s w =
      ap (λ o. (o >>= λ x. rounds os callback fuel x.0 x.1) >>= λ m. done (finish os callback m))
        (round-control (initial os callback r si held (calm s) w) s)
      ∙ ended fuel
      ∙ ap done (finish-control r si s w)
    where
      ended :
          (fuel : ℕ)
          → (rounds os callback fuel none (ran (initial os callback r si held (calm s) w) s)
              >>= λ m. done (finish os callback m))
            ≡ done (finish os callback (ran (initial os callback r si held (calm s) w) s))
      ended zero = refl
      ended (suc n) = refl

  -- The data of a socket after the rule of the control connection has run on it.
  abbrev pub passed : Option ActionSocketData → ActionSocketData
  passed p =
      let s = got_socket_data held p in
      record s { called_lines = mark os callback s.called_lines (pos 0) }

  -- Where line 0 holds the rule that keeps a port of this host free, whatever the other lines hold: a
  -- call on a tcp socket of this host at that port, which no earlier rule has delayed, is the system
  -- call itself. Its result, `errno`, bytes and world are those of the callback, and the table is left
  -- alone; of the socket's data only the mark of line 0 is new.
  pub process-control :
      (fuel : ℕ) (si : SocketInfo) (p : Option ActionSocketData) (r : Request) (w : W)
      → (got_socket_data held p).hanging ≡ false
      → process os callback (suc fuel) free (on_port si port) p r w
        ≡ done (direct os callback r (on_port si port) free (some (passed p)) w)
  unfolding process
  process-control fuel si p r w awake =
      let s = got_socket_data held p in
      let w' = (os.now w).1 in
      let delayed : Outcome (Processed W) =
        if ltb (os.now w).0 s.msec
        then done (postponed os callback r held s w')
        else resume os callback (suc fuel) r (on_port si port) held s w' in
      let at_rest : s ≡ calm s = ap (λ b. record s { hanging = b }) awake in
      let idle : (is_reading r.direction && s.hanging) ≡ false =
        ap (λ b. is_reading r.direction && b) awake ∙ and_false (is_reading r.direction) in
      ap (λ o. o >>= matched_first os callback (suc fuel) r (on_port si port) p)
        (get_match-control os memory port accessors rest si r.direction w)
      ∙ ap
          (λ b.
            if b then delayed else run_from os callback (suc fuel) r (on_port si port) held s w 0)
          idle
      ∙ ap (λ s. run_from os callback (suc fuel) r (on_port si port) held s w 0) at_rest
      ∙ run_from-control fuel r (on_port si port) s w
      ∙ ap (λ x. done (direct os callback r (on_port si port) free (some x) w))
          (sym (marked_calm s at_rest))
