-- ===== src/Runtime/Guard.antt =====
-- A table that `Runtime_start` of src/runtime.c has prepared for a socket keeps the rules off the
-- connections to it.
use libinject.Base.{
  ℕ, suc, Bool, true, false, Option, none, some, ◌∷◌, ◌≡◌, refl, sym, ◌∙◌, subst, ap, arith, ℤ, pos,
  increment_ℤ, Bool-cases, inl, inr, length, ltb,
}
use libinject.Config.{Config, tcp_source}
use libinject.Outcome.{done, ◌>>=◌}
use libinject.Process.Control.{control_rule, on_port, process-control, passed}
use libinject.Process.{Request, process, direct}
use libinject.Queue
use libinject.Queue.{ActionQueue}
use libinject.Read.Arguments.{Beyond}
use libinject.Read.Hosts.{Resolver}
use libinject.Read.{action_init}
use libinject.Rule.{Os, Action}
use libinject.Runtime.Start.{
  Platform, Started, start, start_as, with_control, control_text, create_tcp, launched, failed,
}
use libinject.Socket.{SocketInfo}
use libinject.Task.{ActionSocketData, Syscall, got_socket_data}

put-first :
    (memory : Action) (port : ℕ) (x : Option Action) (rest : ActionQueue)
    → Queue.put (x ∷ rest) (some (control_rule memory port (pos 0))) true false
      ≡ done (true, some (control_rule memory port (pos 0)) ∷ rest)
unfolding Queue.put
put-first memory port none rest =
    let inside : ltb 0 (suc (length rest)) ≡ true = ground arith in rw inside refl
put-first memory port (some old) rest =
    let inside : ltb 0 (suc (length rest)) ≡ true = ground arith in rw inside refl

module _ {W V : Type 0} (platform : Platform W) (resolver : Resolver) (beyond : Beyond) (time : ℕ)
    (memory : Action) (os : Os V) (callback : Syscall V) where
  launched-queue :
      (is_pipe : Bool) (q : ActionQueue) (r : ℤ × W)
      → (launched platform resolver beyond time memory is_pipe q r).queue ≡ q
  launched-queue is_pipe q (fd, w) = elim (Bool-cases (failed fd)) [
    | inl y ↦ rw (launched, y) refl
    | inr opened ↦ rw (launched, opened) refl
  ]

  start-queue :
      (c : Config) (port : ℕ) (x : Option Action) (rest : ActionQueue) (w : W)
      → c.type ≡ tcp_source
      → c.queue ≡ x ∷ rest
      → (action_init resolver beyond time memory (control_text c.port) none).0
        ≡ some (control_rule memory port (pos 0))
      → (s : Started W) × (start platform resolver beyond time memory c w ≡ done s)
        × (s.queue ≡ some (control_rule memory port (pos 0)) ∷ rest)
  unfolding start
  start-queue c port x rest w tcp queue reads =
      let free = some (control_rule memory port (pos 0)) ∷ rest in
      let s = create_tcp platform c.port w in
      let put : with_control platform resolver beyond time memory c.queue c.port
          ≡ done (true, free) =
        ap
          (λ q.
            Queue.put q (action_init resolver beyond time memory (control_text c.port) none).0 true
              false)
          queue
        ∙ ap (λ o. Queue.put (x ∷ rest) o true false) reads
        ∙ put-first memory port x rest in
      (
        launched platform resolver beyond time memory false free s,
        ap (λ t. start_as platform resolver beyond time memory t c w) tcp
            ∙ ap (λ o. o >>= λ p. done (launched platform resolver beyond time memory false p.1 s))
                put,
        launched-queue false free s,
      )

  still :
      (q q' : ActionQueue) (p : Option ActionSocketData)
      → (got_socket_data q p).hanging ≡ false
      → (got_socket_data q' p).hanging ≡ false
  still q q' none h = refl
  still q q' (some d) h = h

  -- `Runtime_start` with a tcp port, on a table with at least one line, where the text of its rule
  -- reads as a rule for that port: it ends, and afterwards a call on a tcp socket of this host at that
  -- port, which no rule has delayed before, is the system call itself, whatever the other rules are.
  pub start-control :
      (c : Config) (port : ℕ) (x : Option Action) (rest : ActionQueue) (w : W) (fuel : ℕ)
      (si : SocketInfo) (p : Option ActionSocketData) (r : Request) (v : V)
      → c.type ≡ tcp_source
      → c.queue ≡ x ∷ rest
      → (action_init resolver beyond time memory (control_text c.port) none).0
        ≡ some (control_rule memory port (pos 0))
      → (got_socket_data c.queue p).hanging ≡ false
      → (s : Started W) × (start platform resolver beyond time memory c w ≡ done s)
        × (process os callback (suc fuel) s.queue (on_port si port) p r v
            ≡ done (
                direct os callback r
                  (on_port si port)
                  s.queue
                  (some (passed os callback memory port (pos 0) rest p))
                  v))
  start-control c port x rest w fuel si p r v tcp queue reads awake =
      let (s, e, q) = start-queue c port x rest w tcp queue reads in
      let free = some (control_rule memory port (pos 0)) ∷ rest in
      let held = some (control_rule memory port (increment_ℤ (pos 0))) ∷ rest in
      (
        s,
        e,
        subst
            (λ (t : ActionQueue).
              process os callback (suc fuel) t (on_port si port) p r v
              ≡ done (
                  direct os callback r (on_port si port) t
                    (some (passed os callback memory port (pos 0) rest p)) v))
            (sym q)
            (process-control os callback memory port (pos 0) rest fuel si p r v
              (still c.queue held p awake)),
      )
