-- ===== src/Runtime/Start.antt =====
-- `Runtime_start` of src/runtime.c: the pipe or the socket of the commands. What the system does is a
-- parameter. The thread that is started is the one of Runtime. Guard proves.
use libinject.Base.{
  ℕ, zero, suc, Bool, true, false, not, ◌||◌, Option, none, some, ◌++◌, if◌then◌else◌, Text, codes,
  ℤ, pos, eq_ℤ, ltb_ℤ, minus_one, to_unsigned,
}
use libinject.Config.{
  Config, RuntimeType, tcp_source, pipe_source, no_source, udp_source, command_name,
}
use libinject.Format.{show_ℤ}
use libinject.Outcome.{Outcome, done, fault, out_of_fuel, ◌>>=◌}
use libinject.Queue
use libinject.Queue.{ActionQueue}
use libinject.Read.Arguments.{Beyond}
use libinject.Read.Hosts.{Resolver}
use libinject.Read.{action_init}
use libinject.Rule.{Action}

-- The calls of the system; a file name is `none` where it is NULL. `thread` is whether
-- `pthread_create` answers 0.
pub record Platform (W : Type 0) : Type 0 where
  pub stat : Option Text → W → ℤ
  pub is_fifo : Option Text → W → Bool
  pub mkfifo : Option Text → W → ℤ × W
  pub unlink : Option Text → W → W
  pub open_reading : Option Text → W → ℤ × W
  pub set_blocking : ℤ → W → W
  pub set_nonblocking : ℤ → W → W
  pub chmod : Option Text → W → W
  pub read : ℤ → W → ℤ × W
  pub close : ℤ → W → W
  pub socket : W → ℤ × W
  pub bind : ℤ → ℕ → W → ℤ × W
  pub listen : ℤ → W → ℤ × W
  pub accept : ℤ → W → ℤ × W
  pub thread : ℤ → W → Bool × W

abbrev pub failed : ℤ → Bool
failed r = eq_ℤ r minus_one

-- `RuntimeData`, but for the configuration and the thread. `is_pipe` chooses the callbacks.
pub record RuntimeData : Type 0 where
  pub fd : ℤ
  pub is_pipe : Bool

module _ {W : Type 0} (platform : Platform W) where
  -- `while (read(fd, buffer, 1024) > 0);`
  unfoldable pub drain : ℕ → ℤ → W → Outcome W
  drain zero fd w = fault out_of_fuel
  drain (suc fuel) fd w =
      let (r, w') = platform.read fd w in
      let rest = drain fuel fd w' in elim (ltb_ℤ (pos 0) r) [ true ↦ rest | false ↦ done w' ]

  -- `RuntimeAll_close`
  unfoldable pub close_all : ℕ → ℤ → W → Outcome W
  unfolding drain
  close_all fuel fd w =
      drain fuel fd (platform.set_nonblocking fd w) >>= λ w'. done (platform.close fd w')

  -- The end of `RuntimePipe_create`, on what `open` gave.
  abbrev opened_pipe : Option Text → ℤ × W → ℤ × W
  opened_pipe file (fd, w) =
      if failed fd then (fd, w) else (fd, platform.chmod file (platform.set_blocking fd w))

  -- Once there is a file, or one was made.
  abbrev checked_pipe : Option Text → W → ℤ × W
  checked_pipe file w =
      if failed (platform.stat file w) || not (platform.is_fifo file w)
      then (minus_one, platform.unlink file w)
      else opened_pipe file (platform.open_reading file w)

  abbrev made_pipe : Option Text → ℤ × W → ℤ × W
  made_pipe file (r, w) = if failed r then (minus_one, w) else checked_pipe file w

  -- `RuntimePipe_create`: the descriptor, or -1.
  unfoldable pub create_pipe : Option Text → W → ℤ × W
  create_pipe file w =
      if failed (platform.stat file w)
      then made_pipe file (platform.mkfifo file w)
      else checked_pipe file w

  abbrev listening : ℤ → ℤ × W → ℤ × W
  listening sock (r, w) = if failed r then (minus_one, platform.close sock w) else (sock, w)

  abbrev bound : ℤ → ℤ × W → ℤ × W
  bound sock (r, w) =
      if failed r
      then (minus_one, platform.close sock w)
      else listening sock (platform.listen sock w)

  abbrev with_socket : ℕ → ℤ × W → ℤ × W
  with_socket port (sock, w) =
      if not (ltb_ℤ (pos 0) sock) then (minus_one, w) else bound sock (platform.bind sock port w)

  -- `RuntimeTCP_create`; the port is a `uint16_t`.
  unfoldable pub create_tcp : ℤ → W → ℤ × W
  create_tcp port w = with_socket (to_unsigned 0x1_0000 port) (platform.socket w)

  -- The callback `accept`: `RuntimeTCP_accept`, or the descriptor itself.
  unfoldable pub accept_one : RuntimeData → W → ℤ × W
  accept_one d w = if d.is_pipe then (d.fd, w) else platform.accept d.fd w

  -- The callback `writer`, where `stderr` has descriptor 2.
  unfoldable pub writer_of : RuntimeData → ℤ → ℤ
  writer_of d fd = if d.is_pipe then pos 2 else fd

  -- The callback `localClose`; a pipe stays open.
  unfoldable pub local_close : ℕ → RuntimeData → ℤ → W → Outcome W
  unfolding close_all
  local_close fuel d fd w = elim d.is_pipe [ true ↦ done w | false ↦ close_all fuel fd w ]

-- The text of the rule that keeps the rules off the connection.
abbrev pub control_text : ℤ → Text
control_text port = codes "0 on tcp with me port " ++ show_ℤ port ++ codes " do nop stop"

-- What a start leaves: whether it started, and what it started with; the table; the world.
pub record Started (W : Type 0) : Type 0 where
  pub ok : Bool
  pub runtime : Option RuntimeData
  pub queue : ActionQueue
  pub world : W

module _ {W : Type 0} (platform : Platform W) (resolver : Resolver) (beyond : Beyond) (time : ℕ)
    (memory : Action) where
  -- The end of `Runtime_start`
  abbrev pub launched : Bool → ActionQueue → ℤ × W → Started W
  launched is_pipe q (fd, w) =
      if failed fd
      then record { ok = false; runtime = none; queue = q; world = w }
      else (let (ok, w') = platform.thread fd w in
          record {
            ok = ok;
            runtime = some (record { fd = fd; is_pipe = is_pipe });
            queue = q;
            world = w';
          })

  abbrev not_started : ActionQueue → W → Started W
  not_started q w = record { ok = false; runtime = none; queue = q; world = w }

  -- The rule is put on its line before the threads start, whether there is a socket or not.
  abbrev pub with_control : ActionQueue → ℤ → Outcome (Bool × ActionQueue)
  with_control q port =
      Queue.put q (action_init resolver beyond time memory (control_text port) none).0 true false

  unfoldable pub start_as : RuntimeType → Config → W → Outcome (Started W)
  start_as tcp_source c w =
      let s = create_tcp platform c.port w in
      with_control c.queue c.port >>= λ p. done (launched false p.1 s)
  start_as pipe_source c w = done (launched true c.queue (create_pipe platform c.file w))
  start_as no_source c w = done (not_started c.queue w)
  start_as udp_source c w = done (not_started c.queue w)
  start_as command_name c w = done (not_started c.queue w)

  -- `Runtime_start`
  unfoldable pub start : Config → W → Outcome (Started W)
  unfolding start_as create_tcp create_pipe
  start c w = start_as c.type c w
