-- ===== src/Process/Termination.antt =====
-- The loop over the rules in `ActionQueue_process` of src/actions.c ends where rules only jump
-- forward.
use libinject.Base.{
  [], ◌∷◌, ltb, eq_ℤ, ℕ, zero, suc, ◌+◌, ◌<◌, ◌≤◌, true, false, not, ◌&&◌, Option, none, some, ◌≡◌,
  ◌≢◌, inl, inr, arith, length, pos, Option-cases, subst,
}
use libinject.Outcome.{done, fault, out_of_fuel}
use libinject.Process.Forward.{
  place-EndsWith, Anything, AreForward, EndsWith, EndsWith->>=, EndsWith-if,
}
use libinject.Process.{
  rounds, round, Request, run_from, initial, rehung, resume, matched_first, postponed, process,
}
use libinject.Queue.{ActionQueue, line_at, get_match, place}
use libinject.Rule.{Os, is_reading, Action}
use libinject.Socket.{SocketInfo}
use libinject.Task
use libinject.Task.{ActionSocketData, socket_data_of, Machine, Syscall}
use libinject.Process.Search.{IsFrom}
use libinject.Process.Onward.{get_match-Onward, Holds, Onward, round-Onward}

module _ {W : Type 0} (os : Os W) (callback : Syscall W) where
  -- From line `i` on, the loop over a table of `n` lines ends within `n - i` rounds.
  rounds-Holds :
      (fuel i n : ℕ) (line : Option ℕ) (m : Machine W)
      → IsFrom i n line
      → n ≤ i + fuel
      → Holds os callback n m
      → EndsWith (Holds os callback n) (rounds os callback fuel line m)
  unfolding rounds
  rounds-Holds zero i n none m b h s = s
  rounds-Holds (suc fuel) i n none m b h s = s
  rounds-Holds zero i n (some k) m (a, b) h s = ground arith
  rounds-Holds (suc fuel) i n (some k) m (a, b) h s =
      EndsWith->>= (Onward (k + 1) n) (Holds os callback n) (round os callback k m) _
        (round-Onward os callback k n m s)
        (λ r g. rounds-Holds fuel (k + 1) n r.0 r.1 g.0 (omega arith) g.1)

  -- The whole call.
  run_from-EndsWith :
      (r : Request) (si : SocketInfo) (q : ActionQueue) (d : ActionSocketData) (w : W) (i n : ℕ)
      → AreForward n q
      → i < n
      → EndsWith Anything (run_from os callback n r si q d w i)
  run_from-EndsWith r si q d w i n s h =
      EndsWith->>= (Holds os callback n) Anything
        (rounds os callback n (some i) (initial os callback r si q d w)) _
        (rounds-Holds n i n (some i) (initial os callback r si q d w) (omega arith, h) (omega arith)
          s)
        (λ _ _. tt)

  line_at-below : (q : ActionQueue) (i : ℕ) (a : Action) → line_at q i ≡ some a → i < length q
  line_at-below [] i a e = cc
  line_at-below (x ∷ q) zero a e = omega arith
  line_at-below (x ∷ q) (suc i) a e = let h = line_at-below q i a e in omega arith

  rehung-EndsWith :
      (r : Request) (si : SocketInfo) (d : ActionSocketData) (n : ℕ)
      (f : Option ℕ × ActionQueue × W)
      → IsFrom 1 n f.0 × AreForward n f.1
      → EndsWith Anything (rehung os callback n r si d f)
  rehung-EndsWith r si d n (none, q, w) h = tt
  rehung-EndsWith r si d n (some i, q, w) ((a, b), s) = run_from-EndsWith r si q d w i n s b

  resume-EndsWith :
      (n : ℕ) (r : Request) (si : SocketInfo) (q : ActionQueue) (d : ActionSocketData) (w : W)
      → AreForward n q
      → EndsWith Anything (resume os callback n r si q d w)
  resume-EndsWith n r si q d w s =
      EndsWith->>= Anything Anything (place q d.line) _ (place-EndsWith q d.line) (λ i _.
        elim (Option-cases (line_at q i)) [
          | inr (a, e) ↦ rw e (
              run_from-EndsWith r si q d w i n s
                (subst (λ k. i < k) s.size (line_at-below q i a e)))
          | inl e ↦
              let hung = not (eq_ℤ d.line (pos 0)) in
              rw e (
                EndsWith->>= (λ f. IsFrom 1 n f.0 × AreForward n f.1) Anything
                  (get_match os q si r.direction hung (pos 1) true w) _
                  (get_match-Onward os callback 1 n q si r.direction hung w s)
                  (λ f h. rehung-EndsWith r si d n f h))
        ])

  matched_first-EndsWith :
      (n : ℕ) (r : Request) (si : SocketInfo) (p : Option ActionSocketData)
      (f : Option ℕ × ActionQueue × W)
      → IsFrom 0 n f.0 × AreForward n f.1
      → EndsWith Anything (matched_first os callback n r si p f)
  matched_first-EndsWith n r si p (none, q, w) h = tt
  matched_first-EndsWith n r si p (some i, q, w) ((a, b), s) =
      let d = Task.got_socket_data q p in
      let (time, w') = os.now w in
      EndsWith-if Anything (is_reading r.direction && d.hanging) _ _
        (EndsWith-if Anything (ltb time d.msec) (done (postponed os callback r q d w')) _ tt
          (resume-EndsWith n r si q d w' s))
        (run_from-EndsWith r si q d w i n s b)

  process-EndsWith :
      (q : ActionQueue) (si : SocketInfo) (data_ptr : Option ActionSocketData) (r : Request) (w : W)
      → AreForward (length q) q
      → EndsWith Anything (process os callback (length q) q si data_ptr r w)
  unfolding process
  process-EndsWith q si data_ptr r w s =
      EndsWith->>= (λ f. IsFrom 0 (length q) f.0 × AreForward (length q) f.1) Anything
        (get_match os q si r.direction false (pos 0) true w) _
        (get_match-Onward os callback 0 (length q) q si r.direction false w s)
        (λ f h. matched_first-EndsWith (length q) r si data_ptr f h)

  -- Where every rule stands at its own line and its `goto` or `exec` names a later line, a call of
  -- `ActionQueue_process` with a fuel of as many rounds as the table has lines does not run out of
  -- it: the loop over the rules ends.
  pub process-ends :
      (q : ActionQueue) (si : SocketInfo) (data_ptr : Option ActionSocketData) (r : Request) (w : W)
      → AreForward (length q) q
      → process os callback (length q) q si data_ptr r w ≢ fault out_of_fuel
  process-ends q si data_ptr r w s e =
      let bad : false ≡ true = subst (EndsWith Anything) e (process-EndsWith q si data_ptr r w s) in
      cc
