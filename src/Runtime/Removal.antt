-- ===== src/Runtime/Removal.antt =====
-- The command `remove` of `Runtime_thread` of src/runtime.c.
use libinject.Base.{
  ℕ, ◌<◌, ◌≤◌, true, false, none, some, ◌≡◌, ◌⊎◌, inl, inr, refl, arith, length, ltb, set, Text, ℤ,
  pos, negsuc, ltb_ℤ, ℤ-cases, Bool-cases, Option-cases,
}
use libinject.Outcome.{Outcome, done, fault, null_pointer, out_of_bounds, deadlock, ◌>>=◌}
use libinject.Parser.Numbers.{parse_int}
use libinject.Parser.{Parsed}
use libinject.Queue.{ActionQueue, line_at, remove}
use libinject.Read.Arguments.{Beyond}
use libinject.Read.Hosts.{Resolver}
use libinject.Rule.{Action}
use libinject.Runtime.{Session, Reply, reply, finished, line_required, run_remove}

-- The number that the text starts with.
abbrev pub number_of : Text → Session → Parsed ℤ
number_of line s = parse_int (λ n _. n) line (pos 0) s.status

abbrev pub told : Text → Session → ActionQueue → Reply → Session
told line s q r = reply (record s { queue = q; status = (number_of line s).status }) r

-- The ends of `remove`.
pub data RemoveEnd (line : Text) (s : Session) (m : Outcome Session) : Type 0 where
  no_number :
      (number_of line s).ok ≡ false
      → m ≡ done (told line s s.queue line_required)
      → RemoveEnd line s m
  removed :
      (i : ℕ) (old : Action)
      → (number_of line s).ok ≡ true
      → (number_of line s).dest ≡ pos i
      → i < length s.queue
      → line_at s.queue i ≡ some old
      → ltb_ℤ (pos 0) old.accessors ≡ false
      → m ≡ done (told line s (set s.queue i none) finished)
      → RemoveEnd line s m
  in_use :
      (i : ℕ) (old : Action)
      → (number_of line s).dest ≡ pos i
      → line_at s.queue i ≡ some old
      → ltb_ℤ (pos 0) old.accessors ≡ true
      → m ≡ fault deadlock
      → RemoveEnd line s m
  empty :
      (i : ℕ)
      → (number_of line s).dest ≡ pos i
      → line_at s.queue i ≡ none
      → m ≡ fault null_pointer
      → RemoveEnd line s m
  outside :
      (n : ℕ)
      → ((number_of line s).dest ≡ negsuc n)
        ⊎ (((number_of line s).dest ≡ pos n) × (length s.queue ≤ n))
      → m ≡ fault out_of_bounds
      → RemoveEnd line s m

remove_outside :
    (q : ActionQueue) (line : ℤ) (n : ℕ)
    → (line ≡ negsuc n) ⊎ ((line ≡ pos n) × (length q ≤ n))
    → remove q line true ≡ fault out_of_bounds
unfolding remove
remove_outside q line n (inl e) = rw e refl
remove_outside q line n (inr (e, le)) = ground arith

remove_empty :
    (q : ActionQueue) (line : ℤ) (i : ℕ)
    → line ≡ pos i
    → i < length q
    → line_at q i ≡ none
    → remove q line true ≡ fault null_pointer
unfolding remove
remove_empty q line i e lt free = ground arith

remove_used :
    (q : ActionQueue) (line : ℤ) (i : ℕ) (old : Action)
    → line ≡ pos i
    → i < length q
    → line_at q i ≡ some old
    → ltb_ℤ (pos 0) old.accessors ≡ true
    → remove q line true ≡ fault deadlock
unfolding remove
remove_used q line i old e lt taken used = ground arith

remove_idle :
    (q : ActionQueue) (line : ℤ) (i : ℕ) (old : Action)
    → line ≡ pos i
    → i < length q
    → line_at q i ≡ some old
    → ltb_ℤ (pos 0) old.accessors ≡ false
    → remove q line true ≡ done (set q i none)
unfolding remove
remove_idle q line i old e lt taken idle = ground arith

module _ (resolver : Resolver) (beyond : Beyond) (time : ℕ) (memory : Action) (line : Text)
    (s : Session) where
  abbrev ended : Outcome Session
  ended = run_remove resolver beyond time memory line s

  run_remove-number :
      (o : Outcome ActionQueue)
      → (number_of line s).ok ≡ true
      → remove s.queue (number_of line s).dest true ≡ o
      → ended ≡ (o >>= λ q. done (told line s q finished))
  unfolding run_remove
  run_remove-number o ok e = rw (ok, e) refl

  run_remove-no_number :
      (number_of line s).ok ≡ false → ended ≡ done (told line s s.queue line_required)
  unfolding run_remove
  run_remove-no_number bad = rw bad refl

  inside-RemoveEnd :
      (i : ℕ)
      → (number_of line s).ok ≡ true
      → (number_of line s).dest ≡ pos i
      → i < length s.queue
      → RemoveEnd line s ended
  inside-RemoveEnd i ok at lt =
      let n = (number_of line s).dest in
      elim (Option-cases (line_at s.queue i)) [
        | inl free ↦
            empty i at free
              (run_remove-number (fault null_pointer) ok (remove_empty s.queue n i at lt free))
        | inr (old, o) ↦ elim (Bool-cases (ltb_ℤ (pos 0) old.accessors)) [
          | inl used ↦
              in_use i old at o used
                (run_remove-number (fault deadlock) ok (remove_used s.queue n i old at lt o used))
          | inr idle ↦ removed i old ok at lt o idle (
              run_remove-number (done (set s.queue i none)) ok
                (remove_idle s.queue n i old at lt o idle))
        ]
      ]

  -- The command `remove`: a text that starts with no number leaves the table as it is and is answered
  -- with an error; the line of a rule that nothing uses becomes empty, and no other line changes; a
  -- rule in use is waited for, which alone would never end; an empty line is gone through as a null
  -- pointer; and a line outside the table is read outside it.
  pub run_remove-RemoveEnd : RemoveEnd line s (run_remove resolver beyond time memory line s)
  run_remove-RemoveEnd = elim (Bool-cases (number_of line s).ok) [
    | inr bad ↦ no_number bad (run_remove-no_number bad)
    | inl ok ↦ elim (ℤ-cases (number_of line s).dest) [
      | inr (n, neg) ↦ outside n (inl neg) (
          run_remove-number (fault out_of_bounds) ok
            (remove_outside s.queue (number_of line s).dest n (inl neg)))
      | inl (i, at) ↦ elim (Bool-cases (ltb i (length s.queue))) [
        | inl in_table ↦ inside-RemoveEnd i ok at (ground arith)
        | inr out ↦
            let far : ((number_of line s).dest ≡ pos i) × (length s.queue ≤ i) =
              (at, ground arith) in
            outside i (inr far) (
              run_remove-number (fault out_of_bounds) ok
                (remove_outside s.queue (number_of line s).dest i (inr far)))
      ]
    ]
  ]
