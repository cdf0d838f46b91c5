-- ===== src/Threads/Lookup.antt =====
-- The step in which a thread searches the shared memory and locks what it found is
-- `ActionQueue_getFrom` of src/actions.c, as Queue has it, on the table that the memory stands for.
use libinject.Base.{
  ℕ, zero, suc, ◌+◌, ◌-◌, Bool, true, Option, none, some, ◌≡◌, refl, sym, ◌∙◌, ap, ℤ, pos, negsuc,
  set, set-get_or, length, Option-cases, inl, inr,
}
use libinject.Outcome.{Outcome, done, ◌>>=◌}
use libinject.Queue.{ActionQueue, first_line, get_from, lock_action, lock_line, locked_at}
use libinject.Rule.{Action}
use libinject.Threads.{
  Memory, line_of, write_rule, scan, locked, kept_if, found, view, view_lines, System, Steps,
  system_of,
}
use libinject.Threads.Counts.{total, uses, reads}
use libinject.Threads.Reach.{AreUnused, Steps-Inv, system_of-Inv}
use libinject.Threads.Seeks.{load-live}
use libinject.Threads.Shape.{Shape, rules-written, rules-other, holds_lock}
use libinject.Threads.View.{length-view, line_at-view, line_at-view-none, view-set}

-- The rule of a line, by its address.
abbrev pub address_at : Memory → Option ℕ → Option ℕ
address_at m none = none
address_at m (some j) = line_of m j

abbrev pub any_rule : ℕ → Action → Outcome Bool
any_rule i r = done true

-- What a search gives, with the table that the memory stands for.
abbrev pub seen : Option ℕ × Memory → Option ℕ × ActionQueue
seen r = (r.0, view r.1)

-- What `get_from` gives, with the rule by its address.
abbrev pub by_address : Memory → Option ℕ × ActionQueue → Option ℕ × ActionQueue
by_address m r = (address_at m r.0, r.1)

module _ (m : Memory) (u : ℕ → ℕ) (n : ℕ) (w : Bool) (s : Shape m w u n) where
  abbrev first_from : ℕ → ℕ → Option Action → Option ℕ
  first_from k i none = first_line k (view m) (i + 1)
  first_from k i (some r) = some i

  abbrev line_locked : ℕ → Option Action → Option ℕ × ActionQueue
  line_locked i none = (none, view m)
  line_locked i (some r) = locked_at (view m) i (lock_action true r)

  scan-first_line : (k i : ℕ) → scan k any_rule m i ≡ done (address_at m (first_line k (view m) i))
  unfolding scan first_line
  scan-first_line zero i = refl
  scan-first_line (suc k) i = elim (Option-cases (line_of m i)) [
    | inl e ↦
        rw (scan, e) (scan-first_line k (i + 1))
        ∙ ap (λ o. done (address_at m (first_from k i o))) (sym (line_at-view-none m i e))
    | inr (a, e) ↦
        let (r, live) = s.listed i a e in
        rw (scan, e, load-live m a r live) refl
        ∙ ap done (sym e)
        ∙ ap (λ o. done (address_at m (first_from k i o))) (sym (line_at-view m i a r e live))
  ]

  -- The rule of a line is written again.
  view-written :
      (i a : ℕ) (r : Action)
      → line_of m i ≡ some a
      → view (write_rule m a (some r)) ≡ set (view m) i (some r)
  view-written i a r e =
      ap (view_lines (write_rule m a (some r)))
        (sym (ap (set m.table i) (sym e) ∙ set-get_or m.table i none))
      ∙ view-set m (write_rule m a (some r)) m.table i (some a) (some r)
          (rules-written m a (some r))
          (λ j apart. elim (Option-cases (line_of m j)) [
            | inl f ↦ rw f refl
            | inr (b, f) ↦ rw f (
                rules-other m a b (some r)
                  (λ same. apart (s.apart i j a e (f ∙ ap some (sym same)))))
          ])

  kept_if-locked_at :
      (i a : ℕ) (o : Option Action)
      → line_of m i ≡ some a
      → seen (kept_if m a o) ≡ by_address m (locked_at (view m) i o)
  kept_if-locked_at i a none e = refl
  kept_if-locked_at i a (some r) e =
      ap (λ q. (some a, q)) (view-written i a r e) ∙ ap (λ o. (o, set (view m) i (some r))) (sym e)

  locked-lock_line :
      (o : Option ℕ)
      → (locked m (address_at m o) >>= λ r. done (seen r))
        ≡ done (by_address m (lock_line true (view m) o))
  locked-lock_line none = refl
  locked-lock_line (some i) = elim (Option-cases (line_of m i)) [
    | inl e ↦
        ap (λ o. locked m o >>= λ r. done (seen r)) e
        ∙ ap (λ o. done (o, view m)) refl
        ∙ ap (λ o. done (by_address m (line_locked i o))) (sym (line_at-view-none m i e))
    | inr (a, e) ↦
        let (r, live) = s.listed i a e in
        ap (λ o. locked m o >>= λ r. done (seen r)) e
        ∙ ap (λ o. o >>= (λ r. done (kept_if m a (lock_action true r))) >>= λ r. done (seen r))
            (load-live m a r live)
        ∙ ap done (kept_if-locked_at i a (lock_action true r) e)
        ∙ ap (λ o. done (by_address m (line_locked i o))) (sym (line_at-view m i a r e live))
  ]

  found-Shape :
      (start : ℤ)
      → (found m (record { start = start; test = any_rule }) >>= λ r. done (seen r))
        ≡ (get_from (view m) start true >>= λ r. done (by_address m r))
  unfolding get_from
  found-Shape (negsuc i) = refl
  found-Shape (pos i) =
      let k = length m.table - i in
      ap (λ o. (o >>= locked m) >>= λ r. done (seen r)) (scan-first_line k i)
      ∙ locked-lock_line (first_line k (view m) i)
      ∙ ap (λ n. done (by_address m (lock_line true (view m) (first_line (n - i) (view m) i))))
          (sym (length-view m m.table))

-- The threads run on a table of rules that nobody used at the start, in any order and for any time,
-- beside one thread that changes the table. Then the step in which a thread searches for the first
-- rule from a line on and locks it gives the rule of the line that `get_from` gives, by its address,
-- or none as it does, and leaves the table that `get_from` leaves; before the first line both fault.
pub found-get_from :
    (q : ActionQueue) (n : ℕ) (s : System) (start : ℤ)
    → AreUnused q
    → Steps (system_of q n) s
    → (found s.memory (record { start = start; test = any_rule }) >>= λ r. done (seen r))
      ≡ (get_from (view s.memory) start true >>= λ r. done (by_address s.memory r))
found-get_from q n s start unused r =
    let si = Steps-Inv (system_of-Inv q n unused) r in
    found-Shape s.memory (λ a. total (uses a) s.seekers) (total reads s.seekers)
      (holds_lock si.editor) si.inv.shape start
