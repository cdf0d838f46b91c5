-- ===== src/Threads/Alone.antt =====
-- A thread that changes the table while no other thread runs does what `remove` and `put` of Queue do
-- to the table that the shared memory stands for.
use libinject.Base.{
  ℕ, zero, suc, Bool, true, false, ◌||◌, Option, none, some, if◌then◌else◌, ◌≡◌, ◌≢◌, refl, sym,
  ◌∙◌, ap, arith, ℤ, pos, negsuc, ltb, ltb_ℤ, set, Option-cases, inl, inr,
}
use libinject.Outcome.{
  Outcome, done, fault, deadlock, out_of_bounds, out_of_fuel, null_pointer, ◌>>=◌,
}
use libinject.Queue
use libinject.Queue.{ActionQueue, line_at, place, empty_action}
use libinject.Rule.{Action}
use libinject.Threads.{
  Memory, line_of, write_rule, Edit, removal, storage, Editor, idle, ordered, inside, emptying,
  waiting, sleeping, put_to_sleep, emptied, changing, finishing, as_new, stored, destroyed, index,
  released, look, in_slot, wait_on, marked, edit, rule_in, view,
}
use libinject.Threads.Seeks.{load-live}
use libinject.Threads.Shape.{Shape, rules-written, rules-other, live-born}
use libinject.Threads.View.{length-view, line_at-view, line_at-view-none, view-set}

-- An editor until it is idle. Where it waits nobody comes to wake it.
unfoldable pub alone : ℕ → Memory → Editor → Outcome Memory
unfolding edit
alone fuel m idle = done m
alone zero m e = fault out_of_fuel
alone (suc fuel) m e = elim (edit m e) [
  | none ↦ fault deadlock
  | some r ↦ r >>= λ x. alone fuel x.0 x.1
]

abbrev continued : ℕ → Option (Outcome (Memory × Editor)) → Outcome Memory
continued fuel none = fault deadlock
continued fuel (some r) = r >>= λ x. alone fuel x.0 x.1

abbrev is_idle : Editor → Bool
is_idle idle = true
is_idle _ = false

alone-continued :
    (fuel : ℕ) (m : Memory) (e : Editor) (o : Option (Outcome (Memory × Editor)))
    → is_idle e ≡ false
    → edit m e ≡ o
    → alone (suc fuel) m e ≡ continued fuel o
unfolding alone
alone-continued fuel m idle o h k = cc
alone-continued fuel m (ordered e) o h k = ap (continued fuel) k
alone-continued fuel m (inside e) o h k = ap (continued fuel) k
alone-continued fuel m (emptying i v) o h k = ap (continued fuel) k
alone-continued fuel m (waiting i v) o h k = ap (continued fuel) k
alone-continued fuel m (sleeping i a v) o h k = ap (continued fuel) k
alone-continued fuel m (emptied i v) o h k = ap (continued fuel) k
alone-continued fuel m (changing i v) o h k = ap (continued fuel) k
alone-continued fuel m finishing o h k = ap (continued fuel) k

-- The rule at an address is freed, and the line that held it written again.
abbrev rewritten : Memory → ℕ → ℕ → Action → Option Action → Memory
rewritten m i a r v =
    stored (record (write_rule (write_rule m a (some (marked r))) a none) { has_writer = true }) i v

abbrev as_stored : Option Action → Option Action
as_stored none = none
as_stored (some r) = some (as_new r)

module _ (m : Memory) (u : ℕ → ℕ) (n : ℕ) (w : Bool) (s : Shape m w u n) where
  -- A rule that no other line holds is rewritten.
  other-lines :
      (i a : ℕ) (m' : Memory)
      → line_of m i ≡ some a
      → ((b : ℕ) → a ≢ b → m.fresh ≢ b → m'.rules b ≡ m.rules b)
      → (j : ℕ) → i ≢ j
      → rule_in m' (line_of m j) ≡ rule_in m (line_of m j)
  other-lines i a m' e h j apart = elim (Option-cases (line_of m j)) [
    | inl f ↦ rw f refl
    | inr (b, f) ↦
        let elsewhere : a ≢ b = λ same. apart (s.apart i j a e (f ∙ ap some (sym same))) in
        let born = live-born m b s.unborn (s.listed j b f) in rw f (h b elsewhere (omega arith))
  ]

  rewritten-rules :
      (i a : ℕ) (r : Action) (v : Option Action) (b : ℕ)
      → a ≢ b
      → m.fresh ≢ b
      → (rewritten m i a r v).rules b ≡ m.rules b
  rewritten-rules i a r none b h k = ground arith
  rewritten-rules i a r (some x) b h k = ground arith

  view-rewritten :
      (i a : ℕ) (r : Action) (v : Option Action)
      → line_of m i ≡ some a
      → view (rewritten m i a r v) ≡ set (view m) i (as_stored v)
  view-rewritten i a r none e =
      view-set m (rewritten m i a r none) m.table i none none refl
        (other-lines i a (rewritten m i a r none) e (rewritten-rules i a r none))
  view-rewritten i a r (some x) e =
      view-set m (rewritten m i a r (some x)) m.table i (some m.fresh) (some (as_new x))
        (ground arith)
        (other-lines i a (rewritten m i a r (some x)) e (rewritten-rules i a r (some x)))

abbrev pub table_of : Outcome (Bool × ActionQueue) → Outcome ActionQueue
table_of r = r >>= λ x. done x.1

abbrev pub viewed : Outcome Memory → Outcome ActionQueue
viewed r = r >>= λ m. done (view m)

-- A line that holds a rule is emptied and written, or the wait for its users has no end.
module _ (m : Memory) (u : ℕ → ℕ) (n : ℕ) (w : Bool) (s : Shape m w u n) where
  abbrev marked_at : ℕ → Action → Memory
  marked_at a r = write_rule (released m) a (some (marked r))

  -- From the end of the wait on.
  emptied-alone :
      (i a : ℕ) (r : Action) (v : Option Action)
      → line_of m i ≡ some a
      → m.readers ≡ 0
      → viewed (alone 3 (marked_at a r) (emptied i v)) ≡ done (set (view m) i (as_stored v))
  unfolding edit alone
  emptied-alone i a r v e quiet =
      let m₁ = marked_at a r in
      let m₂ = record m₁ { has_writer = true } in
      let free : ltb 0 m.readers ≡ false = ground (arith, quiet) in
      let freed : Memory = write_rule m₂ a none in
      let third : edit m₁ (emptied i v) ≡ some (done (m₂, changing i v)) =
        ap (λ b. if b then none else some (done (m₂, changing i v))) free in
      let fourth : edit m₂ (changing i v) ≡ some (done (stored freed i v, finishing)) =
        rw
          (e, destroyed, load-live m₂ a (marked r) (rules-written (released m) a (some (marked r))))
          refl in
      ap viewed (alone-continued 2 m₁ (emptied i v) _ refl third)
      ∙ ap viewed (alone-continued 1 m₂ (changing i v) _ refl fourth)
      ∙ ap viewed (alone-continued 0 (stored freed i v) finishing _ refl refl)
      ∙ ap done (view-rewritten m u n w s i a r v e)

  by_users :
      (i a : ℕ) (r : Action) (v : Option Action)
      → line_of m i ≡ some a
      → m.readers ≡ 0
      → (b : Bool)
      → viewed (
          continued 3 (
            some (
              done (
                if b
                then (put_to_sleep (marked_at a r) a, sleeping i a v)
                else (marked_at a r, emptied i v)))))
        ≡ ((if b then fault deadlock else done (tt {0})) >>= λ _.
            done (set (view m) i (as_stored v)))
  unfolding edit
  by_users i a r v e quiet true =
      let m₁ = put_to_sleep (marked_at a r) a in
      let asleep : m₁.asleep a ≡ true = ground arith in
      let stuck : edit m₁ (sleeping i a v) ≡ none =
        ap (λ b. if b then none else some (done (m₁, waiting i v))) asleep in
      ap viewed (alone-continued 2 m₁ (sleeping i a v) none refl stuck)
  by_users i a r v e quiet false = emptied-alone i a r v e quiet

  emptying-alone :
      (i a : ℕ) (r : Action) (v : Option Action)
      → line_of m i ≡ some a
      → m.rules a ≡ some r
      → m.readers ≡ 0
      → viewed (alone 5 (released m) (emptying i v))
        ≡ (empty_action true (some r) >>= λ _. done (set (view m) i (as_stored v)))
  unfolding edit
  emptying-alone i a r v e live quiet =
      let m₁ = write_rule (released m) a (some (marked r)) in
      let live₁ : m₁.rules a ≡ some (marked r) = rules-written (released m) a (some (marked r)) in
      let slot₁ : in_slot m₁ i ≡ done (a, marked r) =
        rw (in_slot, e, load-live m₁ a (marked r) live₁) refl in
      let first : edit (released m) (emptying i v) ≡ some (done (m₁, waiting i v)) =
        rw (in_slot, e, load-live (released m) a r live) refl in
      ap viewed (alone-continued 4 (released m) (emptying i v) _ refl first)
      ∙ ap viewed (
          alone-continued 3 m₁ (waiting i v) (some (done (wait_on m₁ i v (a, marked r)))) refl
            (ap (λ o. some (o >>= λ x. done (wait_on m₁ i v x))) slot₁))
      ∙ by_users i a r v e quiet (ltb_ℤ (pos 0) r.accessors)

-- Nobody holds the lock of the table.
module _ (m : Memory) (u : ℕ → ℕ) (s : Shape m false u 0) where
  abbrev taken : Memory
  taken = record m { has_writer = true }

  ordered-alone :
      (fuel : ℕ) (e : Edit) → alone (suc fuel) m (ordered e) ≡ alone fuel taken (inside e)
  unfolding edit
  ordered-alone fuel e =
      let free : (m.has_writer || ltb 0 m.readers) ≡ false =
        ground (arith, s.writer, s.readers_counted) in
      alone-continued fuel m (ordered e) _ refl
        (ap (λ b. if b then none else some (done (taken, inside e))) free)

  place-index : (line : ℤ) → place (view m) line ≡ index m line
  place-index (pos i) =
      ap (λ k. if ltb i k then done i else fault out_of_bounds) (length-view m m.table)
  place-index (negsuc i) = refl

  -- From the first look on, at a line that is in the table.
  removal-line :
      (i : ℕ)
      → viewed (alone 5 (released taken) (emptying i none))
        ≡ (empty_action true (line_at (view m) i) >>= λ _. done (set (view m) i none))
  unfolding edit
  removal-line i = elim (Option-cases (line_of m i)) [
    | inl e ↦
        ap viewed (
          alone-continued 4 (released taken) (emptying i none) (some (fault null_pointer)) refl
            (rw (in_slot, e) refl))
        ∙ ap (λ o. empty_action true o >>= λ _. done (set (view m) i none))
            (sym (line_at-view-none m i e))
    | inr (a, e) ↦
        let (r, live) = s.listed i a e in
        emptying-alone m u 0 false s i a r none e live s.readers_counted
        ∙ ap (λ o. empty_action true o >>= λ _. done (set (view m) i none))
            (sym (line_at-view m i a r e live))
  ]

  inside_removal :
      (line : ℤ) (o : Outcome ℕ)
      → index m line ≡ o
      → viewed (alone 6 taken (inside (removal line)))
        ≡ (o >>= λ i. empty_action true (line_at (view m) i) >>= λ _. done (set (view m) i none))
  unfolding edit
  inside_removal line (fault f) h = ap viewed (
      alone-continued 5 taken (inside (removal line)) (some (fault f)) refl
        (ap (λ o. some (o >>= λ i. done (released taken, emptying i none))) h))
  inside_removal line (done i) h =
      ap viewed (
        alone-continued 5 taken (inside (removal line))
          (some (done (released taken, emptying i none))) refl
          (ap (λ o. some (o >>= λ i. done (released taken, emptying i none))) h))
      ∙ removal-line i

  -- Where nobody holds the lock, the accessors of each rule are counted, and no rule of the table is
  -- freed or stands on two lines, the steps of `ActionQueue_remove` with no other thread in between
  -- are `remove` on the table that the memory stands for: with the same new table, the same fault, and
  -- an endless wait where the rule is in use.
  pub removal-remove :
      (line : ℤ) → viewed (alone 7 m (ordered (removal line))) ≡ Queue.remove (view m) line true
  unfolding Queue.remove
  removal-remove line =
      ap viewed (ordered-alone 6 (removal line))
      ∙ inside_removal line (index m line) refl
      ∙ ap
          (λ o.
            o >>= λ i. empty_action true (line_at (view m) i) >>= λ _. done (set (view m) i none))
          (sym (place-index line))

  view-stored :
      (i : ℕ) (r : Action) → view (stored taken i (some r)) ≡ set (view m) i (some (as_new r))
  view-stored i r =
      view-set m (stored taken i (some r)) m.table i (some m.fresh) (some (as_new r)) (ground arith)
        (λ j apart. elim (Option-cases (line_of m j)) [
          | inl f ↦ rw f refl
          | inr (b, f) ↦
              let born = live-born m b s.unborn (s.listed j b f) in
              rw f (rules-other m m.fresh b (some (as_new r)) (omega arith))
        ])

  table_of-wait :
      (i : ℕ) (r : Action) (o : Outcome (Unit {0}))
      → (o >>= λ _. done (set (view m) i (some (as_new r))))
        ≡ table_of (o >>= λ _. done (true, set (view m) i (some (as_new r))))
  table_of-wait i r (done x) = refl
  table_of-wait i r (fault f) = refl

  storage-line :
      (i : ℕ) (r : Action) (replace : Bool) (o : Option ℕ)
      → line_of m i ≡ o
      → viewed (alone 5 (look taken i r replace o).0 (look taken i r replace o).1)
        ≡ table_of (Queue.put_on (view m) i (as_new r) replace true (line_at (view m) i))
  unfolding edit alone
  storage-line i r replace none e =
      ap viewed (alone-continued 4 (stored taken i (some r)) finishing _ refl refl)
      ∙ ap done (view-stored i r)
      ∙ ap (λ o. table_of (Queue.put_on (view m) i (as_new r) replace true o))
          (sym (line_at-view-none m i e))
  storage-line i r true (some a) e =
      let (old, live) = s.listed i a e in
      emptying-alone m u 0 false s i a old (some r) e live s.readers_counted
      ∙ table_of-wait i r (empty_action true (some old))
      ∙ ap (λ o. table_of (Queue.put_on (view m) i (as_new r) true true o))
          (sym (line_at-view m i a old e live))
  storage-line i r false (some a) e =
      let (old, live) = s.listed i a e in
      ap viewed (alone-continued 4 taken finishing _ refl refl)
      ∙ ap (λ o. table_of (Queue.put_on (view m) i (as_new r) false true o))
          (sym (line_at-view m i a old e live))

  inside_storage :
      (r : Action) (replace : Bool) (o : Outcome ℕ)
      → index m r.pos ≡ o
      → viewed (alone 6 taken (inside (storage r replace)))
        ≡ table_of (o >>= λ i. Queue.put_on (view m) i (as_new r) replace true (line_at (view m) i))
  unfolding edit
  inside_storage r replace (fault f) h = ap viewed (
      alone-continued 5 taken (inside (storage r replace)) (some (fault f)) refl
        (ap (λ o. some (o >>= λ i. done (look taken i r replace (line_of m i)))) h))
  inside_storage r replace (done i) h =
      ap viewed (
        alone-continued 5 taken (inside (storage r replace))
          (some (done (look taken i r replace (line_of m i)))) refl
          (ap (λ o. some (o >>= λ i. done (look taken i r replace (line_of m i)))) h))
      ∙ storage-line i r replace (line_of m i) refl

  -- Where nobody holds the lock, the accessors of each rule are counted, and no rule of the table is
  -- freed or stands on two lines, the steps of `ActionQueue_put` after `Action_init` with no other
  -- thread in between leave the table that `put` leaves of the table that the memory stands for, with
  -- or without `replace`: changed or not, with the same fault, or with an endless wait where the old
  -- rule is in use.
  pub storage-put :
      (r : Action) (replace : Bool)
      → viewed (alone 7 m (ordered (storage r replace)))
        ≡ table_of (Queue.put (view m) (some (as_new r)) replace true)
  unfolding Queue.put
  storage-put r replace =
      ap viewed (ordered-alone 6 (storage r replace))
      ∙ inside_storage r replace (index m r.pos) refl
      ∙ ap
          (λ o.
            table_of
              (o >>= λ i. Queue.put_on (view m) i (as_new r) replace true (line_at (view m) i)))
          (sym (place-index r.pos))
