-- ===== src/Queue/Locks.antt =====
-- The accessor counts of src/actions.c.
use libinject.Base.{
  ℕ, ◌<◌, true, false, Option, none, some, ◌≡◌, inl, inr, arith, ◌==◌, if◌then◌else◌, ltb, length,
  set, set-set, get_or-set, pos, ltb_ℤ, increment_ℤ, decrement-increment, Option-cases, subst,
  set-get_or,
}
use libinject.Outcome.{done, fault, null_pointer, deadlock, ◌>>=◌}
use libinject.Queue.{ActionQueue, line_at, remove, get, unlock_action, lock_action}
use libinject.Rule.{Action}

-- Someone uses the rule of a line.
abbrev pub InUse : Option Action → Type 0
InUse none = ⊥
InUse (some a) = ltb_ℤ (pos 0) a.accessors ≡ true

-- A locking removal of a line inside the table that is in use waits for ever if it is this thread that uses it.
pub remove-InUse :
    (q : ActionQueue) (i : ℕ)
    → i < length q
    → InUse (line_at q i)
    → remove q (pos i) true ≡ fault deadlock
unfolding remove
remove-InUse q i h u = elim (Option-cases (line_at q i)) [
  | inl e ↦ absurd (rw e at u)
  | inr (a, e) ↦
      let v : InUse (some a) = rw e at u in
      let inside : ltb i (length q) ≡ true = ground arith in rw (inside, e, v)
]

-- A locking removal of an empty line goes through a null pointer.
pub remove_empty :
    (q : ActionQueue) (i : ℕ)
    → i < length q
    → line_at q i ≡ none
    → remove q (pos i) true ≡ fault null_pointer
unfolding remove
remove_empty q i h e = ground arith

-- Without locks a removal inside the table empties the line and changes no other.
pub remove_quiet :
    (q : ActionQueue) (i j : ℕ)
    → i < length q
    → (q' : ActionQueue) × (remove q (pos i) false ≡ done q')
      × (line_at q' j ≡ (if i == j then none else line_at q j))
unfolding remove
remove_quiet q i j h = (set q i none, ground arith, get_or-set q i j none none h)

abbrev held : Action → Action
held a = record a { accessors = increment_ℤ a.accessors }

-- `ActionQueue_get` of a line whose rule nobody empties counts one accessor more.
pub get-held :
    (q : ActionQueue) (i : ℕ) (a : Action)
    → i < length q
    → line_at q i ≡ some a
    → a.emptying ≡ false
    → get q (pos i) true ≡ done (some i, set q i (some (held a)))
unfolding get
get-held q i a h e n =
    let inside : ltb i (length q) ≡ true = ground arith in
    let free : lock_action true a ≡ some (held a) = rw n in rw (inside, e, free)

unlock_action-held :
    (q : ActionQueue) (i : ℕ) (a : Action)
    → i < length q
    → line_at q i ≡ some a
    → unlock_action (set q i (some (held a))) i ≡ done q
unfolding unlock_action
unlock_action-held q i a h e =
    let locked : line_at (set q i (some (held a))) i ≡ some (held a) =
      ground (arith, get_or-set q i i (some (held a)) none) in
    let back : set q i (some a) ≡ q = subst (λ v. set q i v ≡ q) e (set-get_or q i none) in
    rw (locked, set-set, decrement-increment, back)

-- `ActionQueue_get` of a line that holds a rule which nobody empties, and then `UNLOCK_ACTION` of
-- that line, leave the table as it was.
pub unlock_action-get :
    (q : ActionQueue) (i : ℕ) (a : Action)
    → i < length q
    → line_at q i ≡ some a
    → a.emptying ≡ false
    → (get q (pos i) true >>= λ r. unlock_action r.1 i) ≡ done q
unlock_action-get q i a h e n = rw (get-held q i a h e n, unlock_action-held q i a h e)
