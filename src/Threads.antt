-- ===== src/Threads.antt =====
-- The threads that share a table of rules: the locks of `ActionQueue_getFrom`,
-- `ActionQueue_getMatch`, `ActionQueue_put` and `ActionQueue_remove` of src/actions.c, with `mt` set,
-- as steps between which any other thread can run. A seeker is a thread inside
-- `ActionQueue_process`, an editor one inside `ActionQueue_put` or `ActionQueue_remove`. Rules are a
-- heap here, since a rule that one thread frees can be in use by another. The condition variable of a
-- rule is modelled for one sleeping thread. Safety, Progress, Alone and Lookup prove, and the others
-- have the invariant.
pub mod Counts
pub mod Shape
pub mod Seeks
pub mod Edits
pub mod Reach
pub mod Safety
pub mod Progress
pub mod View
pub mod Alone
pub mod Lookup
use libinject.Base.{
  ◌≡◌, ℕ, zero, suc, ◌+◌, ◌-◌, Bool, true, false, ◌&&◌, ◌||◌, eq_ℤ, Option, none, some, List, [],
  ◌∷◌, ◌==◌, ltb, if◌then◌else◌, length, get_or, get_elem?, set, replicate, ℤ, pos, negsuc, ltb_ℤ,
  decrement_ℤ,
}
use libinject.Outcome.{Outcome, done, fault, null_pointer, out_of_bounds, use_after_free, ◌>>=◌}
use libinject.Queue.{ActionQueue, line_at, lock_action}
use libinject.Rule.{Action}

-- What the threads share. Where `rules` is `none` no rule stands, or one that was freed.
pub record Memory : Type 0 where
  pub rules : ℕ → Option Action
  pub fresh : ℕ  -- the address that `malloc` gives next
  pub table : List (Option ℕ)  -- `queue->queue`
  pub readers : ℕ  -- threads that hold `queue->lock` for reading
  pub has_writer : Bool
  pub asleep : ℕ → Bool  -- whether a thread sleeps on the `cond` of the rule at an address

-- `queue->queue[i]`, inside the table
abbrev pub line_of : Memory → ℕ → Option ℕ
line_of m i = get_or m.table i none

abbrev pub write_rule : Memory → ℕ → Option Action → Memory
write_rule m a r = record m { rules = λ b. if a == b then r else m.rules b }

-- A rule that is read through its address.
abbrev pub load : Memory → ℕ → Outcome Action
load m a = elim (m.rules a) [ none ↦ fault use_after_free | some r ↦ done r ]

-- A search for the first rule from a line on that passes a test: what `Action_match` says of the rule
-- of a line, with its faults, for `ActionQueue_getMatch`, and no test for `ActionQueue_getFrom`.
pub record Search : Type 0 where
  pub start : ℤ
  pub test : ℕ → Action → Outcome Bool

pub data Phase : Type 0 where
  resting : Phase  -- between the searches
  asking : (s : Search) → Phase  -- before `ACQUIRE_READ`
  reading : (s : Search) → Phase  -- the loop, and `LOCK_ACTION`
  leaving : (next : Option ℕ) → Phase  -- before `RELEASE`
  unlocking : (next : Option ℕ) → Phase  -- before `UNLOCK_ACTION(action)` and `action = next`

-- A thread in `ActionQueue_process`, with the rule that is its `action`.
pub record Seeker : Type 0 where
  pub held : Option ℕ
  pub phase : Phase

-- The loop of a search.
unfoldable pub scan : ℕ → (ℕ → Action → Outcome Bool) → Memory → ℕ → Outcome (Option ℕ)
scan zero test m i = done none
scan (suc rounds) test m i =
    let rest = scan rounds test m (i + 1) in
    elim (line_of m i) [
      | none ↦ rest
      | some a ↦ load m a >>= λ r. test i r >>= λ b. if b then done (some a) else rest
    ]

-- `LOCK_ACTION` on what the loop found: `action = NULL` if the rule is being emptied.
abbrev pub kept_if : Memory → ℕ → Option Action → Option ℕ × Memory
kept_if m a none = (none, m)
kept_if m a (some r) = (some a, write_rule m a (some r))

abbrev pub locked : Memory → Option ℕ → Outcome (Option ℕ × Memory)
locked m none = done (none, m)
locked m (some a) = load m a >>= λ r. done (kept_if m a (lock_action true r))

-- A line before the first is read outside the table.
abbrev pub scan_from : Memory → (ℕ → Action → Outcome Bool) → ℤ → Outcome (Option ℕ)
scan_from m test (pos i) = scan (length m.table - i) test m i
scan_from m test (negsuc i) = fault out_of_bounds

abbrev pub found : Memory → Search → Outcome (Option ℕ × Memory)
found m s = scan_from m s.test s.start >>= locked m

abbrev pub unlocked_rule : Action → Action
unlocked_rule r = record r { accessors = decrement_ℤ r.accessors }

-- `pthread_cond_signal` wakes a thread that sleeps on the rule that is given back by its last user.
abbrev pub after_signal : ℕ → Action → (ℕ → Bool) → ℕ → Bool
after_signal a r asleep b =
    if a == b && (eq_ℤ r.accessors (pos 0) && r.emptying) then false else asleep b

abbrev pub given_back : Memory → ℕ → Action → Memory
given_back m a r = record (write_rule m a (some r)) { asleep = after_signal a r m.asleep }

-- `UNLOCK_ACTION`
abbrev pub unlocked : Memory → Option ℕ → Outcome Memory
unlocked m none = done m
unlocked m (some a) = load m a >>= λ r. done (given_back m a (unlocked_rule r))

abbrev pub in_phase : Phase → Seeker → Seeker
in_phase p x = record x { phase = p }

-- The next step of a seeker; `none` where it waits.
unfoldable pub seek : Memory → Option ℕ → Phase → Option (Outcome (Memory × Seeker))
unfolding scan
seek m held resting = none
seek m held (asking s) =
    if m.has_writer
    then none
    else some
        (done (record m { readers = m.readers + 1 }, record { held = held; phase = reading s }))
seek m held (reading s) =
    some (found m s >>= λ r. done (r.1, record { held = held; phase = leaving r.0 }))
seek m held (leaving next) =
    some
      (done (record m { readers = m.readers - 1 }, record { held = held; phase = unlocking next }))
seek m held (unlocking next) =
    some (unlocked m held >>= λ m'. done (m', record { held = next; phase = resting }))

pub data Edit : Type 0 where
  removal : (line : ℤ) → Edit  -- `ActionQueue_remove`
  storage : (rule : Action) (replace : Bool) → Edit  -- `ActionQueue_put`, after `Action_init`

-- A thread in `ActionQueue_put` or `ActionQueue_remove`: `i` is the line, and `rule` what is to stand
-- there.
pub data Editor : Type 0 where
  idle : Editor
  ordered : (e : Edit) → Editor  -- before `ACQUIRE_WRITE`
  inside : (e : Edit) → Editor  -- after it
  emptying : (i : ℕ) (rule : Option Action) → Editor  -- `EMPTY_ACTION`, after its `RELEASE`
  waiting : (i : ℕ) (rule : Option Action) → Editor  -- the loop of `EMPTY_ACTION`
  sleeping : (i a : ℕ) (rule : Option Action) → Editor  -- in its `pthread_cond_wait`
  emptied : (i : ℕ) (rule : Option Action) → Editor  -- before its `ACQUIRE_WRITE`
  changing : (i : ℕ) (rule : Option Action) → Editor  -- after it
  finishing : Editor  -- before `RELEASE`

-- A rule as `Action_init` leaves it.
abbrev pub as_new : Action → Action
as_new r = record r { accessors = pos 0; emptying = false }

-- `queue->queue[i] = action`
abbrev pub stored : Memory → ℕ → Option Action → Memory
stored m i none = record m { table = set m.table i none }
stored m i (some r) = record (write_rule m m.fresh (some (as_new r))) {
  fresh = m.fresh + 1;
  table = set m.table i (some m.fresh);
}

-- `Action_destroy(queue->queue[i])`
abbrev pub destroyed : Memory → Option ℕ → Outcome Memory
destroyed m none = done m
destroyed m (some a) = load m a >>= λ r. done (write_rule m a none)

-- An index of the table.
abbrev pub index : Memory → ℤ → Outcome ℕ
index m (pos i) = if ltb i (length m.table) then done i else fault out_of_bounds
index m (negsuc i) = fault out_of_bounds

abbrev pub released : Memory → Memory
released m = record m { has_writer = false }

-- The first look of `ActionQueue_put` at the slot
abbrev pub look : Memory → ℕ → Action → Bool → Option ℕ → Memory × Editor
look m i r replace none = (stored m i (some r), finishing)
look m i r true (some a) = (released m, emptying i (some r))
look m i r false (some a) = (m, finishing)

abbrev pub look_in : Memory → Edit → Outcome (Memory × Editor)
look_in m (removal line) = index m line >>= λ i. done (released m, emptying i none)
look_in m (storage r replace) = index m r.pos >>= λ i. done (look m i r replace (line_of m i))

-- The slot is read again at each use of the argument of `EMPTY_ACTION`.
abbrev pub in_slot : Memory → ℕ → Outcome (ℕ × Action)
in_slot m i = elim (line_of m i) [
  | none ↦ fault null_pointer
  | some a ↦ load m a >>= λ r. done (a, r)
]

abbrev pub put_to_sleep : Memory → ℕ → Memory
put_to_sleep m a = record m { asleep = λ b. if a == b then true else m.asleep b }

-- The loop ends where nobody uses the rule, and the thread sleeps in it where one does.
abbrev pub wait_on : Memory → ℕ → Option Action → ℕ × Action → Memory × Editor
wait_on m i rule (a, r) =
    if ltb_ℤ (pos 0) r.accessors then (put_to_sleep m a, sleeping i a rule) else (m, emptied i rule)

-- `ACQUIRE_WRITE`
abbrev pub acquire : Memory → Editor → Option (Outcome (Memory × Editor))
acquire m e =
    if m.has_writer || ltb 0 m.readers
    then none
    else some (done (record m { has_writer = true }, e))

abbrev pub marked : Action → Action
marked r = record r { emptying = true }

-- The next step of an editor; `none` where it waits.
unfoldable pub edit : Memory → Editor → Option (Outcome (Memory × Editor))
edit m idle = none
edit m (ordered e) = acquire m (inside e)
edit m (inside e) = some (look_in m e)
edit m (emptying i rule) =
    some (in_slot m i >>= λ r. done (write_rule m r.0 (some (marked r.1)), waiting i rule))
edit m (waiting i rule) = some (in_slot m i >>= λ r. done (wait_on m i rule r))
edit m (sleeping i a rule) = if m.asleep a then none else some (done (m, waiting i rule))
edit m (emptied i rule) = acquire m (changing i rule)
edit m (changing i rule) =
    some (destroyed m (line_of m i) >>= λ m'. done (stored m' i rule, finishing))
edit m finishing = some (done (released m, idle))

pub record System : Type 0 where
  pub memory : Memory
  pub editors : List Editor
  pub seekers : List Seeker

-- Whose turn it is, and what a thread that has nothing to do is to do.
pub data Turn : Type 0 where
  seeks : (i : ℕ) → Turn
  starts : (i : ℕ) (s : Search) → Turn
  lets_go : (i : ℕ) → Turn
  edits : (j : ℕ) → Turn
  orders : (j : ℕ) (e : Edit) → Turn
  wakes : (j : ℕ) → Turn

abbrev pub with_seeker : System → ℕ → Memory × Seeker → System
with_seeker s i (m, x) = record s { memory = m; seekers = set s.seekers i x }

abbrev pub with_editor : System → ℕ → Memory × Editor → System
with_editor s j (m, e) = record s { memory = m; editors = set s.editors j e }

abbrev pub then_in : {A : Type 0} → (A → System) → Option (Outcome A) → Option (Outcome System)
then_in f none = none
then_in f (some r) = some (r >>= λ a. done (f a))

-- A thread that rests goes into a phase.
abbrev pub begins : System → ℕ → Phase → Seeker → Option (Outcome System)
begins s i p x = elim x.phase [
  | resting ↦ some (done (with_seeker s i (s.memory, record { held = x.held; phase = p })))
  | _ ↦ none
]

abbrev pub begins_edit : System → ℕ → Edit → Editor → Option (Outcome System)
begins_edit s j e idle = some (done (with_editor s j (s.memory, ordered e)))
begins_edit s j e _ = none

-- `pthread_cond_wait` may end without a signal.
abbrev pub wakes_up : System → ℕ → Editor → Option (Outcome System)
wakes_up s j (sleeping i a rule) = some (done (with_editor s j (s.memory, waiting i rule)))
wakes_up s j _ = none

abbrev pub of_thread :
    {A : Type 0} → (A → Option (Outcome System)) → Option A → Option (Outcome System)
of_thread f none = none
of_thread f (some x) = f x

-- One turn: the next state, a fault, or nothing where the thread waits or is not there. A seeker
-- that lets go unlocks its rule with no search, as after a rule that is spent.
unfoldable pub advance : Turn → System → Option (Outcome System)
unfolding seek edit
advance (seeks i) s =
    of_thread (λ x. then_in (with_seeker s i) (seek s.memory x.held x.phase))
      (get_elem? s.seekers i)
advance (starts i q) s = of_thread (begins s i (asking q)) (get_elem? s.seekers i)
advance (lets_go i) s = of_thread (begins s i (unlocking none)) (get_elem? s.seekers i)
advance (edits j) s =
    of_thread (λ e. then_in (with_editor s j) (edit s.memory e)) (get_elem? s.editors j)
advance (orders j e) s = of_thread (begins_edit s j e) (get_elem? s.editors j)
advance (wakes j) s = of_thread (wakes_up s j) (get_elem? s.editors j)

pub data Step (s t : System) : Type 0 where
  turn : (k : Turn) → advance k s ≡ some (done t) → Step s t

pub data Steps (s : System) : System → Type 0 where
  here : Steps s s
  next : {t u : System} → Steps s t → Step t u → Steps s u

-- The table as a thread that runs alone sees it.
abbrev pub rule_in : Memory → Option ℕ → Option Action
rule_in m none = none
rule_in m (some a) = m.rules a

abbrev pub view_lines : Memory → List (Option ℕ) → ActionQueue
view_lines m [] = []
view_lines m (a ∷ q) = rule_in m a ∷ view_lines m q

abbrev pub view : Memory → ActionQueue
view m = view_lines m m.table

-- The memory of a table that was read from the file of rules: rule `i` stands at address `i`.
abbrev pub addresses : ℕ → ActionQueue → List (Option ℕ)
addresses i [] = []
addresses i (none ∷ q) = none ∷ addresses (i + 1) q
addresses i (some r ∷ q) = some i ∷ addresses (i + 1) q

abbrev pub memory_of : ActionQueue → Memory
memory_of q = record {
  rules = line_at q;
  fresh = length q;
  table = addresses 0 q;
  readers = 0;
  has_writer = false;
  asleep = λ a. false;
}

abbrev pub newcomer : Seeker
newcomer = record { held = none; phase = resting }

-- The program with its table: one editor, and `n` threads that make calls.
abbrev pub system_of : ActionQueue → ℕ → System
system_of q n = record { memory = memory_of q; editors = idle ∷ []; seekers = replicate n newcomer }
