-- ===== src/Queue.antt =====
-- The ActionQueue of src/actions.c: a table of rules by line number. It runs here as one thread
-- sees it: a call is not interleaved with another, and waiting for accessors that only this thread
-- can release is `fault deadlock`. `mt` turns the counting of accessors on. The text of a rule is
-- read by `Action_init`, whose result `put` takes. Lines and Locks prove.
pub mod Lines
pub mod Locks
use libinject.Base.{
  ℕ, zero, suc, ◌+◌, ◌-◌, Bool, true, false, not, ◌&&◌, ◌||◌, Option, none, some, List, [], ◌∷◌,
  ◌==◌, if◌then◌else◌, ltb, length, get_or, set, replicate, ℤ, pos, negsuc, ltb_ℤ, increment_ℤ,
  decrement_ℤ,
}
use libinject.Outcome.{Outcome, done, fault, null_pointer, out_of_bounds, deadlock, ◌>>=◌}
use libinject.Rule.Conditions.{match_action}
use libinject.Rule.{Os, Action}
use libinject.Socket.{SocketInfo, SocketInfoDirection}

abbrev pub ActionQueue : Type 0
ActionQueue = List (Option Action)

-- `queue->queue[i]`, inside the table
abbrev pub line_at : ActionQueue → ℕ → Option Action
line_at q i = get_or q i none

-- `ActionQueue_init`
abbrev pub init : ℕ → ActionQueue
init capacity = replicate capacity none

-- The place of an index in the table, or the fault of an access outside it.
abbrev pub place : ActionQueue → ℤ → Outcome ℕ
place q (pos i) = if ltb i (length q) then done i else fault out_of_bounds
place q (negsuc i) = fault out_of_bounds

-- `LOCK_ACTION`: `none` if the rule is being emptied.
abbrev pub lock_action : Bool → Action → Option Action
lock_action mt a =
    if not mt
    then some a
    else if a.emptying
    then none
    else some (record a { accessors = increment_ℤ a.accessors })

-- What a search that stopped at line `i` returns: the locked line, and the table.
abbrev pub locked_at : ActionQueue → ℕ → Option Action → Option ℕ × ActionQueue
locked_at q i none = (none, q)
locked_at q i (some a) = (some i, set q i (some a))

-- `UNLOCK_ACTION` on line `i`
abbrev unlock_in : ActionQueue → ℕ → Option Action → Outcome ActionQueue
unlock_in q i none = fault null_pointer
unlock_in q i (some a) = done (set q i (some (record a { accessors = decrement_ℤ a.accessors })))

unfoldable pub unlock_action : ActionQueue → ℕ → Outcome ActionQueue
unlock_action q i = unlock_in q i (line_at q i)

-- `EMPTY_ACTION`: the wait ends only when nobody uses the rule.
abbrev pub empty_action : Bool → Option Action → Outcome (Unit {0})
empty_action false a = done tt
empty_action true none = fault null_pointer
empty_action true (some a) = if ltb_ℤ (pos 0) a.accessors then fault deadlock else done tt

-- The table part of `ActionQueue_put`, on the slot's old content.
abbrev pub put_on :
    ActionQueue → ℕ → Action → Bool → Bool → Option Action → Outcome (Bool × ActionQueue)
put_on q i a replace mt none = done (true, set q i (some a))
put_on q i a true mt (some old) = empty_action mt (some old) >>= λ _. done (true, set q i (some a))
put_on q i a false mt (some old) = done (false, q)

-- `ActionQueue_put`, from the result of `Action_init`.
unfoldable pub put : ActionQueue → Option Action → Bool → Bool → Outcome (Bool × ActionQueue)
put q none replace mt = done (false, q)
put q (some a) replace mt = place q a.pos >>= λ i. put_on q i a replace mt (line_at q i)

-- `ActionQueue_remove`
unfoldable pub remove : ActionQueue → ℤ → Bool → Outcome ActionQueue
remove q line mt = place q line >>= λ i. empty_action mt (line_at q i) >>= λ _. done (set q i none)

abbrev get_on : ActionQueue → ℕ → Bool → Option Action → Outcome (Option ℕ × ActionQueue)
get_on q i false none = done (none, q)
get_on q i true none = fault null_pointer
get_on q i mt (some a) = done (locked_at q i (lock_action mt a))

-- `ActionQueue_get`
unfoldable pub get : ActionQueue → ℤ → Bool → Outcome (Option ℕ × ActionQueue)
get q (pos i) mt = if ltb i (length q) then get_on q i mt (line_at q i) else done (none, q)
get q (negsuc i) mt = fault out_of_bounds

-- The first line from `i` on, among the next `rounds`, that holds a rule.
unfoldable pub first_line : ℕ → ActionQueue → ℕ → Option ℕ
first_line zero q i = none
first_line (suc rounds) q i = elim (line_at q i) [
  | none ↦ first_line rounds q (i + 1)
  | some a ↦ some i
]

abbrev pub lock_line : Bool → ActionQueue → Option ℕ → Option ℕ × ActionQueue
lock_line mt q none = (none, q)
lock_line mt q (some i) = elim (line_at q i) [
  | none ↦ (none, q)
  | some a ↦ locked_at q i (lock_action mt a)
]

-- `ActionQueue_getFrom`
unfoldable pub get_from : ActionQueue → ℤ → Bool → Outcome (Option ℕ × ActionQueue)
unfolding first_line
get_from q (pos i) mt = done (lock_line mt q (first_line (length q - i) q i))
get_from q (negsuc i) mt = fault out_of_bounds

module _ {W : Type 0} (os : Os W) where
  -- The first line from `i` on, among the next `rounds`, whose rule matches.
  unfoldable pub first_match :
      ℕ → ActionQueue → SocketInfo → SocketInfoDirection → Bool → ℕ → W → Outcome (Option ℕ × W)
  first_match zero q si direction m i w = done (none, w)
  first_match (suc rounds) q si direction m i w =
      let rest = λ (w' : W). first_match rounds q si direction m (i + 1) w' in
      elim (line_at q i) [
        | none ↦ rest w
        | some a ↦ match_action os a si direction m w >>= λ r. elim r.0 [
          | true ↦ done (some i, r.1)
          | false ↦ rest r.1
        ]
      ]

  -- `ActionQueue_getMatch`
  unfoldable pub get_match :
      ActionQueue
      → SocketInfo
      → SocketInfoDirection
      → Bool
      → ℤ
      → Bool
      → W
      → Outcome (Option ℕ × ActionQueue × W)
  unfolding first_match
  get_match q si direction m (pos i) mt w = first_match (length q - i) q si direction m i w >>= λ r.
      let (line, q') = lock_line mt q r.0 in done (line, q', r.1)
  get_match q si direction m (negsuc i) mt w = fault out_of_bounds
