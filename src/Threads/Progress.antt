-- ===== src/Threads/Progress.antt =====
-- The threads never block each other for good: where no thread can go on, all that is left to wait for
-- is a thread that runs a rule.
use libinject.Base.{ℕ, ◌<◌, Option, some, List, ◌≡◌, ◌⊎◌, get_elem?}
use libinject.Outcome.{Outcome, Fault, done, fault}
use libinject.Rule.{Action}
use libinject.Threads.{
  Memory, line_of, Seeker, Phase, resting, Editor, idle, sleeping, System, seeks, edits, advance,
}
use libinject.Threads.Counts.{uses}
use libinject.Threads.Edits.{Excuse}
use libinject.Threads.Seeks.{Blamed}

abbrev busy_in : Phase → ℕ
busy_in resting = 0
busy_in _ = 1

abbrev busy : Seeker → ℕ
busy x = busy_in x.phase

abbrev pub Moves : {A : Type 0} → Option (Outcome A) → Type 0
Moves {A} o = (r : Outcome A) × (o ≡ some r)

-- A thread that sleeps in `EMPTY_ACTION` on a rule which another thread uses.
abbrev pub WaitsFor : Memory → List Seeker → Editor → Type 0
WaitsFor m xs e =
    (i : ℕ) × (v : Option Action) × (a : ℕ) × (k : ℕ) × (x : Seeker) × (e ≡ sleeping i a v)
    × (line_of m i ≡ some a)
    × (get_elem? xs k ≡ some x)
    × (0 < uses a x)

-- Nothing is left to do but for the threads that run a rule.
pub record AtRest (s : System) : Type 0 where
  pub seekers : (i : ℕ) (x : Seeker) → get_elem? s.seekers i ≡ some x → x.phase ≡ resting
  pub editors :
      (j : ℕ) (e : Editor)
      → get_elem? s.editors j ≡ some e
      → (e ≡ idle) ⊎ WaitsFor s.memory s.seekers e

-- What a state can come to: a step of a thread, a fault for which the search or the order is to blame,
-- or rest. A wake-up without a signal is no step here.
pub data Outlook (s : System) : Type 0 where
  seeker_goes : (i : ℕ) (t : System) → advance (seeks i) s ≡ some (done t) → Outlook s
  editor_goes : (j : ℕ) (t : System) → advance (edits j) s ≡ some (done t) → Outlook s
  search_faults :
      (i : ℕ) (x : Seeker) (f : Fault)
      → get_elem? s.seekers i ≡ some x
      → advance (seeks i) s ≡ some (fault f)
      → Blamed s.memory x.phase f
      → Outlook s
  order_faults :
      (j : ℕ) (e : Editor) (f : Fault)
      → get_elem? s.editors j ≡ some e
      → advance (edits j) s ≡ some (fault f)
      → Excuse s.memory e
      → Outlook s
  at_rest : AtRest s → Outlook s
