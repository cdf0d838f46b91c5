-- ===== src/Tests/Threads.antt =====
-- Threads that share a small table of rules.
use libinject.Base.{
  ℕ, zero, suc, ◌<◌, true, false, Option, none, some, List, [], ◌∷◌, ◌≡◌, refl, subst, pos,
  get_elem?,
}
use libinject.Outcome.{Outcome, Fault, done, fault, null_pointer, use_after_free, ◌>>=◌}
use libinject.Queue
use libinject.Queue.{ActionQueue, line_at, put, get_from}
use libinject.Rule.{Action}
use libinject.Threads.Alone.{alone, viewed, removal-remove, storage-put, table_of}
use libinject.Threads.Counts.{uses}
use libinject.Threads.Edits.{Excuse}
use libinject.Threads.Lookup.{found-get_from, any_rule, seen, by_address}
use libinject.Threads.Reach.{AreUnused, memory_of-Inv}
use libinject.Threads.Safety.{seekers_are_safe, editor_faults}
use libinject.Threads.Seeks.{Blamed}
use libinject.Threads.Shape.{IsLive, Shape}
use libinject.Threads.{
  Search, Seeker, resting, Editor, waiting, idle, ordered, removal, storage, System, Turn, seeks,
  starts, lets_go, edits, orders, advance, seek, edit, scan, found, turn, Steps, here, next,
  system_of, memory_of, newcomer, as_new, view,
}
use libinject.Tests.Data.{connect_rule}

-- A turn that is not possible, or that faults, changes nothing.
abbrev after : System → Option (Outcome System) → System
after s (some (done t)) = t
after s _ = s

play : List Turn → System → System
play [] s = s
play (k ∷ ks) s = play ks (after s (advance k s))

Steps-append : {s t u : System} → Steps s t → Steps t u → Steps s u
Steps-append a here = a
Steps-append a (next r k) = next (Steps-append a r) k

after-Steps :
    (k : Turn) (s : System) (o : Option (Outcome System)) → advance k s ≡ o → Steps s (after s o)
after-Steps k s none e = here
after-Steps k s (some (fault f)) e = here
after-Steps k s (some (done t)) e = next here (turn k e)

play-Steps : (ks : List Turn) (s : System) → Steps s (play ks s)
unfolding play
play-Steps [] s = here
play-Steps (k ∷ ks) s =
    Steps-append (after-Steps k s (advance k s) refl) (play-Steps ks (after s (advance k s)))

abbrev one_rule : ActionQueue
one_rule = none ∷ some (connect_rule 1 (pos 0)) ∷ []

abbrev UnusedAt : Option Action → Type 0
UnusedAt none = ℕ
UnusedAt (some r) = r.accessors ≡ pos 0

one_rule-AreUnused : AreUnused one_rule
one_rule-AreUnused zero r e = absurd (cc)
one_rule-AreUnused (suc zero) r e = subst UnusedAt e refl
one_rule-AreUnused (suc (suc i)) r e = absurd (cc)

abbrev from_start : Search
from_start = record { start = pos 0; test = any_rule }

-- A thread takes the rule.
abbrev taking : List Turn
taking = starts 0 from_start ∷ seeks 0 ∷ seeks 0 ∷ seeks 0 ∷ seeks 0 ∷ []

-- A thread uses the rule, and the one that removes it sleeps.
abbrev waiting_for_it : System
waiting_for_it =
    play (edits 0 ∷ edits 0 ∷ edits 0 ∷ edits 0 ∷ [])
      (play (orders 0 (removal (pos 1)) ∷ []) (play taking (system_of one_rule 2)))

waiting_for_it-Steps : Steps (system_of one_rule 2) waiting_for_it
waiting_for_it-Steps =
    Steps-append
      (Steps-append (play-Steps taking (system_of one_rule 2))
        (play-Steps (orders 0 (removal (pos 1)) ∷ []) (play taking (system_of one_rule 2))))
      (play-Steps (edits 0 ∷ edits 0 ∷ edits 0 ∷ edits 0 ∷ [])
        (play (orders 0 (removal (pos 1)) ∷ []) (play taking (system_of one_rule 2))))

abbrev user : Seeker
user = record { held = some 1; phase = resting }

user-at : get_elem? waiting_for_it.seekers 0 ≡ some user
unfolding play advance seek edit scan
user-at = refl

seekers_are_safe_example :
    ((a : ℕ) → 0 < uses a user → IsLive waiting_for_it.memory a)
    × ((f : Fault)
        → advance (seeks 0) waiting_for_it ≡ some (fault f)
        → Blamed waiting_for_it.memory user.phase f)
seekers_are_safe_example =
    seekers_are_safe one_rule 2 waiting_for_it one_rule-AreUnused waiting_for_it-Steps 0 user
      user-at

-- The removal cannot go on before the rule is given back, and then it is awake.
sleeps : advance (edits 0) waiting_for_it ≡ none
unfolding play advance seek edit scan
sleeps = refl

awake : (play (lets_go 0 ∷ seeks 0 ∷ edits 0 ∷ []) waiting_for_it).editors ≡ waiting 1 none ∷ []
unfolding play advance seek edit scan
awake = refl

-- A removal of the empty line 0.
abbrev removing_nothing : System
removing_nothing = play (orders 0 (removal (pos 0)) ∷ edits 0 ∷ edits 0 ∷ []) (system_of one_rule 2)

nothing-faults : advance (edits 0) removing_nothing ≡ some (fault null_pointer)
unfolding play advance seek edit scan
nothing-faults = refl

editor_faults_example :
    (e : Editor) × (get_elem? removing_nothing.editors 0 ≡ some e)
    × Excuse removing_nothing.memory e
editor_faults_example =
    editor_faults one_rule 2 removing_nothing one_rule-AreUnused
      (play-Steps (orders 0 (removal (pos 0)) ∷ edits 0 ∷ edits 0 ∷ []) (system_of one_rule 2)) 0
      null_pointer nothing-faults

abbrev no_use : ℕ → ℕ
no_use a = 0

one_rule-Shape : Shape (memory_of one_rule) false no_use 0
one_rule-Shape = (memory_of-Inv one_rule 0 one_rule-AreUnused).shape

removal-remove_example :
    viewed (alone 7 (memory_of one_rule) (ordered (removal (pos 1))))
    ≡ Queue.remove (view (memory_of one_rule)) (pos 1) true
removal-remove_example = removal-remove (memory_of one_rule) no_use one_rule-Shape (pos 1)

storage-put_example :
    viewed (alone 7 (memory_of one_rule) (ordered (storage (connect_rule 1 (pos 3)) true)))
    ≡ table_of (put (view (memory_of one_rule)) (some (as_new (connect_rule 1 (pos 3)))) true true)
storage-put_example =
    storage-put (memory_of one_rule) no_use one_rule-Shape (connect_rule 1 (pos 3)) true

found-get_from_example :
    (found waiting_for_it.memory (record { start = pos 0; test = any_rule }) >>= λ r. done (seen r))
    ≡ (get_from (view waiting_for_it.memory) (pos 0) true >>= λ r.
        done (by_address waiting_for_it.memory r))
found-get_from_example =
    found-get_from one_rule 2 waiting_for_it (pos 0) one_rule-AreUnused waiting_for_it-Steps

-- Two threads that edit.
abbrev two_editors : System
two_editors = record {
  memory = memory_of one_rule;
  editors = idle ∷ idle ∷ [];
  seekers = newcomer ∷ [];
}

-- Both remove the rule, and both are past the `RELEASE` of `EMPTY_ACTION` when one goes on.
abbrev both_remove : System
both_remove =
    play
      (orders 0 (removal (pos 1))
        ∷ edits 0
        ∷ edits 0
        ∷ orders 1 (removal (pos 1))
        ∷ edits 1
        ∷ edits 1
        ∷ edits 0
        ∷ edits 0
        ∷ edits 0
        ∷ edits 0
        ∷ edits 0
        ∷ [])
      two_editors

second_removal : advance (edits 1) both_remove ≡ some (fault null_pointer)
unfolding play advance seek edit scan
second_removal = refl

-- One replaces the rule while the other, which has waited for the old one, is before its
-- `ACQUIRE_WRITE`; a third takes the new rule, which is freed under it.
abbrev freed_in_use : System
freed_in_use =
    play
      (orders 0 (storage (connect_rule 1 (pos 0)) true)
        ∷ edits 0
        ∷ edits 0
        ∷ orders 1 (removal (pos 1))
        ∷ edits 1
        ∷ edits 1
        ∷ edits 1
        ∷ edits 1
        ∷ edits 0
        ∷ edits 0
        ∷ edits 0
        ∷ edits 0
        ∷ edits 0
        ∷ starts 0 from_start
        ∷ seeks 0
        ∷ seeks 0
        ∷ seeks 0
        ∷ seeks 0
        ∷ edits 1
        ∷ edits 1
        ∷ lets_go 0
        ∷ [])
      two_editors

use_of_freed : advance (seeks 0) freed_in_use ≡ some (fault use_after_free)
unfolding play advance seek edit scan
use_of_freed = refl
