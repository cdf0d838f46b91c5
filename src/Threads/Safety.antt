-- ===== src/Threads/Safety.antt =====
-- What the locks of src/actions.c give to threads that run beside one thread that changes the table.
use libinject.Base.{ℕ, ◌<◌, Option, none, some, ◌≡◌, sym, ◌∙◌, subst, ap, arith, set, get_elem?}
use libinject.Outcome.{Outcome, Fault, done, fault}
use libinject.Queue.{ActionQueue}
use libinject.Threads.{
  Seeker, seek, Editor, edit, System, seeks, edits, with_seeker, with_editor, then_in, advance,
  Steps, system_of,
}
use libinject.Threads.Counts.{total, total-ge, uses, reads}
use libinject.Threads.Edits.{edit-Fits, EndsFor, Fits, Excuse}
use libinject.Threads.Reach.{
  AreUnused, Steps-Inv, system_of-Inv, of_thread-some, only_editor, result-holds,
}
use libinject.Threads.Seeks.{Inv, seek-After, Returns, Counted-live, Blamed}
use libinject.Threads.Shape.{IsLive}

then_in-fault :
    {A : Type 0} (f : A → System) (o : Option (Outcome A)) (g : Fault)
    → then_in f o ≡ some (fault g)
    → o ≡ some (fault g)
then_in-fault f none g e = cc
then_in-fault f (some (fault h)) g e = cc
then_in-fault f (some (done a)) g e = cc

some-injective : {A : Type 0} (x y : A) → some x ≡ some y → x ≡ y
some-injective x y e = ap (λ o. elim o [ none ↦ x | some z ↦ z ]) e

-- The threads run on a table of rules that nobody used at the start, in any order and for any time,
-- beside one thread that changes the table. Then every rule that a thread in `ActionQueue_process`
-- uses has not been freed, and the next step of such a thread faults only if it is a search that
-- starts before the first line, or whose `Action_match` itself faults on a rule of the table.
pub seekers_are_safe :
    (q : ActionQueue) (n : ℕ) (s : System)
    → AreUnused q
    → Steps (system_of q n) s
    → (i : ℕ) (x : Seeker) → get_elem? s.seekers i ≡ some x
    → ((a : ℕ) → 0 < uses a x → IsLive s.memory a)
      × ((f : Fault) → advance (seeks i) s ≡ some (fault f) → Blamed s.memory x.phase f)
unfolding advance
seekers_are_safe q n s unused r i x at =
    let si = Steps-Inv (system_of-Inv q n unused) r in
    let shape = si.inv.shape in
    (
      (λ a used.
          let seen = total-ge (uses a) s.seekers i x at in
          Counted-live (s.memory.rules a) (total (uses a) s.seekers) (shape.counted a)
            (omega arith)),
      (λ f e.
          let (y, at', g) = of_thread-some _ (get_elem? s.seekers i) (fault f) e in
          let same : x ≡ y = some-injective x y (sym at ∙ at') in
          subst (λ z. Blamed s.memory z.phase f) (sym same)
            (result-holds
              (Returns (Blamed s.memory y.phase) (λ r. Inv r.0 si.editor (set s.seekers i r.1)))
              (seek s.memory y.held y.phase) (fault f)
              (seek-After s.memory si.editor s.seekers si.inv i y at')
              (then_in-fault (with_seeker s i) (seek s.memory y.held y.phase) f g))),
    )

-- The threads run on a table of rules that nobody used at the start, in any order and for any time,
-- beside one thread that changes the table. Then the thread that changes the table faults only where
-- it first looks at its line: that line is outside the table, or it is to be emptied and holds no
-- rule.
pub editor_faults :
    (q : ActionQueue) (n : ℕ) (s : System)
    → AreUnused q
    → Steps (system_of q n) s
    → (j : ℕ) (f : Fault) → advance (edits j) s ≡ some (fault f)
    → (e : Editor) × (get_elem? s.editors j ≡ some e) × Excuse s.memory e
unfolding advance
editor_faults q n s unused r j f e =
    let si = Steps-Inv (system_of-Inv q n unused) r in
    let (d, at, g) = of_thread-some _ (get_elem? s.editors j) (fault f) e in
    let (first, same) = only_editor si.editor d s.editors j si.alone at in
    let count : ℕ → ℕ = λ a. total (uses a) s.seekers in
    let readers = total reads s.seekers in
    (
      d,
      at,
      subst (Excuse s.memory) same (
          result-holds (EndsFor s.memory si.editor (Fits s.memory count readers))
            (edit s.memory si.editor) (fault f)
            (edit-Fits s.memory count readers si.editor si.inv.shape si.inv.claim)
            (ap (edit s.memory) same ∙ then_in-fault (with_editor s j) (edit s.memory d) f g)),
    )
