-- ===== src/Queue/Lines.antt =====
-- The table of src/actions.c as a map from lines to rules, and what its searches return.
use libinject.Base.{
  ℕ, zero, suc, ◌+◌, ◌≤◌, ◌<◌, Bool, true, false, Option, none, some, ◌≡◌, ◌≢◌, ◌⊎◌, inl, inr, sym,
  arith, ◌==◌, if◌then◌else◌, length, get_or-set, length-set, pos, negsuc, Option-cases, subst,
  ℤ-cases, eq_or_ne,
}
use libinject.Outcome.{done, fault, out_of_bounds}
use libinject.Queue.{ActionQueue, line_at, put, first_line}
use libinject.Rule.{Action}

-- A `put` that is accepted writes the rule to its own line, which is in the table, and changes no
-- other line nor the size of the table.
pub put_accepted :
    (q q' : ActionQueue) (a : Action) (replace mt : Bool) (i j : ℕ)
    → a.pos ≡ pos i
    → put q (some a) replace mt ≡ done (true, q')
    → (i < length q)
      × (length q' ≡ length q)
      × (line_at q' j ≡ (if i == j then some a else line_at q j))
unfolding put
put_accepted q q' a replace mt i j e h =
    ground (arith, get_or-set q i j (some a) none, length-set q i (some a))

-- `put` answers false on a rule that was read only where the line is taken and `replace` is not
-- set; the table is then as it was.
pub put_collision :
    (q q' : ActionQueue) (a : Action) (replace mt : Bool)
    → put q (some a) replace mt ≡ done (false, q')
    → (replace ≡ false)
      × (q' ≡ q)
      × ((i : ℕ) × (old : Action) × (a.pos ≡ pos i) × (line_at q i ≡ some old))
unfolding put
put_collision q q' a replace mt h = elim (ℤ-cases a.pos) [
  | inr (n, e) ↦ absurd (ground arith)
  | inl (i, e) ↦ elim (Option-cases (line_at q i)) [
    | inl o ↦ absurd (ground arith)
    | inr (old, o) ↦ (ground arith, ground arith, (i, old, e, o))
  ]
]

-- A line outside the table is a fault, whatever the flags: the code writes behind the array.
pub put_outside :
    (q : ActionQueue) (a : Action) (replace mt : Bool) (n : ℕ)
    → (a.pos ≡ negsuc n) ⊎ ((a.pos ≡ pos n) × (length q ≤ n))
    → put q (some a) replace mt ≡ fault out_of_bounds
unfolding put
put_outside q a replace mt n h = ground arith

-- What a search for the first line from `i` on finds.
abbrev pub FirstFrom : ActionQueue → ℕ → ℕ → Option ℕ → Type 0
FirstFrom q i n none = (j : ℕ) → i ≤ j → j < i + n → line_at q j ≡ none
FirstFrom q i n (some k) =
    (i ≤ k) × (k < i + n) × (line_at q k ≢ none) × ((j : ℕ) → i ≤ j → j < k → line_at q j ≡ none)

LineFrom-later :
    (q : ActionQueue) (i n : ℕ) (r : Option ℕ)
    → line_at q i ≡ none
    → FirstFrom q (i + 1) n r
    → FirstFrom q i (suc n) r
LineFrom-later q i n none e f = λ j lo hi. elim (eq_or_ne i j) [
  | inl p ↦ subst (λ k. line_at q k ≡ none) p e
  | inr p ↦ f j (omega arith) (omega arith)
]
LineFrom-later q i n (some k) e (lo, hi, ne, f) = (
  omega arith,
  omega arith,
  ne,
  λ j l h. elim (eq_or_ne i j) [
    | inl p ↦ subst (λ m. line_at q m ≡ none) p e
    | inr p ↦ f j (omega arith) h
  ],
)

first_line-none :
    (n : ℕ) (q : ActionQueue) (i : ℕ)
    → line_at q i ≡ none
    → first_line (suc n) q i ≡ first_line n q (i + 1)
unfolding first_line
first_line-none n q i e = rw (e, first_line)

first_line-some :
    (n : ℕ) (q : ActionQueue) (i : ℕ) (a : Action)
    → line_at q i ≡ some a
    → first_line (suc n) q i ≡ some i
unfolding first_line
first_line-some n q i a e = rw (e, first_line)

some_ne_none : {a : Action} {r : Option Action} → r ≡ some a → r ≢ none
some_ne_none e = λ h. cc

-- The search for the first line that holds a rule finds the first such line of the table from `i`
-- on, and nothing only where no line from there to the end of the table holds one.
pub first_line-FirstFrom : (n : ℕ) (q : ActionQueue) (i : ℕ) → FirstFrom q i n (first_line n q i)
unfolding first_line
first_line-FirstFrom zero q i = λ j lo hi. absurd (omega arith)
first_line-FirstFrom (suc n) q i = elim (Option-cases (line_at q i)) [
  | inr (a, e) ↦
      subst (FirstFrom q i (suc n)) (sym (first_line-some n q i a e))
        (omega arith, omega arith, some_ne_none e, λ j lo hi. absurd (omega arith))
  | inl e ↦
      subst (FirstFrom q i (suc n)) (sym (first_line-none n q i e))
        (LineFrom-later q i n (first_line n q (i + 1)) e (first_line-FirstFrom n q (i + 1)))
]
