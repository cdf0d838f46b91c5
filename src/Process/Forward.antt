-- ===== src/Process/Forward.antt =====
-- Tables of rules whose jumps only go forward, and what the tasks of src/actions and the operations
-- of src/actions.c do to them.
use libinject.Base.{
  ℕ, zero, suc, ◌<◌, Bool, true, false, Option, none, some, [], ◌∷◌, ap, subst, ◌≡◌, ◌⊎◌, inl, inr,
  refl, sym, ◌∙◌, length, length-set, set, ltb, if◌then◌else◌, ℤ, pos, negsuc, Bool-cases,
  Option-cases, ltb_ℤ,
}
use libinject.Outcome.{Outcome, Fault, done, fault, out_of_fuel, out_of_bounds, deadlock, ◌>>=◌}
use libinject.Queue
use libinject.Queue.{
  ActionQueue, line_at, place, empty_action, unlock_action, lock_action, locked_at, lock_line,
}
use libinject.Rule.{Action, ActionData, ActionGoto, ActionGotoType, goto, exec}
use libinject.Task.Files.{store_data}

abbrev is_end : Fault → Bool
is_end out_of_fuel = false
is_end _ = true

-- A run that does not run out of fuel, and what holds of its value.
abbrev pub EndsWith : {A : Type 0} → (A → Type 0) → Outcome A → Type 0
EndsWith P (done a) = P a
EndsWith P (fault e) = is_end e ≡ true

pub EndsWith->>= :
    {A B : Type 0} (P : A → Type 0) (Q : B → Type 0) (m : Outcome A) (f : A → Outcome B)
    → EndsWith P m
    → ((a : A) → P a → EndsWith Q (f a))
    → EndsWith Q (m >>= f)
EndsWith->>= P Q (done a) f h k = k a h
EndsWith->>= P Q (fault e) f h k = h

pub EndsWith-if :
    {A : Type 0} (P : A → Type 0) (c : Bool) (m n : Outcome A)
    → EndsWith P m
    → EndsWith P n
    → EndsWith P (if c then m else n)
EndsWith-if P true m n h k = h
EndsWith-if P false m n h k = k

abbrev pub JumpsForward : ActionGotoType → ℤ → ℕ → Type 0
JumpsForward goto line i = (k : ℕ) × (line ≡ pos k) × (i < k)
JumpsForward exec line i = (k : ℕ) × (line ≡ pos k) × (i < k)
JumpsForward _ line i = Unit

-- A rule that stands at its own line and jumps to no line before its own.
abbrev pub IsForward : ℕ → Action → Type 0
IsForward i a = (a.pos ≡ pos i) × JumpsForward a.next.type a.next.line i

-- A table of `n` lines with such rules only.
pub record AreForward (n : ℕ) (q : ActionQueue) : Type 0 where
  pub size : length q ≡ n
  pub forward : (i : ℕ) (a : Action) → line_at q i ≡ some a → IsForward i a

line-set_cases :
    (q : ActionQueue) (i j : ℕ) (x : Option Action) (a : Action)
    → line_at (set q i x) j ≡ some a
    → ((i ≡ j) × (x ≡ some a)) ⊎ (line_at q j ≡ some a)
line-set_cases [] i j x a e = inr e
line-set_cases (y ∷ q) zero zero x a e = inl (refl, e)
line-set_cases (y ∷ q) zero (suc j) x a e = inr e
line-set_cases (y ∷ q) (suc i) zero x a e = inr e
line-set_cases (y ∷ q) (suc i) (suc j) x a e = elim (line-set_cases q i j x a e) [
  | inl (same, h) ↦ inl (ap suc same, h)
  | inr h ↦ inr h
]

abbrev ForwardAt : ℕ → Option Action → Type 0
ForwardAt i none = Unit
ForwardAt i (some a) = IsForward i a

pub AreForward-none : (n i : ℕ) (q : ActionQueue) → AreForward n q → AreForward n (set q i none)
AreForward-none n i q s = record {
  size = length-set q i none ∙ s.size;
  forward =
      λ j a e. elim (line-set_cases q i j none a e) [ inl (_, bad) ↦ cc | inr h ↦ s.forward j a h ];
}

-- A rule is changed, but for its line and where it goes next.
pub AreForward-some :
    (n i : ℕ) (q : ActionQueue) (a b : Action)
    → AreForward n q
    → line_at q i ≡ some a
    → b.pos ≡ a.pos
    → b.next ≡ a.next
    → AreForward n (set q i (some b))
AreForward-some n i q a b s e p x =
    let (at, jump) = s.forward i a e in
    let here : IsForward i b =
      (p ∙ at, subst (λ (g : ActionGoto). JumpsForward g.type g.line i) (sym x) jump) in
    record {
      size = length-set q i (some b) ∙ s.size;
      forward = λ j c f. elim (line-set_cases q i j (some b) c f) [
        | inl (same, h) ↦ subst (ForwardAt j) h (subst (λ k. IsForward k b) same here)
        | inr h ↦ s.forward j c h
      ];
    }

pub unlock_action-AreForward :
    (n i : ℕ) (q : ActionQueue) → AreForward n q → EndsWith (AreForward n) (unlock_action q i)
unfolding unlock_action
unlock_action-AreForward n i q s = elim (Option-cases (line_at q i)) [
  | inl e ↦ rw e refl
  | inr (a, e) ↦ rw e (AreForward-some n i q a _ s e refl refl)
]

abbrev pub Anything : {A : Type 0} → A → Type 0
Anything a = Unit

pub place-EndsWith : (q : ActionQueue) (line : ℤ) → EndsWith Anything (place q line)
place-EndsWith q (pos i) =
    EndsWith-if Anything (ltb i (length q)) (done i) (fault out_of_bounds) tt refl
place-EndsWith q (negsuc i) = refl

empty_action-EndsWith : (mt : Bool) (o : Option Action) → EndsWith Anything (empty_action mt o)
empty_action-EndsWith false o = tt
empty_action-EndsWith true none = refl
empty_action-EndsWith true (some a) =
    EndsWith-if Anything (ltb_ℤ (pos 0) a.accessors) (fault deadlock) (done tt) refl tt

pub remove-AreForward :
    (n : ℕ) (line : ℤ) (mt : Bool) (q : ActionQueue)
    → AreForward n q
    → EndsWith (AreForward n) (Queue.remove q line mt)
unfolding Queue.remove
remove-AreForward n line mt q s =
    EndsWith->>= Anything (AreForward n) (place q line) _ (place-EndsWith q line) (λ i _.
      EndsWith->>= Anything (AreForward n) (empty_action mt (line_at q i)) _
        (empty_action-EndsWith mt (line_at q i)) (λ _ _. AreForward-none n i q s))

pub store_data-AreForward :
    (n : ℕ) (line : ℤ) (d : ActionData) (q : ActionQueue)
    → AreForward n q
    → AreForward n (store_data line d q)
store_data-AreForward n (negsuc i) d q s = s
store_data-AreForward n (pos i) d q s = elim (Option-cases (line_at q i)) [
  | inl e ↦ rw (store_data, e) s
  | inr (a, e) ↦ rw (store_data, e) (AreForward-some n i q a _ s e refl refl)
]

-- A search that stopped at a line locks the rule there.
pub lock_line-AreForward :
    (n : ℕ) (mt : Bool) (q : ActionQueue) (o : Option ℕ)
    → AreForward n q
    → AreForward n (lock_line mt q o).1
lock_line-AreForward n mt q none s = s
lock_line-AreForward n mt q (some i) s = elim (Option-cases (line_at q i)) [
  | inl e ↦ rw (lock_line, e) s
  | inr (a, e) ↦ elim (Bool-cases mt) [
    | inr off ↦ rw (lock_line, e, off) (AreForward-some n i q a a s e refl refl)
    | inl on ↦ elim (Bool-cases a.emptying) [
      | inl y ↦ rw (lock_line, e, on, y) s
      | inr no_one ↦ rw (lock_line, e, on, no_one) (AreForward-some n i q a _ s e refl refl)
    ]
  ]
]
