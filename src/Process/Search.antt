-- ===== src/Process/Search.antt =====
-- The searches of src/actions.c for the next rule stay between their first line and the end of the
-- table.
use libinject.Base.{
  ℕ, zero, suc, ◌+◌, ◌-◌, ◌<◌, ◌≤◌, Bool, false, ◌==◌, Option, none, some, ◌≡◌, inl, inr, refl,
  arith, Bool-cases, Option-cases, subst,
}
use libinject.Outcome.{Outcome, done, fault, division_by_zero}
use libinject.Process.Forward.{Anything, EndsWith, EndsWith->>=, EndsWith-if}
use libinject.Queue.{ActionQueue, line_at, first_match, first_line, lock_line}
use libinject.Rule.Conditions.{match_action, match_condition, match_cycle, cycle_length, timed}
use libinject.Rule.{
  Os, Action, ActionData, ActionConditionType, after, always, before, between, cycle, matched,
  never, prob, unmatched,
}
use libinject.Socket.{SocketInfo, SocketInfoDirection}

-- A line from `i` on in a table of `n` lines, or none.
abbrev pub IsFrom : ℕ → ℕ → Option ℕ → Type 0
IsFrom i n none = Unit
IsFrom i n (some k) = (i ≤ k) × (k < n)

pub IsFrom-of_le : (i j n : ℕ) (o : Option ℕ) → i ≤ j → IsFrom j n o → IsFrom i n o
IsFrom-of_le i j n none h k = tt
IsFrom-of_le i j n (some x) h (a, b) = (omega arith, b)

pub first_line-IsFrom : (n : ℕ) (q : ActionQueue) (i : ℕ) → IsFrom i (i + n) (first_line n q i)
unfolding first_line
first_line-IsFrom zero q i = tt
first_line-IsFrom (suc n) q i = elim (Option-cases (line_at q i)) [
  | inl e ↦
      let e' : (i + 1) + n ≡ i + suc n = omega arith in
      rw (first_line, e)
        (IsFrom-of_le i (i + 1) (i + suc n) _ (omega arith) (
          subst (λ k. IsFrom (i + 1) k (first_line n q (i + 1))) e'
            (first_line-IsFrom n q (i + 1))))
  | inr (a, e) ↦ rw (first_line, e) (omega arith, omega arith)
]

-- The length of what is left of a table of `n` lines.
pub IsFrom-rest : (i n : ℕ) (o : Option ℕ) → IsFrom i (i + (n - i)) o → IsFrom i n o
IsFrom-rest i n none h = tt
IsFrom-rest i n (some k) (a, b) = (a, omega arith)

pub lock_line-IsFrom :
    (i n : ℕ) (mt : Bool) (q : ActionQueue) (o : Option ℕ)
    → IsFrom i n o
    → IsFrom i n (lock_line mt q o).0
lock_line-IsFrom i n mt q none h = tt
lock_line-IsFrom i n mt q (some k) h = elim (Option-cases (line_at q k)) [
  | inl e ↦ rw (lock_line, e) tt
  | inr (a, e) ↦ elim (Bool-cases mt) [
    | inr off ↦ rw (lock_line, e, off) h
    | inl on ↦ elim (Bool-cases a.emptying) [
      | inl y ↦ rw (lock_line, e, on, y) tt
      | inr no_one ↦ rw (lock_line, e, on, no_one) h
    ]
  ]
]

module _ {W : Type 0} (os : Os W) where
  timed-EndsWith :
      (test : ℕ → Outcome Bool) (w : W)
      → ((t : ℕ) → EndsWith Anything (test t))
      → EndsWith Anything (timed os test w)
  timed-EndsWith test w h =
      EndsWith->>= Anything Anything (test (os.now w).0) _ (h (os.now w).0) (λ _ _. tt)

  match_condition-EndsWith :
      (t : ActionConditionType) (d : ActionData) (m : Bool) (w : W)
      → EndsWith Anything (match_condition os t d m w)
  unfolding match_condition match_cycle
  match_condition-EndsWith after d m w = tt
  match_condition-EndsWith always d m w = tt
  match_condition-EndsWith before d m w = tt
  match_condition-EndsWith between d m w = tt
  match_condition-EndsWith cycle d m w =
      timed-EndsWith (match_cycle d) w
        (λ t. EndsWith-if Anything (cycle_length d == 0) (fault division_by_zero) _ refl tt)
  match_condition-EndsWith matched d m w = tt
  match_condition-EndsWith never d m w = tt
  match_condition-EndsWith prob d m w = tt
  match_condition-EndsWith unmatched d m w = tt

  match_action-EndsWith :
      (a : Action) (si : SocketInfo) (direction : SocketInfoDirection) (m : Bool) (w : W)
      → EndsWith Anything (match_action os a si direction m w)
  unfolding match_action
  match_action-EndsWith a si direction m w = EndsWith-if Anything _ (done (false, w)) _ tt (
      EndsWith->>= Anything Anything (match_condition os a.condition.type a.condition.args m w) _
        (match_condition-EndsWith a.condition.type a.condition.args m w) (λ _ _. tt))

  EndsWith-weaker :
      (i n : ℕ) (x : Outcome (Option ℕ × W))
      → EndsWith (λ r. IsFrom (i + 1) ((i + 1) + n) r.0) x
      → EndsWith (λ r. IsFrom i (i + suc n) r.0) x
  EndsWith-weaker i n (fault e) h = h
  EndsWith-weaker i n (done (none, w)) h = tt
  EndsWith-weaker i n (done (some k, w)) (a, b) = (omega arith, omega arith)

  pub first_match-IsFrom :
      (n : ℕ) (q : ActionQueue) (si : SocketInfo) (direction : SocketInfoDirection) (m : Bool)
      (i : ℕ) (w : W)
      → EndsWith (λ r. IsFrom i (i + n) r.0) (first_match os n q si direction m i w)
  unfolding first_match
  first_match-IsFrom zero q si direction m i w = tt
  first_match-IsFrom (suc n) q si direction m i w =
      let rest : (w' : W)
          → EndsWith (λ r. IsFrom i (i + suc n) r.0)
              (first_match os n q si direction m (i + 1) w') =
        λ w'.
          EndsWith-weaker i n (first_match os n q si direction m (i + 1) w')
            (first_match-IsFrom n q si direction m (i + 1) w') in
      elim (Option-cases (line_at q i)) [
        | inl e ↦ rw (first_match, e) (rest w)
        | inr (a, e) ↦
            rw (first_match, e)
              (EndsWith->>= Anything (λ r. IsFrom i (i + suc n) r.0)
                (match_action os a si direction m w) _ (match_action-EndsWith a si direction m w)
                (λ r _. elim (Bool-cases r.0) [
                  | inl y ↦ rw y (omega arith, omega arith)
                  | inr fails ↦ rw fails (rest r.1)
                ]))
      ]
