-- ===== src/Rule/Conditions.antt =====
-- src/conditions/*.c: when a condition holds, and `Action_match`, which asks it.
use libinject.Base.{
  ℕ, ◌+◌, ◌-◌, ◌%◌, Bool, true, false, not, ◌&&◌, ◌||◌, ◌==◌, if◌then◌else◌, ltb, leb, pos, eq_ℤ,
  to_unsigned, u32_mod, u64_mod,
}
use libinject.Outcome.{Outcome, done, fault, division_by_zero, ◌>>=◌}
use libinject.Rule.{
  Os, ActionData, ActionConditionType, Action, int_of, match_hosts, after, always, before, between,
  cycle, matched, never, prob, unmatched,
}
use libinject.Socket.{SocketInfo, SocketInfoDirection, direction_bits, proto_bits, shares}

-- `getMSecTime() - start` in `uint64_t`
abbrev pub elapsed : ℕ → ℕ → ℕ
elapsed time start = (time + u64_mod - start) % u64_mod

-- `(uint64_t)data[k].i`
abbrev pub wide : ℕ → ℕ
wide word = to_unsigned u64_mod (int_of word)

unfoldable pub match_after : ActionData → ℕ → Bool
match_after d time = leb (wide d.word0) (elapsed time d.word1)

unfoldable pub match_before : ActionData → ℕ → Bool
match_before d time = ltb (elapsed time d.word1) (wide d.word0)

-- The start time is read from `data[1]`, where the second bound stands.
unfoldable pub match_between : ActionData → ℕ → Bool
match_between d time = let t = elapsed time d.word1 in leb (wide d.word0) t && ltb t (wide d.word1)

-- `data[1].i + data[2].i` as the `uint32_t` that `%=` converts it to
abbrev pub cycle_length : ActionData → ℕ
cycle_length d = (d.word1 + d.word2) % u32_mod

abbrev pub is_true : ℕ → Bool
is_true word = not (eq_ℤ (int_of word) (pos 0))

unfoldable pub match_cycle : ActionData → ℕ → Outcome Bool
match_cycle d time =
    if cycle_length d == 0
    then fault division_by_zero
    else (let t = elapsed time d.word3 % u32_mod % cycle_length d in
        done (if ltb t (d.word1 % u32_mod) then is_true d.word0 else not (is_true d.word0)))

-- `rand()` is an `int` that is not negative.
unfoldable pub match_prob : ActionData → ℕ → Bool
match_prob d value = leb (value % u32_mod % 100) (to_unsigned u32_mod (int_of d.word0))

module _ {W : Type 0} (os : Os W) where
  -- A condition that asks for the time.
  abbrev pub timed : (ℕ → Outcome Bool) → W → Outcome (Bool × W)
  timed test w = let (time, w') = os.now w in test time >>= λ b. done (b, w')

  -- `Condition(action).match`
  unfoldable pub match_condition : ActionConditionType → ActionData → Bool → W → Outcome (Bool × W)
  unfolding match_after match_before match_between match_cycle match_prob
  match_condition after d m w = timed (λ t. done (match_after d t)) w
  match_condition always d m w = done (true, w)
  match_condition before d m w = timed (λ t. done (match_before d t)) w
  match_condition between d m w = timed (λ t. done (match_between d t)) w
  match_condition cycle d m w = timed (match_cycle d) w
  match_condition matched d m w = done (m, w)
  match_condition never d m w = done (false, w)
  match_condition prob d m w = let (value, w') = os.random w in done (match_prob d value, w')
  match_condition unmatched d m w = done (not m, w)

  abbrev after_condition : Action → SocketInfo → SocketInfoDirection → Bool × W → Outcome (Bool × W)
  after_condition a si direction (holds, w) = done (
    (if not holds || not (shares (proto_bits si.proto) (proto_bits a.proto))
        then false
        else match_hosts a.direction a si direction),
    w,
  )

  -- `Action_match`
  unfoldable pub match_action :
      Action → SocketInfo → SocketInfoDirection → Bool → W → Outcome (Bool × W)
  unfolding match_condition match_hosts
  match_action a si direction m w =
      if not (shares (direction_bits a.direction) (direction_bits direction))
      then done (false, w)
      else match_condition a.condition.type a.condition.args m w >>= after_condition a si direction
