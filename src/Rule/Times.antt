-- ===== src/Rule/Times.antt =====
-- src/conditions: the conditions on time and chance.
use native.Mathlib.Nat.{add_assoc}
use libinject.Base.{
  ap, sym, ◌∙◌, ℕ, ◌+◌, ◌%◌, ◌<◌, Bool, true, not, ◌≡◌, ◌↔◌, refl, arith, ◌==◌, if◌then◌else◌, ltb,
  u32_mod, u64_mod,
}
use libinject.Outcome.{Outcome, done, fault, division_by_zero}
use libinject.Rule.Conditions.{
  elapsed, match_after, match_before, match_between, match_cycle, match_prob, cycle_length, is_true,
}
use libinject.Rule.{ActionData}

-- With the same arguments `after` holds exactly when `before` does not.
match_after-match_before :
    (d : ActionData) (time : ℕ) → match_after d time ≡ not (match_before d time)
unfolding match_after match_before
match_after-match_before d time = ground arith

-- `before n` holds from the making of the rule for `n` milliseconds and no longer, if `n` is a
-- delay that is not negative and the clock has not gone back.
match_before_lem :
    (d : ActionData) (start delay : ℕ)
    → d.word0 % u32_mod < 0x8000_0000
    → start ≡ d.word1
    → start + delay < u64_mod
    → (match_before d (start + delay) ≡ true) ↔ (delay < d.word0 % u32_mod)
unfolding match_before
match_before_lem d start delay small e fits = ground arith

-- `between` does not depend on the time at which the rule was made, which stands in `data[2]`.
match_between-start :
    (d : ActionData) (time start start' : ℕ)
    → match_between (record d { word2 = start }) time
      ≡ match_between (record d { word2 = start' }) time
unfolding match_between
match_between-start d time start start' = refl

mod-period : (t p : ℕ) → 0 < p → (t + p) % p ≡ t % p
mod-period t p h = grind arith

-- The phase of a cycle decides.
abbrev phase : ActionData → ℕ → Outcome Bool
phase d t =
    if cycle_length d == 0
    then fault division_by_zero
    else done (if ltb t (d.word1 % u32_mod) then is_true d.word0 else not (is_true d.word0))

match_cycle-phase :
    (d : ActionData) (time : ℕ)
    → match_cycle d time ≡ phase d (elapsed time d.word3 % u32_mod % cycle_length d)
unfolding match_cycle
match_cycle-phase d time = refl

elapsed_since : (s x : ℕ) → s + x < u64_mod → x < u32_mod → elapsed (s + x) s % u32_mod ≡ x
elapsed_since s x h k = omega arith

-- A cycle of a length above 0 is periodic as long as the time since the start fits into 32 bits and
-- the clock into 64.
match_cycle-period :
    (d : ActionData) (t : ℕ)
    → 0 < cycle_length d
    → d.word3 + t + cycle_length d < u64_mod
    → t + cycle_length d < u32_mod
    → match_cycle d (d.word3 + t + cycle_length d) ≡ match_cycle d (d.word3 + t)
match_cycle-period d t h lo fits =
    let p = cycle_length d in
    let long : elapsed (d.word3 + t + p) d.word3 % u32_mod ≡ t + p =
      ap (λ (n : ℕ). elapsed n d.word3 % u32_mod) (add_assoc d.word3 t p)
      ∙ elapsed_since d.word3 (t + p) (omega arith) fits in
    let short = elapsed_since d.word3 t (omega arith) (omega arith) in
    match_cycle-phase d (d.word3 + t + p)
    ∙ ap (λ (n : ℕ). phase d (n % p)) long
    ∙ ap (phase d) (mod-period t p h)
    ∙ sym (ap (λ (n : ℕ). phase d (n % p)) short)
    ∙ sym (match_cycle-phase d (d.word3 + t))

-- A cycle of length 0 is a division by zero, at every time.
match_cycle-empty :
    (d : ActionData) (time : ℕ)
    → (match_cycle d time ≡ fault division_by_zero) ↔ (cycle_length d ≡ 0)
unfolding match_cycle
match_cycle-empty d time = ground arith

-- `prob p`, for a `p` from 0 to 99, and a random number of 32 bits: the condition holds for `p + 1` of
-- the 100 remainders of the number, `prob 0` for one of them.
match_prob_iff :
    (d : ActionData) (value p : ℕ)
    → value < u32_mod
    → p < 100
    → d.word0 % u32_mod ≡ p
    → (match_prob d value ≡ true) ↔ (value % 100 < p + 1)
unfolding match_prob
match_prob_iff d value p h lo e = ground arith
