-- ===== src/Threads/Counts.antt =====
-- How many threads of a list use a rule or hold the lock.
use libinject.Base.{
  ℕ, zero, suc, ◌+◌, ◌≤◌, Option, none, some, List, [], ◌∷◌, ◌==◌, if◌then◌else◌, get_elem?, set,
  ◌≡◌, refl, ap, arith, replicate,
}
use libinject.Threads.{Seeker, Phase, reading, leaving, unlocking}

module _ {A : Type 0} (f : A → ℕ) where
  abbrev pub total : List A → ℕ
  total [] = 0
  total (x ∷ xs) = f x + total xs

  pub total-set :
      (xs : List A) (i : ℕ) (x y : A)
      → get_elem? xs i ≡ some x
      → total (set xs i y) + f x ≡ total xs + f y
  total-set [] i x y e = cc
  total-set (z ∷ xs) zero x y e =
      let same : f z ≡ f x = ap (λ o. elim o [ none ↦ f x | some w ↦ f w ]) e in omega arith
  total-set (z ∷ xs) (suc i) x y e = omega (arith, total-set xs i x y e)

  pub total-ge : (xs : List A) (i : ℕ) (x : A) → get_elem? xs i ≡ some x → f x ≤ total xs
  total-ge [] i x e = cc
  total-ge (z ∷ xs) zero x e =
      let same : f z ≡ f x = ap (λ o. elim o [ none ↦ f x | some w ↦ f w ]) e in omega arith
  total-ge (z ∷ xs) (suc i) x e = omega (arith, total-ge xs i x e)

  pub total-replicate : (n : ℕ) (x : A) → f x ≡ 0 → total (replicate n x) ≡ 0
  total-replicate zero x e = refl
  total-replicate (suc n) x e = omega (arith, total-replicate n x e)

-- Whether an address is the one that is asked for, as a number.
abbrev pub is_at : ℕ → Option ℕ → ℕ
is_at a none = 0
is_at a (some b) = if a == b then 1 else 0

-- The rule that a search has found and locked.
abbrev pub found_by : Phase → Option ℕ
found_by (leaving next) = next
found_by (unlocking next) = next
found_by _ = none

abbrev pub uses : ℕ → Seeker → ℕ
uses a x = is_at a x.held + is_at a (found_by x.phase)

abbrev pub reads_in : Phase → ℕ
reads_in (reading _) = 1
reads_in (leaving _) = 1
reads_in _ = 0

abbrev pub reads : Seeker → ℕ
reads x = reads_in x.phase
