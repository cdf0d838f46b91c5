-- ===== src/Outcome.antt =====
-- What a run of C code ends with: a value, or a fault after which the model says nothing. A lock
-- that the running thread waits for while it holds it itself is a fault too.
use libinject.Base.{Bool, true, false, if◌then◌else◌, ◌≡◌, refl}

pub data Fault : Type 0 where
  division_by_zero null_pointer out_of_bounds deadlock out_of_fuel endless_loop use_after_free :
      Fault

pub data Outcome {ℓ} (A : Type ℓ) : Type ℓ where
  done : A → Outcome A
  fault : Fault → Outcome A

infixl 5 ◌>>=◌
abbrev pub ◌>>=◌ {ℓ κ} : {A : Type ℓ} {B : Type κ} → Outcome A → (A → Outcome B) → Outcome B
done a >>= f = f a
fault e >>= f = fault e

-- Inversion of a bind that is done.
pub >>=-eq-done {ℓ κ} :
    {A : Type ℓ} {B : Type κ} (m : Outcome A) (f : A → Outcome B) {b : B}
    → (m >>= f) ≡ done b
    → (a : A) × (m ≡ done a) × (f a ≡ done b)
>>=-eq-done (done a) f h = (a, refl, h)
>>=-eq-done (fault e) f h = cc

-- What holds of the value of a run, if it has one.
abbrev pub IfDone {ℓ κ} : {A : Type ℓ} → (A → Type κ) → Outcome A → Type κ
IfDone P (done a) = P a
IfDone P (fault e) = Unit

pub IfDone->>= {ℓ κ ι} :
    {A : Type ℓ} {B : Type κ} (P : A → Type ι) (Q : B → Type ι) (m : Outcome A) (f : A → Outcome B)
    → IfDone P m
    → ((a : A) → P a → IfDone Q (f a))
    → IfDone Q (m >>= f)
IfDone->>= P Q (done a) f p h = h a p
IfDone->>= P Q (fault e) f p h = tt

-- The same where nothing is known of the first run.
pub IfDone->>=_any {ℓ κ ι} :
    {A : Type ℓ} {B : Type κ} (Q : B → Type ι) (m : Outcome A) (f : A → Outcome B)
    → ((a : A) → IfDone Q (f a))
    → IfDone Q (m >>= f)
IfDone->>=_any Q (done a) f h = h a
IfDone->>=_any Q (fault e) f h = tt

pub IfDone-if {ℓ κ} :
    {A : Type ℓ} (P : A → Type κ) (c : Bool) (m n : Outcome A)
    → IfDone P m
    → IfDone P n
    → IfDone P (if c then m else n)
IfDone-if P true m n h k = h
IfDone-if P false m n h k = k
