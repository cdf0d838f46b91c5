-- ===== src/Base/Int.antt =====
-- Signed integers over the native numbers, under the library's names, and the C conversions.
use Prim.Native.Nat.{ℕ, zero, suc, ◌+◌, ◌-◌, ◌%◌, ◌^◌}
use mathlib.Core.Path.{◌≡◌, refl}
use mathlib.Core.Logic.{◌↔◌, ◌⊎◌, inl, inr}
use mathlib.Core.Bool.{Bool, true, false}
use native.Mathlib.Omega.{arith}
use libinject.Base.Tests.{ltb, ◌==◌, if◌then◌else◌}

-- `negsuc n` is -(n + 1).
pub data ℤ : Type 0 where
  pos : ℕ → ℤ
  negsuc : ℕ → ℤ

abbrev pub eq_ℤ : ℤ → ℤ → Bool
eq_ℤ (pos a) (pos b) = a == b
eq_ℤ (pos a) (negsuc b) = false
eq_ℤ (negsuc a) (pos b) = false
eq_ℤ (negsuc a) (negsuc b) = a == b

pub eq_ℤ_iff : (a b : ℤ) → (eq_ℤ a b ≡ true) ↔ (a ≡ b)
eq_ℤ_iff (pos a) (pos b) = ground arith
eq_ℤ_iff (pos a) (negsuc b) = ground arith
eq_ℤ_iff (negsuc a) (pos b) = ground arith
eq_ℤ_iff (negsuc a) (negsuc b) = ground arith

abbrev pub ltb_ℤ : ℤ → ℤ → Bool
ltb_ℤ (pos a) (pos b) = ltb a b
ltb_ℤ (pos a) (negsuc b) = false
ltb_ℤ (negsuc a) (pos b) = true
ltb_ℤ (negsuc a) (negsuc b) = ltb b a

-- -1, which the C code uses as a sentinel
abbrev pub minus_one : ℤ
minus_one = negsuc 0

abbrev pub u32_mod : ℕ
u32_mod = 2 ^ 32

abbrev pub u64_mod : ℕ
u64_mod = 2 ^ 64

-- The two's complement bits of an integer as an unsigned number below `modulus`.
abbrev pub to_unsigned : ℕ → ℤ → ℕ
to_unsigned modulus (pos n) = n % modulus
to_unsigned modulus (negsuc n) = modulus - 1 - n % modulus

-- The integer with the low 32 bits of `n`, as gcc converts to `int`.
abbrev pub to_int : ℕ → ℤ
to_int n =
    let bits = n % u32_mod in if ltb bits 0x8000_0000 then pos bits else negsuc (u32_mod - 1 - bits)

-- A `size_t` that is taken as an `ssize_t`.
abbrev pub to_ssize : ℕ → ℤ
to_ssize n =
    let bits = n % u64_mod in
    if ltb bits 0x8000_0000_0000_0000 then pos bits else negsuc (u64_mod - 1 - bits)

-- `++n` and `--n` on a small `int`.
abbrev pub increment_ℤ : ℤ → ℤ
increment_ℤ (pos n) = pos (n + 1)
increment_ℤ (negsuc zero) = pos 0
increment_ℤ (negsuc (suc n)) = negsuc n

abbrev pub decrement_ℤ : ℤ → ℤ
decrement_ℤ (pos zero) = negsuc 0
decrement_ℤ (pos (suc n)) = pos n
decrement_ℤ (negsuc n) = negsuc (n + 1)

-- `a += n`
abbrev pub plus_ℕ : ℤ → ℕ → ℤ
plus_ℕ (pos a) n = pos (a + n)
plus_ℕ (negsuc a) n = if ltb a n then pos (n - 1 - a) else negsuc (a - n)

pub decrement-increment : (a : ℤ) → decrement_ℤ (increment_ℤ a) ≡ a
decrement-increment (pos n) = ground arith
decrement-increment (negsuc zero) = refl
decrement-increment (negsuc (suc n)) = ground arith

pub ℤ-cases : (a : ℤ) → ((n : ℕ) × (a ≡ pos n)) ⊎ ((n : ℕ) × (a ≡ negsuc n))
ℤ-cases (pos n) = inl (n, refl)
ℤ-cases (negsuc n) = inr (n, refl)
