-- ===== src/Format/Bytes.antt =====
-- The bytes of a number in memory give the number back.
use libinject.Base.{ℕ, zero, suc, ◌*◌, ◌/◌, ◌<◌, ◌≡◌, refl, ap, arith, length}
use libinject.Format.{le_bytes, of_le_bytes}

-- The numbers that `count` bytes hold.
unfoldable pub byte_range : ℕ → ℕ
byte_range zero = 1
byte_range (suc count) = 256 * byte_range count

pub length-le_bytes : (count n : ℕ) → length (le_bytes count n) ≡ count
unfolding le_bytes
length-le_bytes zero n = refl
length-le_bytes (suc count) n = ap suc (length-le_bytes count (n / 256))

pub of_le_bytes-le_bytes : (count n : ℕ) → n < byte_range count → of_le_bytes (le_bytes count n) ≡ n
unfolding le_bytes of_le_bytes byte_range
of_le_bytes-le_bytes zero n h = omega arith
of_le_bytes-le_bytes (suc count) n h =
    omega (arith, of_le_bytes-le_bytes count (n / 256) (omega arith))
