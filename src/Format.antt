-- ===== src/Format.antt =====
-- What `%d`, `%s` and the bytes of an integer in memory write, for src/actions.c and src/actions.
-- Decimal proves that `strtol` reads a written number back, Bytes that the bytes of a number do.
pub mod Decimal
pub mod Bytes
use libinject.Base.{
  ℕ, zero, suc, ◌+◌, ◌-◌, ◌*◌, ◌/◌, ◌%◌, List, [], ◌∷◌, ◌++◌, if◌then◌else◌, ltb, Text, codes, ℤ,
  pos, negsuc,
}

-- The decimal digits of `n` before a text. Each round takes one digit off; `n` rounds are enough.
unfoldable pub digits_onto : ℕ → ℕ → Text → Text
digits_onto zero n rest = (b'0' + n % 10) ∷ rest
digits_onto (suc rounds) n rest =
    let more = digits_onto rounds (n / 10) ((b'0' + n % 10) ∷ rest) in
    if ltb n 10 then (b'0' + n) ∷ rest else more

-- `%u` and `%zu`
abbrev pub show_ℕ : ℕ → Text
show_ℕ n = digits_onto n n []

-- `%d`
abbrev pub show_ℤ : ℤ → Text
show_ℤ (pos n) = show_ℕ n
show_ℤ (negsuc n) = b'-' ∷ show_ℕ (n + 1)

-- The `count` bytes of a number in memory, the low one first.
unfoldable pub le_bytes : ℕ → ℕ → Text
le_bytes zero n = []
le_bytes (suc count) n = n % 256 ∷ le_bytes count (n / 256)

unfoldable pub of_le_bytes : Text → ℕ
of_le_bytes [] = 0
of_le_bytes (byte ∷ bytes) = byte + 256 * of_le_bytes bytes
