-- ===== src/Binding/Scatter.antt =====
-- `prepareReadIOVec` of src/binding.c: how the bytes that were read reach the buffers of the call.
use mathlib.Core.List.{append_assoc}
use libinject.Base.{
  ℕ, zero, suc, ◌+◌, ◌-◌, ◌≤◌, ◌≡◌, ◌⊎◌, inl, inr, List, [], ◌∷◌, ◌++◌, refl, sym, ap, arith,
  length, take, drop, map, Text, min, length-append, length-take, length-drop,
}
use libinject.Binding.Vectors.{total_length, gather, scatter}

take-append-take : (a b : ℕ) (xs : Text) → take a xs ++ take b (drop a xs) ≡ take (a + b) xs
take-append-take zero b xs = let none_taken : 0 + b ≡ b = omega arith in rw none_taken refl
take-append-take (suc a) zero [] = let e : suc a + 0 ≡ suc a = omega arith in rw e refl
take-append-take (suc a) (suc b) [] =
    let e : suc a + suc b ≡ suc (a + suc b) = omega arith in rw e refl
take-append-take (suc a) b (x ∷ xs) =
    let e : suc a + b ≡ suc (a + b) = omega arith in rw e (ap (◌∷◌ x) (take-append-take a b xs))

-- A `drop` that ends inside the first of two lists.
drop-append_le : (n : ℕ) (v ys : Text) → n ≤ length v → drop n (v ++ ys) ≡ drop n v ++ ys
drop-append_le zero v ys h = refl
drop-append_le (suc n) [] ys h = absurd (omega arith)
drop-append_le (suc n) (x ∷ v) ys h = drop-append_le n v ys (omega arith)

-- A `drop` that goes beyond the first of two lists.
drop-append_add : (n : ℕ) (v ys : Text) → drop (length v + n) (v ++ ys) ≡ drop n ys
drop-append_add n [] ys = let e : 0 + n ≡ n = omega arith in rw e refl
drop-append_add n (x ∷ v) ys =
    let e : suc (length v) + n ≡ suc (length v + n) = omega arith in rw e (drop-append_add n v ys)

drop-length : (v : Text) → drop (length v) v ≡ []
drop-length [] = refl
drop-length (x ∷ v) = drop-length v

le_or_beyond : (a b : ℕ) → (a ≤ b) ⊎ ((c : ℕ) × (a ≡ b + c))
le_or_beyond a b =
    let split : (a ≤ b) ⊎ (b ≤ a) = omega arith in
    elim split [ inl h ↦ inl h | inr h ↦ inr (a - b, omega arith) ]

append-nil : (xs : Text) → xs ++ [] ≡ xs
append-nil [] = refl
append-nil (x ∷ xs) = ap (◌∷◌ x) (append-nil xs)

-- `scatter` of at least `count` bytes over buffers that hold `count` bytes: read one after the
-- other, the buffers are the first `count` bytes and then what they held behind them.
pub gather-scatter :
    (count : ℕ) (bytes : Text) (vs : List Text)
    → count ≤ length bytes
    → count ≤ total_length vs
    → gather (scatter count bytes vs) ≡ take count bytes ++ drop count (gather vs)
unfolding gather scatter total_length
gather-scatter zero bytes [] h k = refl
gather-scatter (suc count) bytes [] h k = absurd (omega arith)
gather-scatter count bytes (v ∷ vs) h k = elim (le_or_beyond count (length v)) [
  | inl le ↦
      let rest = gather-scatter 0 (drop count bytes) vs (omega arith) (omega arith) in
      let part : min count (length v) ≡ count = omega arith in
      let left : count - count ≡ 0 = omega arith in
      rw (part, left, rest, drop-append_le count v (gather vs) le)
        (append_assoc (take count bytes) (drop count v) (gather vs))
  | inr (c, e) ↦
      let rest =
        gather-scatter c (drop (length v) bytes) vs (omega (arith, length-drop (length v) bytes))
          (omega arith) in
      let part : min (length v + c) (length v) ≡ length v = omega arith in
      let left : length v + c - length v ≡ c = omega arith in
      rw
        (
          e,
          part,
          left,
          rest,
          drop-append_add c v (gather vs),
          drop-length v,
          append-nil (take (length v) bytes),
          sym (take-append-take (length v) c bytes),
        )
        (sym (
          append_assoc (take (length v) bytes) (take c (drop (length v) bytes))
            (drop c (gather vs))))
]

-- `scatter` changes no length of a buffer, whatever the count.
pub lengths-scatter :
    (count : ℕ) (bytes : Text) (vs : List Text)
    → count ≤ length bytes
    → map length (scatter count bytes vs) ≡ map length vs
unfolding scatter
lengths-scatter count bytes [] h = refl
lengths-scatter count bytes (v ∷ vs) h =
    let part = min count (length v) in
    let this : length (take part bytes ++ drop part v) ≡ length v = omega (
      arith,
      length-append (take part bytes) (drop part v),
      length-take part bytes,
      length-drop part v,
    ) in
    let rest =
      lengths-scatter (count - part) (drop part bytes) vs (omega (arith, length-drop part bytes)) in
    rw this (ap (◌∷◌ (length v)) rest)
