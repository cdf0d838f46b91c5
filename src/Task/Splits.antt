-- ===== src/Task/Splits.antt =====
-- The two writes of src/actions/split.c.
use native.Mathlib.Nat.{mul-le-mul_right}
use libinject.Base.{
  ℕ, ◌+◌, ◌-◌, ◌*◌, ◌%◌, ◌≤◌, ◌<◌, true, false, ◌≡◌, ◌⊎◌, inl, inr, refl, ◌∙◌, sym, arith, ◌==◌,
  if◌then◌else◌, Text, ℤ, pos, eq_ℤ, minus_one, plus_ℕ, u64_mod, Bool-cases, subst,
}
use libinject.Rule.Conditions.{wide}
use libinject.Rule.{Os, ActionData}
use libinject.Socket.{writing}
use libinject.Task.Perform.{
  perform_split, second_write, percent, at_least_one, after_first, split_writing,
}
use libinject.Task.{
  Syscall, Machine, Buffer, null, user, copy, ActionCallData, with_bytes, advance, read_buffer,
  read_buffer_length, is_null, perform_syscall,
}

-- The result of a system call on at most `limit` bytes.
abbrev pub AtMost : ℕ → ℤ → Type 0
AtMost limit result = (result ≡ minus_one) ⊎ ((n : ℕ) × (result ≡ pos n) × (n ≤ limit))

-- What `write` documents: -1, or at most the number of bytes that it was given.
abbrev pub IsBounded : {W : Type 0} → Syscall W → Type 0
IsBounded {W} callback =
    (fd : ℤ) (bytes : Text) (len : ℕ) (w : W) → AtMost len (callback fd bytes len w).result

with_bytes-is_null :
    (c : ActionCallData) (b : Buffer) (bytes : Text)
    → is_null (with_bytes c b bytes).buf ≡ is_null c.buf
with_bytes-is_null c null bytes = refl
with_bytes-is_null c (user o) bytes = refl
with_bytes-is_null c (copy o) bytes = refl

advance-is_null : (b : Buffer) (n : ℕ) → is_null (advance b n) ≡ is_null b
advance-is_null null n = refl
advance-is_null (user o) n = refl
advance-is_null (copy o) n = refl

read_buffer-is_null : (c : ActionCallData) → is_null (read_buffer c) ≡ false
read_buffer-is_null c =
    elim c.buf
      as (λ b. is_null (elim b [ null ↦ user 0 | user o ↦ user o | copy o ↦ copy o ]) ≡ false) [
        | null ↦ refl
        | user o ↦ refl
        | copy o ↦ refl
      ]

read_buffer_length-user :
    (c : ActionCallData) → is_null c.buf ≡ false → read_buffer_length c ≡ c.len
read_buffer_length-user c e = rw e

percent-le : (d : ActionData) (n : ℕ) → wide d.word0 ≤ 100 → percent d n ≤ n
percent-le d n h = omega (arith, mul-le-mul_right n h)

-- What the second write adds to the first.
abbrev added : ℕ → ℤ → ℤ
added first y = if eq_ℤ y minus_one then pos first else plus_ℕ y first

-- The result of the two writes from the results of each.
abbrev both : ℕ → ℤ → ℤ → ℤ
both first x y = if eq_ℤ x (pos first) then added first y else x

both-AtMost :
    (first total : ℕ) (x y : ℤ)
    → first ≤ total
    → AtMost first x
    → AtMost ((total + u64_mod - first) % u64_mod) y
    → total < u64_mod
    → AtMost total (both first x y)
both-AtMost first total x y h a b small = ground (arith)

module _ {W : Type 0} (os : Os W) (callback : Syscall W) (bounded : IsBounded callback) where
  -- What the system call leaves: an answer within bounds, on the same buffer, in a call that is done.
  record Answered (m m' : Machine W) : Type 0 where
    result : AtMost (read_buffer_length m.call) m'.call.result
    is_done : m'.call.is_done ≡ true
    aborted : m'.call.aborted ≡ false
    is_null : is_null m'.call.buf ≡ is_null m.call.buf

  perform_syscall-Answered :
      (m : Machine W)
      → m.call.aborted ≡ false
      → ((perform_syscall os callback m).0 ≡ true) × Answered m (perform_syscall os callback m).1
  unfolding perform_syscall
  perform_syscall-Answered m ab = rw ab (
    refl,
    record {
      result = bounded _ _ _ _;
      is_done = refl;
      aborted = refl;
      is_null = with_bytes-is_null _ _ _;
    },
  )

  second_write-both :
      (first total : ℕ) (m : Machine W)
      → m.call.aborted ≡ false
      → is_null m.call.buf ≡ false
      → (y : ℤ) × AtMost ((total + u64_mod - first) % u64_mod) y
        × ((second_write os callback first total m).call.is_done ≡ true)
        × ((second_write os callback first total m).call.result ≡ added first y)
  unfolding second_write
  second_write-both first total m ab b =
      let m₁ : Machine W = record m {
        call = record m.call {
          is_done = false;
          buf = advance m.call.buf first;
          len = (total + u64_mod - first) % u64_mod;
        };
      } in
      let k = (perform_syscall-Answered m₁ ab).1 in
      let n : is_null (advance m.call.buf first) ≡ false = advance-is_null m.call.buf first ∙ b in
      (
        (perform_syscall os callback m₁).1.call.result,
        subst (λ l. AtMost l (perform_syscall os callback m₁).1.call.result)
            (read_buffer_length-user m₁.call n) k.result,
        k.is_done,
        refl,
      )

  after_first-AtMost :
      (first total : ℕ) (m : Machine W)
      → m.call.aborted ≡ false
      → m.call.is_done ≡ true
      → is_null m.call.buf ≡ false
      → AtMost first m.call.result
      → first ≤ total
      → total < u64_mod
      → let m' = after_first os callback first total m in
        (m'.call.is_done ≡ true) × AtMost total m'.call.result
  unfolding after_first
  after_first-AtMost first total m ab dn b x part small =
      let (y, y_ok, y_done, e) = second_write-both first total m ab b in
      let all : AtMost total (both first m.call.result y) =
        both-AtMost first total m.call.result y part x y_ok small in
      elim (Bool-cases (eq_ℤ m.call.result (pos first))) [
        | inl f ↦
            let e₁ : after_first os callback first total m
                ≡ second_write os callback first total m =
              rw f in
            let whole : AtMost total (added first y) = subst (AtMost total) (rw f) all in
            rw e₁ (y_done, subst (AtMost total) (sym e) whole)
        | inr f ↦
            let e₁ : after_first os callback first total m ≡ m = rw f in
            rw e₁ (dn, subst (AtMost total) (rw f) all)
      ]

  split_writing-AtMost :
      (d : ActionData) (m : Machine W)
      → m.call.aborted ≡ false
      → wide d.word0 ≤ 100
      → 1 ≤ read_buffer_length m.call
      → read_buffer_length m.call < u64_mod
      → let r = split_writing os callback d m in
        (r.0 ≡ true)
        × (r.1.call.is_done ≡ true)
        × AtMost (read_buffer_length m.call) r.1.call.result
  unfolding split_writing
  split_writing-AtMost d m ab p lo small =
      let total = read_buffer_length m.call in
      let first = at_least_one (percent d total) in
      let m₁ : Machine W = record m {
        call = record m.call { buf = read_buffer m.call; len = first };
      } in
      let k = (perform_syscall-Answered m₁ ab).1 in
      let n = read_buffer-is_null m.call in
      let part : first ≤ total = ground (arith, percent-le d total p) in
      let x : AtMost first (perform_syscall os callback m₁).1.call.result =
        subst (λ l. AtMost l (perform_syscall os callback m₁).1.call.result)
          (read_buffer_length-user m₁.call n) k.result in
      let (ok, whole) = perform_syscall-Answered m ab in
      let (dn, both) =
        after_first-AtMost first total (perform_syscall os callback m₁).1 k.aborted k.is_done
          (k.is_null ∙ n) x part small in
      elim (Bool-cases (total == 1)) [
        | inl e ↦
            let e₁ : split_writing os callback d m ≡ perform_syscall os callback m = rw e in
            rw e₁ (ok, whole.is_done, whole.result)
        | inr e ↦
            let m₂ = after_first os callback first total (perform_syscall os callback m₁).1 in
            let e₁ : split_writing os callback d m ≡ (
              true,
              record m₂ { call = record m₂.call { buf = m.call.buf; len = m.call.len } },
            ) =
              rw e in
            rw e₁ (refl, dn, both)
      ]

  -- A split of a write of at least one byte, by a percentage of at most 100 that does not overflow,
  -- where `write` keeps its contract: the task succeeds, the call is done, and its result is -1 or
  -- at most the number of bytes that the program asked to write.
  pub perform_split-AtMost :
      (d : ActionData) (m : Machine W)
      → m.call.direction ≡ writing
      → m.call.is_done ≡ false
      → m.call.aborted ≡ false
      → wide d.word0 ≤ 100
      → 1 ≤ read_buffer_length m.call
      → 100 * read_buffer_length m.call < u64_mod
      → let r = perform_split os callback d m in
        (r.0 ≡ true)
        × (r.1.call.is_done ≡ true)
        × AtMost (read_buffer_length m.call) r.1.call.result
  unfolding perform_split
  perform_split-AtMost d m w done_ ab p lo hi =
      let e : perform_split os callback d m ≡ split_writing os callback d m = rw (done_, ab, w) in
      rw e (split_writing-AtMost d m ab p lo (omega arith))
