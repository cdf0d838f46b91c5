-- ===== src/Format/Decimal.antt =====
-- A number that was written in decimal is read back by `strtol`, and by `Parse_int`.
use libinject.Base.{
  ℕ, zero, suc, ◌+◌, ◌-◌, ◌*◌, ◌/◌, ◌%◌, ◌≤◌, ◌<◌, ◌≡◌, [], ◌∷◌, ◌++◌, true, false, Bool, ◌&&◌,
  ◌==◌, ltb, refl, ap, ◌∙◌, arith, length, to_int, to_unsigned, u64_mod, Text, ℤ, pos, negsuc,
  Bool-cases, inl, inr,
}
use libinject.Format.{digits_onto, show_ℕ, show_ℤ}
use libinject.Parser.Numbers.{
  is_digit, clamp_long, digits_value, skip_digits, starts_with_digit, strtol, parse_int,
}
use libinject.Parser.Elements.{skip_spaces, is_space}
use libinject.Parser.{Status, succeed}

digits_value-digit :
    (acc n : ℕ) (rest : Text)
    → n < 10
    → digits_value acc ((48 + n) ∷ rest) ≡ digits_value (acc * 10 + n) rest
unfolding digits_value
digits_value-digit acc n rest h =
    let d : is_digit (48 + n) ≡ true = ground arith in
    let v : acc * 10 + (48 + n - 48) ≡ acc * 10 + n = omega arith in rw (d, v)

digits_value-digits_onto :
    (rounds n : ℕ) (rest : Text)
    → n ≤ rounds
    → digits_value 0 (digits_onto rounds n rest) ≡ digits_value n rest
unfolding digits_onto
digits_value-digits_onto zero n rest h =
    let z : n ≡ 0 = omega arith in rw z (digits_value-digit 0 0 rest (omega arith))
digits_value-digits_onto (suc rounds) n rest h = elim (Bool-cases (ltb n 10)) [
  | inl e ↦
      rw (e, digits_onto)
        (digits_value-digit 0 n rest (ground arith) ∙ ap (λ v. digits_value v rest) (omega arith))
  | inr e ↦
      rw (e, digits_onto)
        (digits_value-digits_onto rounds (n / 10) ((48 + n % 10) ∷ rest) (ground arith)
          ∙ digits_value-digit (n / 10) (n % 10) rest (omega arith)
          ∙ ap (λ v. digits_value v rest) (omega arith))
]

skip_digits-digits_onto :
    (rounds n : ℕ) (rest : Text) → skip_digits (digits_onto rounds n rest) ≡ skip_digits rest
unfolding digits_onto skip_digits
skip_digits-digits_onto zero n rest = ground arith
skip_digits-digits_onto (suc rounds) n rest = elim (Bool-cases (ltb n 10)) [
  | inl e ↦ ground arith
  | inr e ↦
      rw (e, digits_onto)
        (skip_digits-digits_onto rounds (n / 10) ((48 + n % 10) ∷ rest) ∙ ground arith)
]

starts_with_digit-digits_onto :
    (rounds n : ℕ) (rest : Text) → starts_with_digit (digits_onto rounds n rest) ≡ true
unfolding digits_onto
starts_with_digit-digits_onto zero n rest = ground arith
starts_with_digit-digits_onto (suc rounds) n rest = elim (Bool-cases (ltb n 10)) [
  | inl e ↦ ground arith
  | inr e ↦ rw (e, digits_onto) (starts_with_digit-digits_onto rounds (n / 10) _)
]

digits_onto-append :
    (rounds n : ℕ) (acc rest : Text)
    → digits_onto rounds n acc ++ rest ≡ digits_onto rounds n (acc ++ rest)
unfolding digits_onto
digits_onto-append zero n acc rest = refl
digits_onto-append (suc rounds) n acc rest = elim (Bool-cases (ltb n 10)) [
  | inl e ↦ rw (e, digits_onto) refl
  | inr e ↦ rw (e, digits_onto) (digits_onto-append rounds (n / 10) ((48 + n % 10) ∷ acc) rest)
]

strtol-digits :
    (t : Text)
    → starts_with_digit t ≡ true
    → strtol t ≡ (clamp_long false (digits_value 0 t), skip_digits t)
unfolding strtol skip_spaces
strtol-digits [] h = cc
strtol-digits (c ∷ cs) h =
    let s : is_space c ≡ false = ground arith in
    let m : (c == 45) ≡ false = ground arith in
    let p : (c == 43) ≡ false = ground arith in
    let d : is_digit c ≡ true = h in rw (s, m, p, d) refl

strtol-minus :
    (t : Text)
    → starts_with_digit t ≡ true
    → strtol (45 ∷ t) ≡ (clamp_long true (digits_value 0 t), skip_digits t)
unfolding strtol skip_spaces
strtol-minus t h = rw h refl

length-digits_onto : (rounds n : ℕ) (rest : Text) → length rest < length (digits_onto rounds n rest)
unfolding digits_onto
length-digits_onto zero n rest = omega arith
length-digits_onto (suc rounds) n rest = elim (Bool-cases (ltb n 10)) [
  | inl e ↦ rw (e, digits_onto) (omega arith)
  | inr e ↦
      rw (e, digits_onto) (omega (arith, length-digits_onto rounds (n / 10) ((48 + n % 10) ∷ rest)))
]

digits_value-stop : (n : ℕ) (rest : Text) → starts_with_digit rest ≡ false → digits_value n rest ≡ n
unfolding digits_value
digits_value-stop n [] h = refl
digits_value-stop n (c ∷ cs) h = rw h refl

skip_digits-stop : (rest : Text) → starts_with_digit rest ≡ false → skip_digits rest ≡ rest
unfolding skip_digits
skip_digits-stop [] h = refl
skip_digits-stop (c ∷ cs) h = rw h refl

-- The digits of a number read back as the number, and what follows them is left.
digits_read :
    (n : ℕ) (rest : Text)
    → starts_with_digit rest ≡ false
    → (digits_value 0 (digits_onto n n rest) ≡ n) × (skip_digits (digits_onto n n rest) ≡ rest)
digits_read n rest h = (
  digits_value-digits_onto n n rest (omega arith) ∙ digits_value-stop n rest h,
  skip_digits-digits_onto n n rest ∙ skip_digits-stop rest h,
)

and_false : (b : Bool) → (b && false) ≡ false
and_false true = refl
and_false false = refl

strtol-show_ℕ :
    (n : ℕ) (rest : Text)
    → starts_with_digit rest ≡ false
    → strtol (show_ℕ n ++ rest) ≡ (clamp_long false n, rest)
strtol-show_ℕ n rest h =
    let t = digits_onto n n rest in
    let e : show_ℕ n ++ rest ≡ t = digits_onto-append n n [] rest in
    let (v, k) = digits_read n rest h in
    let g : (clamp_long false (digits_value 0 t), skip_digits t) ≡ (clamp_long false n, rest) =
      rw (v, k) refl in
    rw e (strtol-digits t (starts_with_digit-digits_onto n n rest) ∙ g)

strtol-show_negative :
    (n : ℕ) (rest : Text)
    → starts_with_digit rest ≡ false
    → strtol (45 ∷ show_ℕ n ++ rest) ≡ (clamp_long true n, rest)
strtol-show_negative n rest h =
    let t = digits_onto n n rest in
    let e : show_ℕ n ++ rest ≡ t = digits_onto-append n n [] rest in
    let (v, k) = digits_read n rest h in
    let g : (clamp_long true (digits_value 0 t), skip_digits t) ≡ (clamp_long true n, rest) =
      rw (v, k) refl in
    rw e (strtol-minus t (starts_with_digit-digits_onto n n rest) ∙ g)

-- The numbers of an `int`.
abbrev pub IsInt : ℤ → Type 0
IsInt (pos n) = n < 0x8000_0000
IsInt (negsuc n) = n < 0x8000_0000

module _ {ℓ} {S : Type ℓ} where
  -- `Parse_int` reads an `int` back that `%d` wrote, whatever follows it but a digit: it stores the
  -- number and leaves what follows.
  pub parse_int-show_ℤ :
      (put : ℤ → S → S) (z : ℤ) (rest : Text) (dest : S) (status : Status)
      → IsInt z
      → starts_with_digit rest ≡ false
      → parse_int put (show_ℤ z ++ rest) dest status ≡ succeed rest (put z dest) status
  unfolding parse_int
  parse_int-show_ℤ put (pos n) rest dest status small h =
      let t = show_ℕ n ++ rest in
      let e : t ≡ digits_onto n n rest = digits_onto-append n n [] rest in
      let start : starts_with_digit t ≡ true =
        ap starts_with_digit e ∙ starts_with_digit-digits_onto n n rest in
      let c : clamp_long false n ≡ pos n = ground arith in
      let r : strtol t ≡ (pos n, rest) = strtol-show_ℕ n rest h ∙ ap (λ x. (x, rest)) c in
      let l : (length rest == length t) ≡ false =
        ground (arith, ap length e, length-digits_onto n n rest) in
      let i : to_int (to_unsigned u64_mod (pos n)) ≡ pos n = ground arith in
      rw (start, r, l, i, and_false, parse_int) refl
  parse_int-show_ℤ put (negsuc n) rest dest status small h =
      let t = show_ℕ (n + 1) ++ rest in
      let e : t ≡ digits_onto (n + 1) (n + 1) rest = digits_onto-append (n + 1) (n + 1) [] rest in
      let c : clamp_long true (n + 1) ≡ negsuc n = ground arith in
      let r : strtol (45 ∷ t) ≡ (negsuc n, rest) =
        strtol-show_negative (n + 1) rest h ∙ ap (λ x. (x, rest)) c in
      let l : (length rest == length (45 ∷ t)) ≡ false =
        ground (arith, ap length e, length-digits_onto (n + 1) (n + 1) rest) in
      let i : to_int (to_unsigned u64_mod (negsuc n)) ≡ negsuc n = ground arith in rw (r, l, i) refl
