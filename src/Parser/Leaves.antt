-- ===== src/Parser/Leaves.antt =====
-- The elements of src/parser.c keep the contract of a `ParserElement`.
use mathlib.Core.Bool.{false≢true}
use mathlib.Core.List.{append_assoc}
use libinject.Base.{
  ℕ, ◌+◌, true, false, ◌||◌, Option, none, some, List, [], ◌∷◌, ◌++◌, ◌≡◌, refl, sym, ap, subst,
  ◌∙◌, inl, inr, pos, arith, if◌then◌else◌, ◌==◌, take, drop, take-append-drop, Text, ℤ, Bool-cases,
}
use libinject.Parser.Contract.{Keeps, IsElement}
use libinject.Parser.Elements.{
  nearest, constant_length, parse_until, parse_word, parse_line, parse_space, parse_eob, parse_char,
  parse_enum, parse_bool, StringDest, skip_spaces, is_space, enum_stops, word_stops, bools,
}
use libinject.Parser.Numbers.{
  parse_int, strtol, skip_digits, is_digit, starts_with_digit, skip_sign,
}
use libinject.Parser.{Message, Status, Parsed, succeed, refuse}

module _ {ℓ} {S : Type ℓ} where
  refuse-Keeps :
      (from : Text) (dest : S) (status : Status) (m : Message)
      → Keeps from (refuse from dest status m)
  refuse-Keeps from dest status m = record { restored = λ _. refl; consumed = []; splits = refl }

  succeed-Keeps :
      (from consumed rest : Text) (dest : S) (status : Status)
      → from ≡ consumed ++ rest
      → Keeps from (succeed rest dest status)
  succeed-Keeps from consumed rest dest status e = record {
    restored = λ h. cc;
    consumed = consumed;
    splits = e;
  }

  Keeps-by :
      (from consumed : Text) (r : Parsed S)
      → (r.ok ≡ false → r.from ≡ from)
      → (r.ok ≡ true → from ≡ consumed ++ r.from)
      → Keeps from r
  Keeps-by from consumed r back forth = elim (Bool-cases r.ok) [
    | inl e ↦ record { restored = back; consumed = consumed; splits = forth e }
    | inr e ↦ record { restored = back; consumed = []; splits = sym (back e) }
  ]

  pub parse_until-IsElement :
      (target : StringDest S) (constant : Option Text) (stop : ℕ) (stops : Text)
      → IsElement (parse_until target constant stop stops)
  unfolding parse_until
  parse_until-IsElement target constant stop stops from dest status =
      let len = constant_length constant in
      let matched = len + nearest stop stops (drop len from) in
      Keeps-by from (take matched from) (parse_until target constant stop stops from dest status)
        (λ h. ground arith) (λ h. ground (arith, take-append-drop matched from))

  pub parse_char-IsElement : (test : Text) → IsElement {S = S} (parse_char test)
  unfolding parse_char
  parse_char-IsElement test [] dest status = refuse-Keeps [] dest status _
  parse_char-IsElement test (c ∷ cs) dest status =
      Keeps-by (c ∷ cs) (c ∷ []) (parse_char test (c ∷ cs) dest status) (λ h. ground arith)
        (λ h. ground arith)

  pub parse_eob-IsElement : IsElement {S = S} parse_eob
  unfolding parse_eob
  parse_eob-IsElement [] dest status = succeed-Keeps [] [] [] dest status refl
  parse_eob-IsElement (c ∷ cs) dest status = refuse-Keeps (c ∷ cs) dest status _

spaces_of : Text → Text
spaces_of [] = []
spaces_of (c ∷ cs) = if is_space c then c ∷ spaces_of cs else []

skip_spaces-splits : (t : Text) → t ≡ spaces_of t ++ skip_spaces t
unfolding spaces_of skip_spaces
skip_spaces-splits [] = refl
skip_spaces-splits (c ∷ cs) = ground (arith, skip_spaces-splits cs)

digits_of : Text → Text
digits_of [] = []
digits_of (c ∷ cs) = if is_digit c then c ∷ digits_of cs else []

skip_digits-splits : (t : Text) → t ≡ digits_of t ++ skip_digits t
unfolding digits_of skip_digits
skip_digits-splits [] = refl
skip_digits-splits (c ∷ cs) = ground (arith, skip_digits-splits cs)

sign_of : Text → Text
sign_of [] = []
sign_of (c ∷ cs) = if c == b'-' || c == b'+' then c ∷ [] else []

module _ {ℓ} {S : Type ℓ} where
  pub parse_space-IsElement : IsElement {S = S} parse_space
  unfolding parse_space
  parse_space-IsElement [] dest status = refuse-Keeps [] dest status _
  parse_space-IsElement (c ∷ cs) dest status =
      Keeps-by (c ∷ cs) (c ∷ spaces_of cs) (parse_space (c ∷ cs) dest status) (λ h. ground arith)
        (λ h. ground (arith, skip_spaces-splits cs))

  pub parse_enum-IsElement {κ} :
      {V : Type κ} (table : List (Text × V)) (last : V) (put : V → S → S)
      → IsElement (parse_enum table last put)
  unfolding parse_enum
  parse_enum-IsElement [] last put from dest status = record {
    restored = λ _. refl;
    consumed = [];
    splits = refl;
  }
  parse_enum-IsElement ((constant, value) ∷ table) last put from dest status =
      let r = parse_until {S = S} none (some constant) b' ' enum_stops from dest status in
      let k = parse_until-IsElement none (some constant) b' ' enum_stops from dest status in
      elim (Bool-cases r.ok) [
        | inl f ↦
            rw (f, parse_enum)
              (record {
                restored = λ h. absurd (false≢true (sym h ∙ f));
                consumed = k.consumed;
                splits = k.splits;
              })
        | inr f ↦
            rw (f, parse_enum)
              (subst (λ x. Keeps x (parse_enum table last put r.from r.dest r.status))
                (k.restored f) (parse_enum-IsElement table last put r.from r.dest r.status))
      ]

  pub parse_bool-IsElement : (put : ℤ → S → S) → IsElement (parse_bool put)
  unfolding parse_bool
  parse_bool-IsElement = parse_enum-IsElement bools (pos 0)

  pub parse_word-IsElement :
      (target : StringDest S) (constant : Option Text) → IsElement (parse_word target constant)
  unfolding parse_word
  parse_word-IsElement target constant = parse_until-IsElement target constant b' ' word_stops

  pub parse_line-IsElement :
      (target : StringDest S) (constant : Option Text) → IsElement (parse_line target constant)
  unfolding parse_line
  parse_line-IsElement target constant = parse_until-IsElement target constant b'\r' (b'\n' ∷ [])

-- `strtol` reads a part of the text from its start.
strtol_read : Text → Text
strtol_read text =
    let body = skip_spaces text in
    let digits = skip_sign body in
    if starts_with_digit digits then spaces_of text ++ (sign_of body ++ digits_of digits) else []

sign_of-splits : (t : Text) → t ≡ sign_of t ++ skip_sign t
unfolding sign_of
sign_of-splits [] = refl
sign_of-splits (c ∷ cs) = ground arith

strtol-splits : (text : Text) → text ≡ strtol_read text ++ (strtol text).1
unfolding strtol strtol_read
strtol-splits text = elim (Bool-cases (starts_with_digit (skip_sign (skip_spaces text)))) [
  | inr e ↦ rw e
  | inl e ↦ rw e (
      skip_spaces-splits text
      ∙ ap (◌++◌ (spaces_of text)) (
          sign_of-splits (skip_spaces text)
          ∙ ap (◌++◌ (sign_of (skip_spaces text)))
              (skip_digits-splits (skip_sign (skip_spaces text))))
      ∙ simp append_assoc)
]

module _ {ℓ} {S : Type ℓ} where
  pub parse_int-IsElement : (put : ℤ → S → S) → IsElement (parse_int put)
  unfolding parse_int
  parse_int-IsElement put from dest status =
      Keeps-by from (strtol_read from) (parse_int put from dest status) (λ h. ground arith)
        (λ h. ground (arith, strtol-splits from))
