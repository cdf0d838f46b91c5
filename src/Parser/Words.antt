-- ===== src/Parser/Words.antt =====
-- `Parse_until` of src/parser.c: which texts it takes.
use mathlib.Core.Bool.{false≢true}
use libinject.Base.{
  ℕ, suc, ◌+◌, ◌≤◌, ◌<◌, Bool, true, false, not, none, some, [], ◌∷◌, ◌++◌, ◌≡◌, ◌≢◌, ◌↔◌, inl, inr,
  refl, sym, ap, subst, arith, if◌then◌else◌, ◌==◌, ltb, length, take, drop, length-append,
  take-append-drop, Text, text_eq, Bool-cases,
}
use libinject.Parser.Elements.{
  stop_at, nearest, parse_until, StringDest, store_string, because, is_one_of,
}
use libinject.Parser.{Status, Parsed, refuse, succeed}

-- The text is at its end or at one of the characters.
abbrev pub at_stop : Text → Text → Bool
at_stop stops [] = true
at_stop stops (c ∷ cs) = is_one_of stops c

-- None of the bytes is one of the characters.
abbrev pub AllFree : Text → Text → Type 0
AllFree stops [] = Unit
AllFree stops (c ∷ cs) = (is_one_of stops c ≡ false) × AllFree stops cs

stop_at-le : (stop : ℕ) (from : Text) → stop_at stop from ≤ length from
unfolding stop_at
stop_at-le stop [] = omega arith
stop_at-le stop (c ∷ cs) = ground (arith, stop_at-le stop cs)

pub nearest-le : (stop : ℕ) (stops from : Text) → nearest stop stops from ≤ length from
unfolding nearest
nearest-le stop [] from = stop_at-le stop from
nearest-le stop (next ∷ stops) from = omega (arith, stop_at-le stop from)

-- One more byte at the front.
nearest-cons :
    (stop c : ℕ) (stops from : Text)
    → nearest stop stops (c ∷ from)
      ≡ (if is_one_of (stop ∷ stops) c then 0 else suc (nearest stop stops from))
unfolding nearest stop_at
nearest-cons stop c [] from = ground arith
nearest-cons stop c (next ∷ stops) from = ground (arith, nearest-cons next c stops from)

nearest-nil : (stop : ℕ) (stops : Text) → nearest stop stops [] ≡ 0
unfolding nearest stop_at
nearest-nil stop [] = refl
nearest-nil stop (next ∷ stops) = ground (arith, nearest-nil next stops)

-- The loop stops at the end or at a stop, and not before.
pub nearest-splits :
    (stop : ℕ) (stops from : Text)
    → let n = nearest stop stops from in
      AllFree (stop ∷ stops) (take n from) × (at_stop (stop ∷ stops) (drop n from) ≡ true)
nearest-splits stop stops [] = rw nearest-nil (tt, refl)
nearest-splits stop stops (c ∷ from) = elim (Bool-cases (is_one_of (stop ∷ stops) c)) [
  | inl e ↦ rw (nearest-cons, e) (tt, e)
  | inr e ↦
      rw (nearest-cons, e)
        ((e, (nearest-splits stop stops from).0), (nearest-splits stop stops from).1)
]

nearest-eq-zero :
    (stop : ℕ) (stops from : Text)
    → (nearest stop stops from ≡ 0) ↔ (at_stop (stop ∷ stops) from ≡ true)
nearest-eq-zero stop stops [] = rw nearest-nil (λ _. refl, λ _. refl)
nearest-eq-zero stop stops (c ∷ from) = rw nearest-cons (ground arith)

text_eq_iff : (a b : Text) → (text_eq a b ≡ true) ↔ (a ≡ b)
text_eq_iff (x ∷ a) (y ∷ b) = ground (arith, text_eq_iff a b)
text_eq_iff [] [] = ground arith
text_eq_iff [] (y ∷ b) = ground arith
text_eq_iff (x ∷ a) [] = ground arith

drop-length : (w rest : Text) → drop (length w) (w ++ rest) ≡ rest
drop-length [] rest = refl
drop-length (c ∷ w) rest = drop-length w rest

take-length : (w rest : Text) → take (length w) (w ++ rest) ≡ w
take-length [] rest = refl
take-length (c ∷ w) rest = ap (◌∷◌ c) (take-length w rest)

length_pos : (t : Text) → t ≢ [] → 0 < length t
length_pos [] h = absurd (h refl)
length_pos (c ∷ t) h = omega arith

-- `from` splits behind the constant.
take_constant :
    (constant from : Text)
    → from ≡ constant ++ drop (length constant) from
    → (take (length constant) from ≡ constant) × (length constant ≤ length from)
take_constant constant from e = (
  subst (λ t. take (length constant) t ≡ constant) (sym e) (take-length constant _),
  omega (arith, ap length e, length-append constant (drop (length constant) from)),
)

module _ {ℓ} {S : Type ℓ} (target : StringDest S) (stop : ℕ) (stops : Text) where
  matched_iff :
      (constant from : Text) (dest : S) (status : Status)
      → ((parse_until target (some constant) stop stops from dest status).ok ≡ true) ↔ (
          (constant ≢ [])
          × (from ≡ constant ++ drop (length constant) from)
          × (at_stop (stop ∷ stops) (drop (length constant) from) ≡ true))
  unfolding parse_until
  matched_iff constant from dest status = (
    λ h. ground (
      arith,
      text_eq_iff (take (length constant) from) constant,
      take-append-drop (length constant) from,
      nearest-eq-zero stop stops (drop (length constant) from),
    ),
    λ h. ground (
      arith,
      text_eq_iff (take (length constant) from) constant,
      take_constant constant from h.1,
      nearest-eq-zero stop stops (drop (length constant) from),
      length_pos constant h.0,
    ),
  )

  left-constant :
      (constant from : Text) (dest : S) (status : Status)
      → let r = parse_until target (some constant) stop stops from dest status in
        r.from ≡ (if r.ok then drop (length constant) from else from)
  unfolding parse_until
  left-constant constant from dest status = ground (
    arith,
    text_eq_iff (take (length constant) from) constant,
    nearest-eq-zero stop stops (drop (length constant) from),
  )

  -- A constant is matched exactly if it is not empty and the text is the constant and then its
  -- end or a stop. What is left is then the text behind the constant, and it is the whole text where
  -- the constant is not matched.
  pub parse_until-constant :
      (constant from : Text) (dest : S) (status : Status)
      → let r = parse_until target (some constant) stop stops from dest status in
        ((r.ok ≡ true) ↔ (
          (constant ≢ [])
          × (from ≡ constant ++ drop (length constant) from)
          × (at_stop (stop ∷ stops) (drop (length constant) from) ≡ true)))
        × (r.from ≡ (if r.ok then drop (length constant) from else from))
  parse_until-constant constant from dest status =
      (matched_iff constant from dest status, left-constant constant from dest status)

  word_parsed : Text → S → Status → Parsed S
  word_parsed from dest status =
      let n = nearest stop stops from in
      let dest' = store_string target none dest in
      if n == 0
      then refuse from dest' status (because "Parse_until" "Reading an empty word")
      else succeed (drop n from) (store_string target (some (take n from)) dest') status

  parse_until-none :
      (from : Text) (dest : S) (status : Status)
      → parse_until target none stop stops from dest status ≡ word_parsed from dest status
  unfolding parse_until word_parsed
  parse_until-none from dest status =
      let z : 0 + nearest stop stops from ≡ nearest stop stops from = omega arith in
      let l : ltb (length from) 0 ≡ false = ground arith in rw (l, z)

  -- With no constraint a word is read exactly if the text does not start at a stop: it is the
  -- longest one without stops, and it is stored.
  pub parse_until-word :
      (from : Text) (dest : S) (status : Status)
      → let r = parse_until target none stop stops from dest status in
        let word = take (nearest stop stops from) from in
        (r.ok ≡ not (at_stop (stop ∷ stops) from))
        × (r.ok ≡ true
            → (from ≡ word ++ r.from)
              × AllFree (stop ∷ stops) word
              × (at_stop (stop ∷ stops) r.from ≡ true)
              × (r.dest ≡ store_string target (some word) (store_string target none dest)))
  unfolding word_parsed
  parse_until-word from dest status = rw (parse_until-none from dest status) (
      let (free, end) = nearest-splits stop stops from in
      let z = nearest-eq-zero stop stops from in
      elim (Bool-cases (nearest stop stops from == 0)) [
        | inl e ↦ rw e (ground (arith, z), λ h. absurd (false≢true h))
        | inr e ↦ rw e (
          ground (arith, z),
          λ h. (sym (take-append-drop (nearest stop stops from) from), free, end, refl),
        )
      ])
