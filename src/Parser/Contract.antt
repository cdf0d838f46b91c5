-- ===== src/Parser/Contract.antt =====
-- The contract that src/parser.h states for every `ParserElement`, and the status after a run.
use mathlib.Core.List.{append_assoc}
use libinject.Base.{
  ℕ, true, false, [], ◌++◌, ◌≡◌, ◌≢◌, inl, inr, refl, sym, ap, subst, ◌∙◌, Text, Bool-cases,
}
use libinject.Parser.{
  Status, Parsed, ParserElement, ParserBehaviour, suite, first, optional, negated, Parser, parser,
  Pieces, no_more, more, Piece, element, sub, run_piece, run_parser, run_suite, run_first, run,
}

-- A failed element leaves `*from` where it was, and `*from` only moves forward.
pub record Keeps {ℓ} {S : Type ℓ} (from : Text) (r : Parsed S) : Type ℓ where
  pub restored : r.ok ≡ false → r.from ≡ from
  pub consumed : Text
  pub splits : from ≡ consumed ++ r.from

module _ {ℓ} {S : Type ℓ} where
  abbrev pub IsElement : ParserElement S → Type ℓ
  IsElement e = (from : Text) (dest : S) (status : Status) → Keeps from (e from dest status)

-- Trees whose elements keep the contract, with no `Parse_false` in them.
mutual
  pub data GoodParser {ℓ} {S : Type ℓ} : Parser S → Type ℓ where
    good : {c : ℕ} {ps : Pieces S} → GoodPieces ps → GoodParser (parser c ps)

  pub data GoodPieces {ℓ} {S : Type ℓ} : Pieces S → Type ℓ where
    nil : GoodPieces no_more
    cons : {p : Piece S} {ps : Pieces S} → GoodPiece p → GoodPieces ps → GoodPieces (more p ps)

  pub data GoodPiece {ℓ} {S : Type ℓ} : Piece S → Type ℓ where
    leaf : {e : ParserElement S} → IsElement e → GoodPiece (element e)
    suite_branch : {p : Parser S} → GoodParser p → GoodPiece (sub suite p)
    first_branch : {p : Parser S} → GoodParser p → GoodPiece (sub first p)
    optional_branch : {p : Parser S} → GoodParser p → GoodPiece (sub optional p)

module _ {ℓ} {S : Type ℓ} where
  stay : {from : Text} {r : Parsed S} → r.from ≡ from → Keeps from r
  stay e = record { restored = λ _. e; consumed = []; splits = sym e }

mutual
  unfolding run_piece

  piece-Keeps {ℓ} : {S : Type ℓ} {p : Piece S} → GoodPiece p → IsElement (run_piece p)
  piece-Keeps (leaf h) from dest status = h from dest status
  piece-Keeps (suite_branch (good g)) from dest status = suite-Keeps g from [] from dest status refl
  piece-Keeps (first_branch (good g)) from dest status = first-Keeps g from dest status
  piece-Keeps (optional_branch (good g)) from dest status =
      let k = suite-Keeps g from [] from dest status refl in
      record { restored = λ n. cc; consumed = k.consumed; splits = k.splits }

  suite-Keeps {ℓ} :
      {S : Type ℓ} {ps : Pieces S}
      → GoodPieces ps
      → (from before string : Text) (dest : S) (status : Status) → from ≡ before ++ string
      → Keeps from (run_suite from ps string dest status)
  suite-Keeps nil from before string dest status e = record {
    restored = λ n. cc;
    consumed = before;
    splits = e;
  }
  suite-Keeps (cons {p} {ps} g gs) from before string dest status e =
      let r = run_piece p string dest status in
      let k = piece-Keeps g string dest status in
      elim (Bool-cases r.ok) [
        | inr f ↦ rw f (stay refl)
        | inl f ↦ rw f (
            suite-Keeps gs from (before ++ k.consumed) r.from r.dest r.status
              (e ∙ ap (◌++◌ before) k.splits ∙ sym (append_assoc before k.consumed r.from)))
      ]

  first-Keeps {ℓ} :
      {S : Type ℓ} {ps : Pieces S}
      → GoodPieces ps
      → (from : Text) (dest : S) (status : Status) → Keeps from (run_first ps from dest status)
  first-Keeps nil from dest status = stay refl
  first-Keeps (cons {p} {ps} g gs) from dest status =
      let r = run_piece p from dest status in
      let k = piece-Keeps g from dest status in
      elim (Bool-cases r.ok) [
        | inl f ↦ rw f (record { restored = λ n. cc; consumed = k.consumed; splits = k.splits })
        | inr f ↦ rw f (
            subst (λ x. Keeps x (run_first ps r.from r.dest r.status)) (k.restored f)
              (first-Keeps gs r.from r.dest r.status))
      ]

module _ {ℓ} {S : Type ℓ} where
  -- `Parser_run` on a tree without `Parse_false` each of whose leaves puts the position back where it
  -- fails and only moves it forward, under each behaviour but `Parse_false`: if it fails the position
  -- is the start of the string, and in any case what was consumed and what is left make up the
  -- string.
  pub run-Keeps :
      {p : Parser S}
      → GoodParser p
      → (b : ParserBehaviour) (string : Text) (dest : S) (status : Status) → b ≢ negated
      → Keeps string (run p string b dest status)
  unfolding run run_parser run_piece
  run-Keeps {p} g suite string dest status ne = piece-Keeps (suite_branch g) string dest status
  run-Keeps {p} g first string dest status ne = piece-Keeps (first_branch g) string dest status
  run-Keeps {p} g optional string dest status ne =
      piece-Keeps (optional_branch g) string dest status
  run-Keeps {p} g negated string dest status ne = absurd (ne refl)

  -- `Parse_false` on a suite that matches fails with the text consumed: it breaks the contract
  -- wherever the suite consumes something.
  negated_breaks :
      (p : Parser S) (string : Text) (dest : S) (status : Status)
      → (run p string suite dest status).ok ≡ true
      → (run p string suite dest status).from ≢ string
      → Keeps string (run p string negated dest status)
      → ⊥
  unfolding run run_parser
  negated_breaks (parser c ps) string dest status h moved k = moved (k.restored (rw h))
