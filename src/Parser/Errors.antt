-- ===== src/Parser/Errors.antt =====
-- The status after a run of src/parser.c, which tells a refused rule from a colliding line.
use libinject.Base.{
  Bool, true, false, not, none, some, ◌≡◌, ◌≢◌, inl, inr, refl, arith, Text, Bool-cases,
}
use libinject.Parser.{
  Message, Status, set_status, clear_status, check_status, ParserBehaviour, suite, first, optional,
  negated, Parser, parser, Pieces, no_more, more, run_piece, run_parser, run_suite, run_first, run,
}

abbrev pub is_null : Status → Bool
is_null none = true
is_null (some s) = false

check_clear : (s : Status) → check_status (clear_status s) ≡ false
unfolding check_status clear_status
check_clear none = refl
check_clear (some s) = refl

check_set :
    (s : Status) (at : Text) (m : Message) (force : Bool)
    → is_null (set_status s at m force) ≡ false
    → check_status (set_status s at m force) ≡ true
unfolding check_status set_status
check_set none at m force h = cc
check_set (some s) at m force h = ground arith

module _ {ℓ} {S : Type ℓ} where
  suite-status :
      (ps : Pieces S) (from string : Text) (dest : S) (status : Status)
      → let r = run_suite from ps string dest status in
        is_null r.status ≡ false → check_status r.status ≡ not r.ok
  unfolding run_suite
  suite-status no_more from string dest status = λ _. check_clear status
  suite-status (more p ps) from string dest status =
      let r = run_piece p string dest status in
      elim (Bool-cases r.ok) [
        | inl f ↦ rw f (suite-status ps from r.from r.dest r.status)
        | inr f ↦ rw f (check_set r.status from _ false)
      ]

  first-status :
      (ps : Pieces S) (from : Text) (dest : S) (status : Status)
      → let r = run_first ps from dest status in
        is_null r.status ≡ false → check_status r.status ≡ not r.ok
  unfolding run_first
  first-status no_more from dest status = check_set status from _ true
  first-status (more p ps) from dest status =
      let r = run_piece p from dest status in
      elim (Bool-cases r.ok) [
        | inl f ↦ rw f (λ _. check_clear r.status)
        | inr f ↦ rw f (first-status ps r.from r.dest r.status)
      ]

  -- After a run under `suite`, `first` or `optional` that has a status, `ParserStatus_check` tells an
  -- error exactly if the run failed, whatever the elements left in the status.
  pub run-check_status :
      (p : Parser S) (b : ParserBehaviour) (string : Text) (dest : S) (status : Status)
      → b ≢ negated
      → is_null (run p string b dest status).status ≡ false
      → check_status (run p string b dest status).status ≡ not (run p string b dest status).ok
  unfolding run run_parser
  run-check_status (parser c ps) suite string dest status ne h =
      suite-status ps string string dest status h
  run-check_status (parser c ps) first string dest status ne h =
      first-status ps string dest status h
  run-check_status (parser c ps) optional string dest status ne h =
      check_clear (run_suite string ps string dest status).status
  run-check_status (parser c ps) negated string dest status ne h = absurd (ne refl)
