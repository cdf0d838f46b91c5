-- ===== src/Runtime/Replacement.antt =====
-- The command `replace` of `Runtime_thread` of src/runtime.c.
use libinject.Base.{
  ℕ, ◌<◌, ◌≤◌, true, false, Option, none, some, ◌≡◌, ◌⊎◌, inl, inr, refl, arith, length, ltb, set,
  Text, pos, negsuc, ltb_ℤ, ℤ-cases, Bool-cases, Option-cases,
}
use libinject.Outcome.{Outcome, done, fault, out_of_bounds, deadlock}
use libinject.Parser.Errors.{is_null}
use libinject.Queue.Lines.{put_outside}
use libinject.Queue.{ActionQueue, line_at, put}
use libinject.Read.Arguments.{Beyond}
use libinject.Read.Hosts.{Resolver}
use libinject.Read.Refusal.{action_init-check_status}
use libinject.Rule.{Action}
use libinject.Runtime.Edits.{rule_of, status_of, answered, put_free, put_unread}
use libinject.Runtime.{Session, Reply, finished, invalid_replacement, run_replace}

put_over :
    (q : ActionQueue) (a old : Action) (i : ℕ)
    → a.pos ≡ pos i
    → i < length q
    → line_at q i ≡ some old
    → ltb_ℤ (pos 0) old.accessors ≡ false
    → put q (some a) true true ≡ done (true, set q i (some a))
unfolding put
put_over q a old i e lt taken idle = ground arith

put_used :
    (q : ActionQueue) (a old : Action) (i : ℕ)
    → a.pos ≡ pos i
    → i < length q
    → line_at q i ≡ some old
    → ltb_ℤ (pos 0) old.accessors ≡ true
    → put q (some a) true true ≡ fault deadlock
unfolding put
put_used q a old i e lt taken used = ground arith

module _ (resolver : Resolver) (beyond : Beyond) (time : ℕ) (memory : Action) (line : Text)
    (s : Session) where
  abbrev rule : Option Action
  rule = rule_of resolver beyond time memory line s

  abbrev after : ActionQueue → Reply → Session
  after q r = answered resolver beyond time memory line s q r

  -- The ends of `replace`.
  pub data ReplaceEnd (m : Outcome Session) : Type 0 where
    not_read : rule ≡ none → m ≡ done (after s.queue (invalid_replacement line)) → ReplaceEnd m
    stored :
        (i : ℕ) (a : Action)
        → rule ≡ some a
        → a.pos ≡ pos i
        → i < length s.queue
        → line_at s.queue i ≡ none
        → m ≡ done (after (set s.queue i (some a)) finished)
        → ReplaceEnd m
    replaced :
        (i : ℕ) (a old : Action)
        → rule ≡ some a
        → a.pos ≡ pos i
        → i < length s.queue
        → line_at s.queue i ≡ some old
        → ltb_ℤ (pos 0) old.accessors ≡ false
        → m ≡ done (after (set s.queue i (some a)) finished)
        → ReplaceEnd m
    in_use :
        (i : ℕ) (a old : Action)
        → rule ≡ some a
        → a.pos ≡ pos i
        → line_at s.queue i ≡ some old
        → ltb_ℤ (pos 0) old.accessors ≡ true
        → m ≡ fault deadlock
        → ReplaceEnd m
    outside :
        (n : ℕ) (a : Action)
        → rule ≡ some a
        → (a.pos ≡ negsuc n) ⊎ ((a.pos ≡ pos n) × (length s.queue ≤ n))
        → m ≡ fault out_of_bounds
        → ReplaceEnd m

  abbrev ended : Outcome Session
  ended = run_replace resolver beyond time memory line s

  inside-ReplaceEnd :
      (i : ℕ) (a : Action) → rule ≡ some a → a.pos ≡ pos i → i < length s.queue → ReplaceEnd ended
  unfolding run_replace
  inside-ReplaceEnd i a e at lt = elim (Option-cases (line_at s.queue i)) [
    | inl free ↦ stored i a e at lt free (rw (e, put_free s.queue a true true i at lt free) refl)
    | inr (old, o) ↦ elim (Bool-cases (ltb_ℤ (pos 0) old.accessors)) [
      | inl used ↦ in_use i a old e at o used (rw (e, put_used s.queue a old i at lt o used) refl)
      | inr idle ↦
          replaced i a old e at lt o idle (rw (e, put_over s.queue a old i at lt o idle) refl)
    ]
  ]

  -- The command `replace` with a status to write to: a text that is no rule leaves the table as it is
  -- and is answered with the text; a rule for a line of the table that is empty, or whose rule nothing
  -- uses, is stored there and no other line changes; a rule in use is waited for, which alone would
  -- never end; and a rule for a line outside the table is written outside it.
  pub run_replace-ReplaceEnd :
      is_null (status_of resolver beyond time memory line s) ≡ false
      → ReplaceEnd (run_replace resolver beyond time memory line s)
  unfolding run_replace
  run_replace-ReplaceEnd h =
      elim (action_init-check_status resolver beyond time memory line s.status h) [
        | inl (e, bad) ↦ not_read e (rw (e, bad, put_unread) refl)
        | inr (a, e, good, _, _) ↦ elim (ℤ-cases a.pos) [
          | inr (n, neg) ↦
              outside n a e (inl neg) (rw (e, put_outside s.queue a true true n (inl neg)) refl)
          | inl (i, at) ↦ elim (Bool-cases (ltb i (length s.queue))) [
            | inl in_table ↦ inside-ReplaceEnd i a e at (ground arith)
            | inr out ↦
                let far : (a.pos ≡ pos i) × (length s.queue ≤ i) = (at, ground arith) in
                outside i a e (inr far) (rw (e, put_outside s.queue a true true i (inr far)) refl)
          ]
        ]
      ]
