-- ===== src/Runtime/Edits.antt =====
-- What the command `add` of src/runtime.c does to the table of rules, and what it answers.
use libinject.Base.{
  ℕ, ◌<◌, ◌≤◌, Bool, true, false, Option, none, some, ◌≡◌, ◌⊎◌, inl, inr, refl, arith, ltb, length,
  set, Text, pos, negsuc, ℤ-cases, Option-cases, Bool-cases,
}
use libinject.Outcome.{Outcome, done, fault, out_of_bounds}
use libinject.Parser.Errors.{is_null}
use libinject.Parser.{Status}
use libinject.Queue.Lines.{put_outside}
use libinject.Queue.{ActionQueue, line_at, put}
use libinject.Read.Arguments.{Beyond}
use libinject.Read.Hosts.{Resolver}
use libinject.Read.Refusal.{action_init-check_status}
use libinject.Read.{action_init}
use libinject.Rule.{Action}
use libinject.Runtime.{Session, Reply, finished, invalid_rule, collision, reply, run_add}

pub put_unread : (q : ActionQueue) (replace mt : Bool) → put q none replace mt ≡ done (false, q)
unfolding put
put_unread q replace mt = refl

pub put_free :
    (q : ActionQueue) (a : Action) (replace mt : Bool) (i : ℕ)
    → a.pos ≡ pos i
    → i < length q
    → line_at q i ≡ none
    → put q (some a) replace mt ≡ done (true, set q i (some a))
unfolding put
put_free q a replace mt i e lt free = ground arith

put_taken :
    (q : ActionQueue) (a old : Action) (mt : Bool) (i : ℕ)
    → a.pos ≡ pos i
    → i < length q
    → line_at q i ≡ some old
    → put q (some a) false mt ≡ done (false, q)
unfolding put
put_taken q a old mt i e lt taken = ground arith

module _ (resolver : Resolver) (beyond : Beyond) (time : ℕ) (memory : Action) where
  abbrev pub rule_of : Text → Session → Option Action
  rule_of line s = (action_init resolver beyond time memory line s.status).0

  abbrev pub status_of : Text → Session → Status
  status_of line s = (action_init resolver beyond time memory line s.status).1

  -- The session after an answer, with the table given.
  abbrev pub answered : Text → Session → ActionQueue → Reply → Session
  answered line s q r = reply (record s { queue = q; status = status_of line s }) r

  -- The four ends of `add`.
  pub data AddEnd (line : Text) (s : Session) (m : Outcome Session) : Type 0 where
    not_read :
        rule_of line s ≡ none
        → m ≡ done (answered line s s.queue (invalid_rule (status_of line s)))
        → AddEnd line s m
    added :
        (i : ℕ) (a : Action)
        → rule_of line s ≡ some a
        → a.pos ≡ pos i
        → i < length s.queue
        → line_at s.queue i ≡ none
        → m ≡ done (answered line s (set s.queue i (some a)) finished)
        → AddEnd line s m
    taken :
        (i : ℕ) (a old : Action)
        → rule_of line s ≡ some a
        → a.pos ≡ pos i
        → i < length s.queue
        → line_at s.queue i ≡ some old
        → m ≡ done (answered line s s.queue collision)
        → AddEnd line s m
    outside :
        (n : ℕ) (a : Action)
        → rule_of line s ≡ some a
        → (a.pos ≡ negsuc n) ⊎ ((a.pos ≡ pos n) × (length s.queue ≤ n))
        → m ≡ fault out_of_bounds
        → AddEnd line s m

  -- The command `add` with a status to write to: a text that is no rule changes nothing and is
  -- answered with the error; a rule for an empty line of the table is stored there and no other line
  -- changes; a rule for a line that is taken changes nothing and is answered as a collision; and a
  -- rule for a line outside the table is written outside it.
  pub run_add-AddEnd :
      (line : Text) (s : Session)
      → is_null (status_of line s) ≡ false
      → AddEnd line s (run_add resolver beyond time memory line s)
  unfolding run_add
  run_add-AddEnd line s h =
      elim (action_init-check_status resolver beyond time memory line s.status h) [
        | inl (e, bad) ↦ not_read e (rw (e, bad, put_unread) refl)
        | inr (a, e, good, _, _) ↦ elim (ℤ-cases a.pos) [
          | inr (n, neg) ↦
              outside n a e (inl neg) (rw (e, put_outside s.queue a false true n (inl neg)) refl)
          | inl (i, at) ↦ elim (Bool-cases (ltb i (length s.queue))) [
            | inr out ↦
                let far : (a.pos ≡ pos i) × (length s.queue ≤ i) = (at, ground arith) in
                outside i a e (inr far) (rw (e, put_outside s.queue a false true i (inr far)) refl)
            | inl inside ↦ elim (Option-cases (line_at s.queue i)) [
              | inl free ↦
                  let lt : i < length s.queue = ground arith in
                  added i a e at lt free (rw (e, put_free s.queue a false true i at lt free) refl)
              | inr (old, o) ↦
                  let lt : i < length s.queue = ground arith in
                  taken i a old e at lt o
                    (rw (e, put_taken s.queue a old true i at lt o, good) refl)
            ]
          ]
        ]
      ]
