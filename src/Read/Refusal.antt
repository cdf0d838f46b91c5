-- ===== src/Read/Refusal.antt =====
-- What `ActionQueue_put` of src/actions.c says when it refuses a rule that `Action_init` read.
use libinject.Base.{
  ℕ, true, false, not, Bool, Option, none, some, ◌≡◌, ◌⊎◌, refl, ap, ◌∙◌, inl, inr, Text, pos,
  Bool-cases,
}
use libinject.Outcome.{done}
use libinject.Parser.Errors.{is_null, run-check_status}
use libinject.Parser.{Status, check_status, suite}
use libinject.Queue.Lines.{put_collision}
use libinject.Queue.{ActionQueue, line_at, put}
use libinject.Read.Arguments.{Beyond}
use libinject.Read.Hosts.{Resolver}
use libinject.Read.{action_init, action_parse, action_parser, defaults}
use libinject.Rule.{Action}

abbrev prepared : Action → Action
prepared a = record a { accessors = pos 0; emptying = false }

module _ (resolver : Resolver) (beyond : Beyond) (time : ℕ) (memory : Action) where
  action_parse-check_status :
      (instruction : Text) (status : Status)
      → let r = action_parse resolver beyond time memory instruction status in
        is_null r.status ≡ false → check_status r.status ≡ not r.ok
  unfolding action_parse
  action_parse-check_status instruction status h =
      run-check_status (action_parser resolver beyond time) suite instruction
        (defaults resolver beyond time memory) status (λ e. cc) h

  abbrev read : Text → Status → Option Action × Status
  read instruction status = action_init resolver beyond time memory instruction status

  -- `Action_init` with a status to write to: it gives no rule exactly where the status tells an
  -- error, and a rule that it gives has no accessor and is not being emptied.
  pub action_init-check_status :
      (instruction : Text) (status : Status)
      → is_null (read instruction status).1 ≡ false
      → (((read instruction status).0 ≡ none) × (check_status (read instruction status).1 ≡ true))
        ⊎ ((a : Action) × ((read instruction status).0 ≡ some a)
            × (check_status (read instruction status).1 ≡ false)
            × (a.accessors ≡ pos 0)
            × (a.emptying ≡ false))
  unfolding action_init
  action_init-check_status instruction status h =
      let r = action_parse resolver beyond time memory instruction status in
      let c = action_parse-check_status instruction status h in
      elim (Bool-cases r.ok) [
        | inr e ↦ inl (rw (e, action_init), c ∙ ap not e)
        | inl e ↦ inr (prepared r.dest, rw (e, action_init), c ∙ ap not e, refl, refl)
      ]

  -- A `put` of a text that was read with a status and that is refused while the status tells no
  -- error was refused because `replace` is not set and the rule's line holds another rule; the
  -- table is as it was.
  pub put-action_init :
      (q q' : ActionQueue) (replace mt : Bool) (instruction : Text) (status : Status)
      → is_null (read instruction status).1 ≡ false
      → check_status (read instruction status).1 ≡ false
      → put q (read instruction status).0 replace mt ≡ done (false, q')
      → (replace ≡ false)
        × (q' ≡ q)
        × ((i : ℕ) × (a : Action) × (old : Action) × ((read instruction status).0 ≡ some a)
            × (a.pos ≡ pos i)
            × (line_at q i ≡ some old))
  put-action_init q q' replace mt instruction status h clear refused =
      elim (action_init-check_status instruction status h) [
        | inl (_, c) ↦ absurd (cc)
        | inr (a, e, _, _, _) ↦
            let (kept, same, (i, old, p, o)) = put_collision q q' a replace mt (rw e at refused) in
            (kept, same, (i, a, old, e, p, o))
      ]
