-- ===== src/Read.antt =====
-- The reading of a rule in src/actions.c: `Action_init` and the parser tree that it runs. The
-- addresses of names come from the resolver, a parameter. `memory` is what the new action holds
-- before it is filled. Arguments has what src/conditions and src/actions read behind a
-- condition's or an action's name, Hosts the address part; Combine and Names are shared by these,
-- Refusal proves.
pub mod Combine
pub mod Names
pub mod Arguments
pub mod Hosts
pub mod Refusal
use libinject.Base.{
  ℕ, Bool, true, false, ◌||◌, Option, none, some, List, [], ◌∷◌, if◌then◌else◌, Text, text_eq,
  codes, ℤ, pos,
}
use libinject.Parser
use libinject.Parser.Elements.{parse_word, parse_space, parse_eob, parse_enum, because}
use libinject.Parser.Numbers.{parse_int}
use libinject.Parser.{
  Status, Message, ParserElement, Parsed, Parser, Piece, element, sub, suite, first, optional, add,
  refuse,
}
use libinject.Read.Arguments.{Beyond, condition_set, task_set}
use libinject.Read.Combine.{add_spaced, add_spaced_constant, chain, named, Entry, argument, focus}
use libinject.Read.Hosts.{Resolver, parse_host}
use libinject.Rule.{
  Action, ActionCondition, ActionConditionType, ActionData, ActionMode, ActionGoto, ActionGotoType,
  ActionTask, ActionTaskType, always, normal, once, once_per_call, once_per_socket, continue, goto,
  next, exec, stop, nop,
}
use libinject.Socket.{
  SocketInfoDirection, connecting, closing, data_dir, any_dir, Proto, tcp, udp, ip, HostAddress,
  nobody,
}

-- `Action_parse_with`: it reads nothing.
unfoldable pub parse_with : ParserElement Action
parse_with from a status = record {
  ok = true;
  from = from;
  dest = record a { direction = any_dir };
  status = status;
}

abbrev parse_direction : Text → SocketInfoDirection → ParserElement SocketInfoDirection
parse_direction word direction from d status =
    let r = parse_word none (some word) from d status in
    elim r.ok [ true ↦ record r { dest = direction } | false ↦ r ]

-- `Action_parse_connect`
unfoldable pub parse_connect : ParserElement SocketInfoDirection
parse_connect = parse_direction (codes "connect") connecting

-- `Action_parse_close`
unfoldable pub parse_close : ParserElement SocketInfoDirection
parse_close = parse_direction (codes "close") closing

-- What follows the name of a condition or of an action, whose type is written on success.
abbrev parse_rest : {V S : Type 0} → (V → S → S) → Text → Entry V S → ParserElement S
parse_rest put start (type, arg) source dest status =
    let r = argument arg start source dest status in
    elim r.ok [ true ↦ record r { dest = put type r.dest } | false ↦ r ]

-- The body that `Action_parse_condition` and `Action_parse_action` share.
parse_named : {V S : Type 0} → List (Text × Entry V S) → (V → S → S) → Message → ParserElement S
parse_named table put error from dest status =
    let r = parse_word (some (λ text _. text)) none from none status in
    elim r.ok [
      | false ↦ record { ok = false; from = from; dest = dest; status = r.status }
      | true ↦ elim (named table r.dest) [
        | none ↦ refuse from dest r.status error
        | some entry ↦ parse_rest put from entry r.from dest r.status
      ]
    ]

unfoldable pub parse_condition : ℕ → ParserElement ActionCondition
unfolding parse_named
parse_condition time =
    parse_named (condition_set time) (λ type c. record c { type = type })
      (because "Action_parse_condition" "Condition name expected")

unfoldable pub parse_action : Beyond → ParserElement ActionTask
unfolding parse_named
parse_action beyond =
    parse_named (task_set beyond) (λ type t. record t { type = type })
      (because "Action_parse_action" "Action name expected")

abbrev gotos : List (Text × ActionGotoType)
gotos =
    (codes "continue", continue)
    ∷ (codes "goto", goto)
    ∷ (codes "next", next)
    ∷ (codes "exec", exec)
    ∷ (codes "stop", stop)
    ∷ []

abbrev pub takes_line : ActionGotoType → Bool
takes_line goto = true
takes_line exec = true
takes_line _ = false

abbrev put_next : ActionGotoType → ActionGoto → ActionGoto
put_next type g = record g { type = type }

abbrev put_line : ℤ → ActionGoto → ActionGoto
put_line line g = record g { line = line }

-- `Action_parse_next`
unfoldable pub parse_next : ParserElement ActionGoto
parse_next from g status =
    let r = parse_enum gotos stop put_next from (record g { line = pos 0 }) status in
    elim r.ok [
      | false ↦ record r { from = from }
      | true ↦
          if takes_line r.dest.type
          then chain (parse_space ∷ parse_int put_line ∷ []) from r.from r.dest r.status
          else r
    ]

abbrev protos : List (Text × Proto)
protos = (codes "ip", ip) ∷ (codes "tcp", tcp) ∷ (codes "udp", udp) ∷ []

abbrev do_modes : List (Text × ActionMode)
do_modes =
    (codes "do", normal)
    ∷ (codes "do-once", once)
    ∷ (codes "do-once-per-call", once_per_call)
    ∷ (codes "do-once-per-socket", once_per_socket)
    ∷ []

module _ (resolver : Resolver) (beyond : Beyond) (time : ℕ) where
  abbrev at_from : ParserElement HostAddress → ParserElement Action
  at_from = focus (λ a. a.from) (λ h a. record a { from = h })

  abbrev at_to : ParserElement HostAddress → ParserElement Action
  at_to = focus (λ a. a.to) (λ h a. record a { to = h })

  abbrev at_direction : ParserElement SocketInfoDirection → ParserElement Action
  at_direction = focus (λ a. a.direction) (λ d a. record a { direction = d })

  -- `with host`
  pub with_parser : Parser Action
  with_parser =
      add (add_spaced Parser.init (at_from (parse_host resolver (codes "with"))))
        (element parse_with)

  -- `connect`, `close` or `from host`, and then `to host`
  pub one_way_parser : Parser Action
  one_way_parser =
      add_spaced
        (add Parser.init (
          sub first (
            add_spaced
              (add_spaced (add_spaced Parser.init (at_direction parse_connect))
                (at_direction parse_close))
              (at_from (parse_host resolver (codes "from"))))))
        (at_to (parse_host resolver (codes "to")))

  pub hosts_parser : Parser Action
  unfolding with_parser one_way_parser
  hosts_parser =
      add
        (add_spaced (add Parser.init (sub suite with_parser))
          (at_from (parse_host resolver (codes "talk-with"))))
        (sub suite one_way_parser)

  pub when_parser : Parser Action
  when_parser =
      add_spaced (add_spaced_constant Parser.init (codes "when"))
        (focus (λ a. a.condition) (λ c a. record a { condition = c }) (parse_condition time))

  -- The default of a word that is no mode is 0, `AM_Normal`.
  pub do_parser : Parser Action
  do_parser =
      add_spaced
        (add_spaced Parser.init (parse_enum do_modes normal (λ mode a. record a { mode = mode })))
        (focus (λ a. a.task) (λ t a. record a { task = t }) (parse_action beyond))

  -- The tree that `Action_parse` builds. The value beside the closing NULL of the protocols is 0,
  -- which is no protocol; a rule with it is never used, as the parse has failed.
  pub action_parser : Parser Action
  unfolding hosts_parser when_parser do_parser
  action_parser =
      let line = add_spaced Parser.init (parse_int (λ n a. record a { pos = n })) in
      let proto =
        add_spaced (add_spaced_constant line (codes "on"))
          (parse_enum protos ip (λ p a. record a { proto = p })) in
      let hosts = add proto (sub first hosts_parser) in
      let when_ = add hosts (sub optional when_parser) in
      let task = add when_ (sub optional do_parser) in
      let jump =
        add task (element (focus (λ a. a.next) (λ g a. record a { next = g }) parse_next)) in
      add (add jump (sub optional (add Parser.init (element parse_space)))) (element parse_eob)

  abbrev pub defaults : Action → Action
  defaults a = record a {
    direction = data_dir;
    condition = record a.condition { type = always };
    mode = normal;
    task = record a.task { type = nop };
    from = record a.from { type = nobody };
    to = record a.to { type = nobody };
  }

  unfoldable pub action_parse : Action → Text → Status → Parsed Action
  unfolding action_parser
  action_parse a instruction status = Parser.run action_parser instruction suite (defaults a) status

  -- `Action_init`: the action, or NULL, and the status.
  unfoldable pub action_init : Action → Text → Status → Option Action × Status
  unfolding action_parse
  action_init memory instruction status =
      let r = action_parse memory instruction status in
      (
        elim r.ok [
          | true ↦ some (record r.dest { accessors = pos 0; emptying = false })
          | false ↦ none
        ],
        r.status,
      )
