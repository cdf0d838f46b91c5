-- ===== src/Read/Hosts.antt =====
-- `Action_parse_host` of src/actions.c. `gethostbyname` and `getservbyname` are parameters.
use libinject.Base.{
  ℕ, Bool, true, false, Option, none, some, List, [], ◌∷◌, Text, codes, ℤ, pos, minus_one,
}
use libinject.Parser
use libinject.Parser.Elements.{parse_word, parse_space, parse_enum, because}
use libinject.Parser.Numbers.{parse_int}
use libinject.Parser.{
  Status, ParserElement, Parsed, Parser, element, sub, suite, first, optional, add, refuse,
}
use libinject.Read.Combine.{add_spaced_constant}
use libinject.Socket.{Host, me, any, dns, address, HostAddress}

-- `gethostbyname`, for the first address, and `getservbyname` for tcp: in host byte order.
pub record Resolver : Type 0 where
  pub host_by_name : Text → Option ℕ
  pub service_by_name : Text → Option ℕ

-- The local variables of `Action_parse_host`, beside the host that it fills.
pub record HostLocals : Type 0 where
  pub host : HostAddress
  pub addr : Option Text
  pub service : Option Text

abbrev special_hosts : List (Text × Host)
special_hosts = (codes "me", me) ∷ (codes "any", any) ∷ (codes "dns", dns) ∷ []

abbrev put_type : Host → HostLocals → HostLocals
put_type type l = record l { host = record l.host { type = type } }

abbrev put_port : ℤ → HostLocals → HostLocals
put_port port l = record l { host = record l.host { port = port } }

abbrev put_addr : Option Text → HostLocals → HostLocals
put_addr text l = record l { addr = text }

abbrev put_service : Option Text → HostLocals → HostLocals
put_service text l = record l { service = text }

pub name_parser : Parser HostLocals
name_parser =
    add (add Parser.init (element (parse_enum special_hosts address put_type)))
      (element (parse_word (some put_addr) none))

pub port_parser : Parser HostLocals
port_parser = add (add_spaced_constant (add Parser.init (element parse_space)) (codes "port")) (
    sub first (
      add (add Parser.init (element (parse_int put_port)))
        (element (parse_word (some put_service) none))))

pub host_parser : Text → Parser HostLocals
unfolding name_parser port_parser
host_parser keyword =
    add (add (add_spaced_constant Parser.init keyword) (sub first name_parser))
      (sub optional port_parser)

abbrev pub is_address : Host → Bool
is_address address = true
is_address _ = false

abbrev pub resolve_name : (Text → Option ℕ) → Option Text → Option ℕ
resolve_name resolve none = none
resolve_name resolve (some name) = resolve name

module _ (resolver : Resolver) where
  -- The service, once the name is resolved; `start` is `*from`.
  resolve_service : Text → Text → HostAddress → Option Text → Status → Parsed HostAddress
  resolve_service start source host none status = record {
    ok = true;
    from = source;
    dest = host;
    status = status;
  }
  resolve_service start source host (some service) status =
      elim (resolver.service_by_name service) [
        | some port ↦ record {
          ok = true;
          from = source;
          dest = record host { port = pos port };
          status = status;
        }
        | none ↦ refuse start host status (because "Action_parse_host" "Invalid service name")
      ]

  resolve_host : Text → Text → HostLocals → Status → Parsed HostAddress
  unfolding resolve_service
  resolve_host start source l status = elim (is_address l.host.type) [
    | false ↦ resolve_service start source l.host l.service status
    | true ↦ elim (resolve_name resolver.host_by_name l.addr) [
      | none ↦ refuse start l.host status (because "Action_parse_host" "Invalid host name")
      | some addr ↦ resolve_service start source (record l.host { addr = addr }) l.service status
    ]
  ]

  -- `Action_parse_host`; the keyword is the constraint.
  unfoldable pub parse_host : Text → ParserElement HostAddress
  unfolding resolve_host host_parser
  parse_host keyword from host status =
      let l : HostLocals = record {
        host = record host { addr = 0; port = minus_one };
        addr = none;
        service = none;
      } in
      let r = Parser.run (host_parser keyword) from suite l status in
      elim r.ok [
        | false ↦ record { ok = false; from = from; dest = r.dest.host; status = r.status }
        | true ↦ resolve_host from r.from r.dest r.status
      ]
