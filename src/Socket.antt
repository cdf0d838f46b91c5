-- ===== src/Socket.antt =====
-- src/socketinfo.h and src/socketinfo.c: what is known of a socket, and its life. The answers of
-- the operating system about a descriptor are a parameter, `SocketFacts`; `errno` is saved and
-- restored round them and is left out, and so are the mutex (each function is one critical section)
-- and the user data, which Task holds.
pub mod Lifecycle
use libinject.Base.{
  ℕ, Bool, true, false, not, ◌&&◌, ◌||◌, Option, none, some, ◌==◌, if◌then◌else◌, ℤ, pos, eq_ℤ,
  bit_and, increment_ℤ, decrement_ℤ,
}

pub data SocketInfoDirection : Type 0 where
  reading writing connecting closing data_dir connection any_dir : SocketInfoDirection

-- The bit mask of the enumeration.
abbrev pub direction_bits : SocketInfoDirection → ℕ
direction_bits reading = 1
direction_bits writing = 2
direction_bits connecting = 4
direction_bits closing = 8
direction_bits data_dir = 3
direction_bits connection = 12
direction_bits any_dir = 15

pub data Proto : Type 0 where
  tcp udp ip : Proto

abbrev pub proto_bits : Proto → ℕ
proto_bits tcp = 1
proto_bits udp = 2
proto_bits ip = 3

-- `a & b` as a condition
abbrev pub shares : ℕ → ℕ → Bool
shares a b = not (bit_and a b == 0)

pub data Host : Type 0 where
  nobody me dns address any : Host

-- The port is -1 where all ports are matched.
pub record HostAddress : Type 0 where
  pub type : Host
  pub addr : ℕ
  pub port : ℤ

pub record SocketInfo : Type 0 where
  pub fd : ℤ
  pub proto : Proto
  pub local : HostAddress
  pub remote : HostAddress
  pub blocking : Bool
  pub to_destroy : Bool
  pub sem : ℤ

-- The kinds of socket that `getsockopt(SO_TYPE)` reports.
pub data SocketType : Type 0 where
  stream datagram other : SocketType

-- `getpeername` and `getsockname` give an IPv4 address and a port, or nothing for an error or
-- another family; `flags` is whether `fcntl(F_GETFL)` has O_NONBLOCK.
pub record SocketFacts : Type 0 where
  pub is_socket : Bool
  pub peer_name : Option (ℕ × ℕ)
  pub sock_name : Option (ℕ × ℕ)
  pub socket_type : Option SocketType
  pub flags : Option Bool

-- `SocketInfo_fetchData`; on failure the host keeps what it had.
abbrev pub fetch_data : Option (ℕ × ℕ) → HostAddress → Option HostAddress
fetch_data none host = none
fetch_data (some (a, p)) host = some (record host { addr = a; port = pos p })

abbrev pub known_proto : Option SocketType → Option Proto
known_proto none = none
known_proto (some stream) = some tcp
known_proto (some datagram) = some udp
known_proto (some other) = none

abbrev pub is_dns_port : HostAddress → HostAddress → Bool
is_dns_port remote local = eq_ℤ remote.port (pos 53) || eq_ℤ local.port (pos 53)

abbrev set_up_with : HostAddress → HostAddress → ℤ → Option Proto → Option Bool → Option SocketInfo
set_up_with local remote fd none flags = none
set_up_with local remote fd (some proto) none = none
set_up_with local remote fd (some proto) (some nonblocking) = some (record {
  fd = fd;
  proto = proto;
  local = record local { type = me };
  remote = record remote { type = if is_dns_port remote local then dns else address };
  blocking = not nonblocking;
  to_destroy = false;
  sem = pos 0;
})

-- `SocketInfo_setup`
unfoldable pub set_up : SocketFacts → HostAddress → HostAddress → ℤ → Option SocketInfo
set_up os local remote fd = set_up_with local remote fd (known_proto os.socket_type) os.flags

abbrev init_with : SocketFacts → ℤ → Option HostAddress → Option HostAddress → Option SocketInfo
init_with os fd none local = none
init_with os fd (some remote) none = none
init_with os fd (some remote) (some local) = set_up os local remote fd

-- `SocketInfo_init`; `raw` is the fresh memory of the two addresses.
unfoldable pub init : SocketFacts → HostAddress → ℤ → Option SocketInfo
unfolding set_up
init os raw fd =
    if os.is_socket
    then init_with os fd (fetch_data os.peer_name raw) (fetch_data os.sock_name raw)
    else none

abbrev init_light_with :
    SocketFacts → HostAddress → ℤ → ℕ × ℕ → Option HostAddress → Option SocketInfo
init_light_with os raw fd (a, p) none = none
init_light_with os raw fd (a, p) (some local) =
    set_up os (record local { addr = 0; port = pos 0 }) (record raw { addr = a; port = pos p }) fd

-- `SocketInfo_initLight`; the address given by the caller is the remote end, and the local end is
-- fetched and then cleared.
unfoldable pub init_light : SocketFacts → HostAddress → ℤ → ℕ × ℕ → Option SocketInfo
unfolding set_up
init_light os raw fd given =
    if os.is_socket then init_light_with os raw fd given (fetch_data os.sock_name raw) else none

-- `SocketInfo_lock`
unfoldable pub lock : SocketInfo → SocketInfo
lock si = record si { sem = increment_ℤ si.sem }

-- `SocketInfo_unlock`: what is left of the info, or `none` when it is destroyed.
unfoldable pub unlock : SocketInfo → Option SocketInfo
unlock si =
    let s = decrement_ℤ si.sem in
    if si.to_destroy && eq_ℤ s (pos 0) then none else some (record si { sem = s })

-- `RELEASE_SI`: the pointer's target afterwards, and NULL for the caller.
abbrev release : SocketInfo → Option SocketInfo × Option SocketInfo
release si = (unlock (record si { to_destroy = true }), none)

abbrev pub is_udp : Proto → Bool
is_udp tcp = false
is_udp udp = true
is_udp ip = false

abbrev pub type_changed : Option Proto → Bool
type_changed none = true
type_changed (some p) = not (is_udp p)

abbrev check_local : SocketInfo → Option HostAddress → Option SocketInfo × Option SocketInfo
check_local si none = release si
check_local si (some local) = let si' = record si { local = local } in (some si', some si')

-- `SocketInfo_check` on an info that is not NULL: its target afterwards, and what is returned.
unfoldable pub check : SocketFacts → SocketInfo → Option SocketInfo × Option SocketInfo
unfolding lock unlock
check os si =
    let held = lock si in
    if held.to_destroy
    then release held
    else if is_udp held.proto && type_changed (known_proto os.socket_type)
    then release held
    else if eq_ℤ held.local.port (pos 0)
    then check_local held (fetch_data os.sock_name held.local)
    else (some held, some held)
