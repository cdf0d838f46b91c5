-- ===== src/Rule/Addresses.antt =====
-- `Action_addressMatch` and `Action_match` of src/actions.c: which sockets a rule matches.
use libinject.Base.{Bool, true, false, ◌≡◌, ◌≢◌, ◌⊎◌, arith, ==_iff}
use libinject.Outcome.{done}
use libinject.Rule.Conditions.{match_action}
use libinject.Rule.{Os, Action, address_match, match_hosts}
use libinject.Socket.{address, SocketInfo, SocketInfoDirection, connecting, closing}

hosts_refused :
    (a : Action) (si : SocketInfo) (direction : SocketInfoDirection)
    → (a.direction ≡ connecting) ⊎ (a.direction ≡ closing)
    → a.to.type ≡ address
    → a.to.addr ≡ si.remote.addr
    → match_hosts a.direction a si direction ≡ false
unfolding match_hosts address_match
hosts_refused a si direction d t e = ground (arith, ==_iff si.remote.addr a.to.addr)

module _ {W : Type 0} (os : Os W) where
  -- A rule that names the address that a socket connects to or is closed from never matches it,
  -- whatever its condition, its port and its protocol.
  pub match_action-same_address :
      (a : Action) (si : SocketInfo) (direction : SocketInfoDirection) (matched : Bool) (w w' : W)
      → (a.direction ≡ connecting) ⊎ (a.direction ≡ closing)
      → a.to.type ≡ address
      → a.to.addr ≡ si.remote.addr
      → match_action os a si direction matched w ≢ done (true, w')
  unfolding match_action
  match_action-same_address a si direction matched w w' d t e h =
      ground (arith, hosts_refused a si direction d t e)
