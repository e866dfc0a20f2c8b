-- ===== src/Channels/Forwarding/Laws.antt =====
-- ssh/server/channels/tcpip.go: when a port is forwarded, and the logins for which the handler panics.
use mini_shellhub.Prelude.{
  Text, Result, Bool, ℕ, ◌≡◌, ◌↔◌, refl, true, false, none, some, Option, ok, panic, contains,
  arith, format_int, contains-format_int, codes, get_elem?-set_self,
}
use mini_shellhub.Net.{split_host_port}
use mini_shellhub.Net.Laws.{split_host_port-join_host_port}
use mini_shellhub.Session.Types.{Context, Session, State, state_evaluated, state_value}
use mini_shellhub.Session.Operations.{Handshake, set_conn}
use mini_shellhub.Tunnel.{Tunnel, StreamConn}
use mini_shellhub.Server.{local_port_forwarding, publickey_handler}
use mini_shellhub.Server.Logins.{Holds, offer, auth-drops}
use mini_shellhub.Channels.Forwarding.{
  ChannelData, Callback, forwarded, DialTcp, destination, direct_tcpip_handler,
}

-- The address that is dialled splits into the requested host and the digits of the requested port, for
-- a host without brackets.
pub split_host_port-destination :
    (d : ChannelData)
    → contains d.dest_addr b'[' ≡ false
    → contains d.dest_addr b']' ≡ false
    → split_host_port (destination d) ≡ ok (d.dest_addr, format_int d.dest_port)
unfolding destination
split_host_port-destination d o k =
    split_host_port-join_host_port d.dest_addr (format_int d.dest_port) (record {
      host_opens = o;
      host_closes = k;
      port_opens = contains-format_int d.dest_port b'[' (omega arith);
      port_closes = contains-format_int d.dest_port b']' (omega arith);
      port_colon = contains-format_int d.dest_port b':' (omega arith);
    })

-- `Dial` of the SSH library splits its address into a host and a port first: `dial_host` is what it does
-- with them.
abbrev pub SplitsFirst : DialTcp → (Option ℕ → Text → Text → Result (Unit {0}) ℕ) → Type 0
SplitsFirst dial dial_host =
    (client : Option ℕ) (address host port : Text)
    → split_host_port address ≡ ok (host, port)
    → dial client address ≡ dial_host client host port

abbrev pub HasPlainHost : ChannelData → Type 0
HasPlainHost d = (contains d.dest_addr b'[' ≡ false) × (contains d.dest_addr b']' ≡ false)

-- With any callback, and a destination without brackets, a port is forwarded exactly if the channel's data
-- is read, there is a callback that permits its destination, the session's client dials the host and the
-- decimal digits of the port that it names, where the SSH library splits the address that it is given, and
-- the client's channel is accepted.
pub forwarding_iff :
    (callback : Callback) (data' : Option ChannelData) (dial : DialTcp)
    (dial_host : Option ℕ → Text → Text → Result (Unit {0}) ℕ) (accepted : Option ℕ) (c : Context)
    (p : ℕ) (s : Session) (state : State) (agent client : ℕ)
    → Holds c p s state
    → SplitsFirst dial dial_host
    → ((d : ChannelData) → data' ≡ some d → HasPlainHost d)
    → ((direct_tcpip_handler callback data' dial accepted c).1 ≡ ok (forwarded agent client)) ↔ (
        (d : ChannelData) × (allows : Text → ℕ → Bool) × (data' ≡ some d)
        × (callback ≡ some allows)
        × (allows d.dest_addr d.dest_port ≡ true)
        × (dial_host s.agent.client d.dest_addr (format_int d.dest_port) ≡ ok agent)
        × (accepted ≡ some client))
unfolding direct_tcpip_handler
forwarding_iff callback none dial dial_host accepted c p s state agent client v split plain =
    (λ h. absurd (ground (arith, v.snapped, v.stored)), λ h. absurd (ground arith))
forwarding_iff none (some d) dial dial_host accepted c p s state agent client v split plain =
    (λ h. absurd (ground (arith, v.snapped, v.stored)), λ h. absurd (ground arith))
forwarding_iff (some allows) (some d) dial dial_host accepted c p s state agent client v split
      plain =
    let (opens, closes) = plain d refl in
    let same =
      split s.agent.client (destination d) d.dest_addr (format_int d.dest_port)
        (split_host_port-destination d opens closes) in
    (
      λ h. (
        d,
        allows,
        refl,
        refl,
        ground (arith, v.snapped, v.stored),
        ground (arith, v.snapped, v.stored, same),
        ground (arith, v.snapped, v.stored),
      ),
      λ h. ground (arith, v.snapped, v.stored, same),
    )

-- When the agent refuses the password that stands for a public key, the login succeeds all the same,
-- and the first port that the client forwards panics, where Dial does on a nil client.
pub unauthenticated_forward_panics :
    (tunnel : Tunnel) (handshake : Handshake) (d : ChannelData) (dial : DialTcp)
    (accepted : Option ℕ) (c : Context) (p : ℕ) (s : Session) (conn : StreamConn)
    → Holds c p s state_evaluated
    → s.agent.conn ≡ some conn
    → s.agent.client ≡ none
    → handshake conn (offer s (codes "any")) ≡ none
    → dial none (destination d) ≡ panic
    → let (c', login) = publickey_handler tunnel handshake c in
      (login ≡ ok true)
      × ((direct_tcpip_handler (some local_port_forwarding) (some d) dial accepted c').1 ≡ panic)
unfolding publickey_handler state_value direct_tcpip_handler local_port_forwarding set_conn
unauthenticated_forward_panics tunnel handshake d dial accepted c p s conn v h n k f = ground (
  arith,
  v.snapped,
  v.stored,
  auth-drops tunnel handshake (codes "any") c p s v conn h k,
  get_elem?-set_self c.store p (set_conn none s) s v.stored,
)
