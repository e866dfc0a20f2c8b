-- ===== src/Tests/Fixtures.antt =====
-- Concrete inputs: an address, a multiplexer, tunnels, an agent that takes one password, and contexts.
use mini_shellhub.Prelude.{
  ℕ, ◌+◌, Text, [], ◌∷◌, ◌≡◌, refl, Option, none, some, codes, ok, err, text_eq, if◌then◌else◌,
}
use mini_shellhub.Net.{split_host_port}
use mini_shellhub.Host.{Host, new_host}
use mini_shellhub.Target.{Target, new_target}
use mini_shellhub.Devices.{YamuxOpen, not_connected}
use mini_shellhub.Tunnel.{Tunnel, StreamConn}
use mini_shellhub.Session.Types.{Context, Session, State}
use mini_shellhub.Session.Operations.{ClientConfig, Handshake, fresh_session, set_conn}
use mini_shellhub.Server.Banners.{opened}
use mini_shellhub.Prelude.{contains, cut, split_n}

abbrev pub address : Text
address = codes "10.0.0.7:4022"

abbrev pub client_host : Host
client_host = record { host = codes "10.0.0.7" }

abbrev pub device_name : Text
device_name = codes "acme:door"

abbrev pub user_name : Text
user_name = codes "root@acme:door"

abbrev pub door : Target
door = record { username = codes "root"; target_data = device_name }

-- A multiplexer that opens a stream on every session that is not closed.
abbrev pub multiplexer : YamuxOpen
multiplexer s closed = if closed then none else some (s + 100)

abbrev pub conn : StreamConn
conn = record { stream = 100; target = device_name }

abbrev pub tunnel : Tunnel
tunnel = record { dial = λ id. ok conn }

abbrev pub dead_tunnel : Tunnel
dead_tunnel = record { dial = λ id. err (record { target = id; cause = not_connected id }) }

abbrev pub takes : Text → ClientConfig → Option (ℕ × ℕ)
takes pwd cfg = elim cfg.auth [ [] ↦ none | p ∷ ps ↦ if text_eq p pwd then some (1, 2) else none ]

-- An agent that takes one password, whatever the user.
abbrev pub handshake : Handshake
handshake over cfg = takes (codes "secret") cfg

-- A session that the banner has bridged.
abbrev pub bridged_session : Session
bridged_session =
    set_conn (some conn) (fresh_session (opened user_name address (codes "id")) client_host door)

abbrev pub context : Session → State → Context
context s state = record (opened user_name address (codes "id")) {
  snap = some (record { session = some 0; state = state });
  store = s ∷ [];
}

pub address_parses : new_host address ≡ ok client_host
unfolding new_host split_host_port cut contains
address_parses = refl

pub user_parses : new_target user_name ≡ ok door
unfolding new_target split_n
user_parses = refl
