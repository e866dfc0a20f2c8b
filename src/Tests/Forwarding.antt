-- ===== src/Tests/Forwarding.antt =====
-- ssh/server/channels/tcpip.go: a port that is forwarded, and a client without an agent.
use mini_shellhub.Net.{AddrError, split_host_port}
use mini_shellhub.Channels.Forwarding.{Callback}
use mini_shellhub.Channels.Forwarding.Laws.{SplitsFirst, HasPlainHost}
use mini_shellhub.Channels.Forwarding.Crashing.{PanicsOnNil}
use mini_shellhub.Prelude.{
  Text, Result, err, Bool, true, ◌≢◌, Result-cases, inl, inr, arith, contains, format_int,
}
use mini_shellhub.Prelude.{List, [], ◌∷◌, ℕ, ◌≡◌, ◌↔◌, refl, Option, none, some, ok, panic, codes}
use mini_shellhub.Session.Types.{Session, state_evaluated, state_finished}
use mini_shellhub.Session.Operations.{set_client}
use mini_shellhub.Server.{local_port_forwarding}
use mini_shellhub.Server.Logins.{Holds}
use mini_shellhub.Channels.Forwarding.{ChannelData, DialTcp, forwarded, direct_tcpip_handler}
use mini_shellhub.Channels.Forwarding.Laws.{forwarding_iff}
use mini_shellhub.Server.{banner_handler}
use mini_shellhub.Server.Banners.{opened as context_of}
use mini_shellhub.Server.Reachability.{Login, password, publickey, context_run}
use mini_shellhub.Channels.Forwarding.Crashing.{IsFinished, forward_panics_iff}
use mini_shellhub.Tests.Fixtures.{user_name, address, bridged_session, context, tunnel, handshake}

abbrev web : ChannelData
web = record {
  dest_addr = codes "localhost";
  dest_port = 8080;
  origin_addr = codes "127.0.0.1";
  origin_port = 40000;
}

-- A client of the SSH library: what it does with a host and a port, and its Dial, which splits.
abbrev dial_host : Option ℕ → Text → Text → Result (Unit {0}) ℕ
dial_host none host port = panic
dial_host (some client) host port = ok 5

abbrev dial_split : Option ℕ → Result AddrError (Text × Text) → Result (Unit {0}) ℕ
dial_split client (ok (host, port)) = dial_host client host port
dial_split client (err e) = err tt
dial_split client panic = err tt

abbrev dial : DialTcp
dial client addr = dial_split client (split_host_port addr)

dial-SplitsFirst : SplitsFirst dial dial_host
dial-SplitsFirst client addr host port e = rw e refl

dial-PanicsOnNil : PanicsOnNil dial
dial-PanicsOnNil addr host port e small = rw e refl

dial-not_panic : (client : ℕ) (address : Text) → dial (some client) address ≢ panic
dial-not_panic client addr h = elim (Result-cases (split_host_port addr)) [
  | inl (hp, e) ↦ ground (arith, e, h)
  | inr (inl (x, e)) ↦ ground (arith, e, h)
  | inr (inr e) ↦ ground (arith, e, h)
]

web-HasPlainHost : HasPlainHost web
unfolding contains
web-HasPlainHost = (refl, refl)

abbrev linked : Session
linked = set_client (1, 2) bridged_session

abbrev accepted : Option ℕ
accepted = some 6

linked-Holds : Holds (context linked state_finished) 0 linked state_finished
linked-Holds = record { snapped = refl; stored = refl }

bridged-Holds : Holds (context bridged_session state_evaluated) 0 bridged_session state_evaluated
bridged-Holds = record { snapped = refl; stored = refl }

abbrev allowing : Callback
allowing = some local_port_forwarding

web_plain : (d : ChannelData) → some web ≡ some d → HasPlainHost d
web_plain d e = (ground (arith, e, web-HasPlainHost), ground (arith, e, web-HasPlainHost))

forwarding_iff_example :
    ((direct_tcpip_handler
        (some local_port_forwarding)
        (some web)
        dial
        (some 6)
        (context linked state_finished)).1
      ≡ ok (forwarded 5 6))
    ↔ ((d : ChannelData) × (allows : Text → ℕ → Bool) × (some web ≡ some d)
        × (allowing ≡ some allows)
        × (allows d.dest_addr d.dest_port ≡ true)
        × (dial_host linked.agent.client d.dest_addr (format_int d.dest_port) ≡ ok 5)
        × (accepted ≡ some 6))
forwarding_iff_example =
    forwarding_iff allowing (some web) dial dial_host accepted (context linked state_finished) 0
      linked state_finished 5 6 linked-Holds dial-SplitsFirst λ d e. web_plain d e

abbrev refused : List Login
refused = password tunnel handshake (codes "guess") ∷ publickey tunnel handshake ∷ []

forward_panics_iff_example :
    let c =
      context_run (banner_handler tunnel (context_of user_name address (codes "id"))).0 refused in
    ((direct_tcpip_handler (some local_port_forwarding) (some web) dial accepted c).1 ≡ panic)
    ↔ ¬ IsFinished c
forward_panics_iff_example =
    forward_panics_iff tunnel user_name address (codes "id") refused web dial accepted
      web-HasPlainHost (omega arith) dial-PanicsOnNil dial-not_panic
