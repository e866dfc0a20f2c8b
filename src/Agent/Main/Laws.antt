-- ===== src/Agent/Main/Laws.antt =====
-- agent/main.go: which device the server registers for the agent, and what the agent refuses to forward.
use mini_shellhub.Prelude.{
  ℕ, Text, List, [], ◌∷◌, ◌++◌, ◌≡◌, ◌≢◌, ◌↔◌, refl, sym, true, false, Option, some, ok, err, arith,
  text_eq_iff, lookup, lookup-insert, text_key, append-nil, append_assoc,
}
use mini_shellhub.Devices.{add_device}
use mini_shellhub.Devices.Handlers.{World, handle_connection}
use mini_shellhub.Agent.Main.{
  Flags, Network, DialRequest, finished, dial_request, server_config, main, accept_loop,
}
use mini_shellhub.Agent.Server.{local_port_forwarding, reverse_port_forwarding, keepalive_interval}
use mini_shellhub.Agent.Server.Setup.{Setup, new_server}
use mini_shellhub.Prelude.{◌*◌, ◌^◌, Bool}
use mini_shellhub.Session.Types.{Context, Session, State}
use mini_shellhub.Server.Logins.{Holds}
use mini_shellhub.Channels.Forwarding.{
  ChannelData, DialTcp, refused, dial_failed, destination, direct_tcpip_handler,
}
use mini_shellhub.Server.{local_port_forwarding as server_forwarding}

accept_loop_lem : (handled streams : List ℕ) → accept_loop handled streams ≡ handled ++ streams
unfolding accept_loop
accept_loop_lem handled [] = sym (append-nil handled)
accept_loop_lem handled (stream ∷ streams) = ground (
  arith,
  accept_loop_lem (handled ++ stream ∷ []) streams,
  append_assoc handled (stream ∷ []) streams,
)

-- The shipped agent comes to serve exactly if it has a server and a device identifier, its dial succeeds
-- and the multiplexer starts; then it hands each accepted stream to its SSH server once, in order.
pub main-finished_iff :
    (f : Flags) (net : Network)
    → (main f net
        ≡ record { exit = finished; dialled = some (dial_request f); handled = net.streams })
      ↔ ((f.server_url ≢ [])
          × (f.device_id ≢ [])
          × (net.dials (dial_request f) ≡ true)
          × (net.multiplexes ≡ true))
unfolding main
main-finished_iff f net =
    ground (
      arith,
      accept_loop_lem [] net.streams,
      text_eq_iff f.server_url [],
      text_eq_iff f.device_id [],
    )

-- An agent that comes to serve has sent the server a request by which it registers the flag's device
-- identifier, whatever the server held under it before.
pub main_registers :
    (f : Flags) (net : Network) (w : World)
    → (main f net).exit ≡ finished
    → (d : DialRequest) × ((main f net).dialled ≡ some d)
      × (lookup f.device_id (handle_connection d.device_header [] true true w).0.dm.sessions
          ≡ some w.next)
unfolding main handle_connection add_device dial_request
main_registers f net w h = (
  dial_request f,
  ground arith,
  ground (
    arith,
    text_eq_iff f.device_id f.device_id,
    lookup-insert f.device_id f.device_id w.next w.dm.sessions,
  ),
)

features_off : (f : Flags) → local_port_forwarding (server_config f).features ≡ false
unfolding local_port_forwarding server_config
features_off f = refl

-- The shipped agent forwards no ports, although the server permits it: where its SSH library refuses
-- a connection that the agent's callback does not permit, the client's channel is refused.
pub main_forwards_nothing :
    (f : Flags) (d : ChannelData) (dial : DialTcp) (accepted : Option ℕ) (c : Context) (p : ℕ)
    (s : Session) (state : State) (client : ℕ)
    → ((address : Text)
        → local_port_forwarding (server_config f).features ≡ false
        → dial (some client) address ≡ err tt)
    → Holds c p s state
    → s.agent.client ≡ some client
    → (direct_tcpip_handler (some server_forwarding) (some d) dial accepted c).1
      ≡ ok (refused dial_failed)
unfolding direct_tcpip_handler server_forwarding
main_forwards_nothing f d dial accepted c p s state client r v e =
    ground (arith, v.snapped, v.stored, r (destination d) (features_off f))

-- The SSH server of the shipped agent permits no forwarding, and sends a keepalive every thirty seconds.
pub server_config-new_server :
    (loads : Text → Bool) (generates : Bool) (f : Flags) (s : Setup)
    → new_server loads generates (server_config f) ≡ some s
    → (s.forwards_local ≡ false) × (s.forwards_reverse ≡ false) × (s.interval ≡ 30 * 10 ^ 9)
unfolding new_server server_config local_port_forwarding reverse_port_forwarding keepalive_interval
server_config-new_server loads generates f s h = ground arith
