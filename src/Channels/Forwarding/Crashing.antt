-- ===== src/Channels/Forwarding/Crashing.antt =====
-- ssh/server/channels/tcpip.go: for which clients the handler of a forwarded port panics, which ends the
-- server, after the banner and any logins.
use mini_shellhub.Net.{split_host_port}
use mini_shellhub.Channels.Forwarding.Laws.{HasPlainHost, split_host_port-destination}
use mini_shellhub.Prelude.{
  ok, ◌<◌, ◌^◌, format_int, ℕ, Text, List, ◌≡◌, ◌≢◌, ◌↔◌, Option, none, some, panic, Option-cases,
  inl, inr, arith,
}
use mini_shellhub.Tunnel.{Tunnel}
use mini_shellhub.Session.Types.{
  Context, Session, State, state_created, state_evaluated, state_finished,
}
use mini_shellhub.Session.Operations.{obtain_session}
use mini_shellhub.Server.{local_port_forwarding, banner_handler}
use mini_shellhub.Server.Banners.{opened as context_of}
use mini_shellhub.Server.Logins.{Holds}
use mini_shellhub.Server.Reachability.{Login, context_run}
use mini_shellhub.Server.Holding.{HasSession, NoSession, history-cases}
use mini_shellhub.Channels.Forwarding.{ChannelData, DialTcp, destination, direct_tcpip_handler}

-- The context's session is finished, as after a login for which the agent's handshake succeeded.
abbrev pub IsFinished : Context → Type 0
IsFinished c = (p : ℕ) × (c.snap ≡ some (record { session = some p; state = state_finished }))

-- `Dial` of the SSH library on a nil client: it splits the address and reads the port, and only an address
-- that passes comes to the client.
abbrev pub PanicsOnNil : DialTcp → Type 0
PanicsOnNil dial =
    (address host : Text) (port : ℕ)
    → split_host_port address ≡ ok (host, format_int port)
    → port < 2 ^ 16
    → dial none address ≡ panic

module _ (dial : DialTcp) (nil_dial : PanicsOnNil dial)
    (client_dial : (client : ℕ) (address : Text) → dial (some client) address ≢ panic)
    (d : ChannelData) (plain : HasPlainHost d) (in_range : d.dest_port < 2 ^ 16)
    (accepted : Option ℕ) (c : Context) where
  dial_panics : dial none (destination d) ≡ panic
  dial_panics =
      nil_dial (destination d) d.dest_addr d.dest_port
        (split_host_port-destination d plain.0 plain.1) in_range

  clientless-panics :
      (p : ℕ) (s : Session) (state : State)
      → Holds c p s state
      → s.agent.client ≡ none
      → (direct_tcpip_handler (some local_port_forwarding) (some d) dial accepted c).1 ≡ panic
  unfolding direct_tcpip_handler local_port_forwarding
  clientless-panics p s state v n = ground (arith, v.snapped, v.stored, n, dial_panics)

  client-not_panic :
      (p : ℕ) (s : Session) (state : State) (client : ℕ)
      → Holds c p s state
      → s.agent.client ≡ some client
      → (direct_tcpip_handler (some local_port_forwarding) (some d) dial accepted c).1 ≢ panic
  unfolding direct_tcpip_handler local_port_forwarding
  client-not_panic p s state client v e h =
      ground (arith, v.snapped, v.stored, e, client_dial client (destination d), h)

  sessionless-panics :
      NoSession c
      → (direct_tcpip_handler (some local_port_forwarding) (some d) dial accepted c).1 ≡ panic
  unfolding direct_tcpip_handler obtain_session
  sessionless-panics v = ground (arith, v)

  pub handler-panics_iff :
      HasSession c
      → ((direct_tcpip_handler (some local_port_forwarding) (some d) dial accepted c).1 ≡ panic)
        ↔ ¬ IsFinished c
  handler-panics_iff (p, s, inl (v, n)) =
      (λ h (q, e). ground (arith, v.snapped, e), λ h. clientless-panics p s state_created v n)
  handler-panics_iff (p, s, inr (inl (v, n))) =
      (λ h (q, e). ground (arith, v.snapped, e), λ h. clientless-panics p s state_evaluated v n)
  handler-panics_iff (p, s, inr (inr (v, n))) = elim (Option-cases s.agent.client) [
    | inl none' ↦ absurd (n none')
    | inr (client, e) ↦ (
      λ h. absurd (client-not_panic p s state_finished client v e h),
      λ h. absurd (h (p, v.snapped)),
    )
  ]

-- After the banner and any logins, the handler of a port that the client forwards, whose data can be read,
-- with a destination without brackets and a port below 2 ^ 16, panics exactly if no login has finished the
-- session, where the SSH library's Dial panics on a nil client for an address that splits into a host and
-- such a port, and never on another client; accepted public keys do not count.
pub forward_panics_iff :
    (tunnel : Tunnel) (user addr id : Text) (es : List Login) (d : ChannelData) (dial : DialTcp)
    (accepted : Option ℕ)
    → HasPlainHost d
    → d.dest_port < 2 ^ 16
    → PanicsOnNil dial
    → ((client : ℕ) (address : Text) → dial (some client) address ≢ panic)
    → let c = context_run (banner_handler tunnel (context_of user addr id)).0 es in
      ((direct_tcpip_handler (some local_port_forwarding) (some d) dial accepted c).1 ≡ panic)
      ↔ ¬ IsFinished c
forward_panics_iff tunnel user addr id es d dial accepted plain in_range nil_dial client_dial =
    let c = context_run (banner_handler tunnel (context_of user addr id)).0 es in
    elim (history-cases tunnel user addr id es) [
      | inl held ↦ handler-panics_iff dial nil_dial client_dial d plain in_range accepted c held
      | inr v ↦ (
        λ h (q, e). ground (arith, v, e),
        λ h. sessionless-panics dial nil_dial client_dial d plain in_range accepted c v,
      )
    ]
