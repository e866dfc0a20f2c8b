-- ===== src/Channels/Opening/Laws.antt =====
-- ssh/server/channels/session.go: when a session channel opens, when it is refused, and the client for
-- which the handler panics.
use mini_shellhub.Prelude.{
  ℕ, ◌+◌, ◌^◌, ◌<◌, Text, ◌≡◌, refl, Option, none, some, true, false, arith, ok, panic, codes,
  get_elem?, set, get_elem?-set_self, contains, List, lookup, nat_key,
}
use mini_shellhub.Host.{Host, new_host}
use mini_shellhub.Target.Laws.{new_target-no_at}
use mini_shellhub.Tunnel.{Tunnel}
use mini_shellhub.Target.{split_target}
use mini_shellhub.Session.Types.{Context, Session, State, state_value}
use mini_shellhub.Session.Operations.{obtain_session, Handshake}
use mini_shellhub.Session.Channels.{set_client_channel}
use mini_shellhub.Session.Seats.{
  Seated, seated, occupied, occupied-Seated, new_seat_lem, new_client_channel_lem,
  new_agent_channel_lem, new_agent_channel-no_client, client_seat_free, agent_seat_free,
}
use mini_shellhub.Server.{connection_failed, banner_handler, publickey_handler}
use mini_shellhub.Server.Banners.{opened as context_of, banner-bad_user}
use mini_shellhub.Server.Logins.{Holds}
use mini_shellhub.Channels.Opening.{opened, rejected, open_session_channel}

module _ (opens : ℕ → Option ℕ) (c : Context) (p : ℕ) (s : Session) (state : State) (client : ℕ)
    (v : Holds c p s state) (seats : Seated s) where
  -- The store after the seat, and after the client's channel.
  abbrev store1 : List Session
  store1 = set c.store p (seated s)

  stored1 : get_elem? store1 p ≡ some (seated s)
  stored1 = get_elem?-set_self c.store p (seated s) s v.stored

  abbrev s2 : Session
  s2 = set_client_channel s.next_seat client (seated s)

  stored2 : get_elem? (set store1 p s2) p ≡ some s2
  stored2 = get_elem?-set_self store1 p s2 (seated s) stored1

  opening_lem :
      (agent_client agent : ℕ)
      → s.agent.client ≡ some agent_client
      → opens agent_client ≡ some agent
      → open_session_channel (some client) opens c ≡ (
        record c { store = set (set store1 p s2) p (occupied s client agent) },
        ok (opened s.next_seat client agent),
      )
  unfolding open_session_channel obtain_session set_client_channel
  opening_lem agent_client agent a o = ground (
    arith,
    v.snapped,
    new_seat_lem c p s v.stored,
    new_client_channel_lem (record c { store = store1 }) p (seated s) s.next_seat client stored1,
    new_agent_channel_lem opens (record c { store = set store1 p s2 }) p s2 s.next_seat agent_client
        agent stored2,
    client_seat_free s seats,
    agent_seat_free s seats,
  )

  -- In a context that holds a session whose channels all sit on seats given before, when the
  -- client's channel is accepted, the session has an SSH client that opens one on the agent, and
  -- two more seats are left, a session channel opens under a seat that was free; the session then
  -- holds both channels under it, and again has channels only on seats given before.
  pub opening-opens :
      (agent_client agent : ℕ)
      → s.agent.client ≡ some agent_client
      → opens agent_client ≡ some agent
      → s.next_seat + 2 < 2 ^ 64
      → let (c', result) = open_session_channel (some client) opens c in
        (result ≡ ok (opened s.next_seat client agent))
        × (get_elem? c'.store p ≡ some (occupied s client agent))
        × (lookup s.next_seat s.client.channels ≡ none)
        × Seated (occupied s client agent)
  opening-opens agent_client agent a o room = rw (opening_lem agent_client agent a o) (
    refl,
    get_elem?-set_self (set store1 p s2) p (occupied s client agent) s2 stored2,
    client_seat_free s seats,
    occupied-Seated s client agent seats room,
  )

  -- A session that has no SSH client of the agent, as one that was dialled but never authenticated,
  -- refuses the channel, after it has accepted and recorded the client's side; the context holds a
  -- session whose channels all sit on seats given before.
  pub opening-refuses :
      s.agent.client ≡ none
      → open_session_channel (some client) opens c ≡ (
        record c { store = set store1 p s2 },
        ok (rejected (codes "failed to open the session channel on agent") true),
      )
  unfolding open_session_channel obtain_session set_client_channel
  opening-refuses a = ground (
    arith,
    v.snapped,
    new_seat_lem c p s v.stored,
    new_client_channel_lem (record c { store = store1 }) p (seated s) s.next_seat client stored1,
    new_agent_channel-no_client opens (record c { store = set store1 p s2 }) p s2 s.next_seat
        stored2,
    client_seat_free s seats,
    agent_seat_free s seats,
  )

-- For a user name without '@' and an address that parses, the banner reports a failed connection and
-- makes no session, any public key is accepted all the same, and the first session channel that the
-- client then opens panics.
pub publickey_then_panics :
    (tunnel tunnel' : Tunnel) (handshake : Handshake) (accepted : Option ℕ) (opens : ℕ → Option ℕ)
    (user addr id : Text) (h : Host)
    → new_host addr ≡ ok h
    → contains user b'@' ≡ false
    → let (c1, shown) = banner_handler tunnel (context_of user addr id) in
      let (c2, login) = publickey_handler tunnel' handshake c1 in
      (shown ≡ ok connection_failed)
      × (login ≡ ok true)
      × ((open_session_channel accepted opens c2).1 ≡ panic)
unfolding publickey_handler open_session_channel obtain_session state_value
publickey_then_panics tunnel tunnel' handshake accepted opens user addr id h p q =
    rw (banner-bad_user tunnel user addr id h split_target p (new_target-no_at user q))
      (refl, refl, refl)
