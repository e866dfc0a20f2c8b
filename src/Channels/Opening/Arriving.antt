-- ===== src/Channels/Opening/Arriving.antt =====
-- ssh/main.go, ssh/session and ssh/server together: from a registered device to an open session channel.
use mini_shellhub.Prelude.{
  ℕ, ◌+◌, ◌<◌, ◌^◌, Text, [], ◌∷◌, ◌++◌, ◌≡◌, refl, Option, some, ok, true, false, arith, contains,
  lookup, nat_key, get_elem?,
}
use mini_shellhub.Host.{Host, new_host}
use mini_shellhub.Target.{Target}
use mini_shellhub.Tunnel.{Tunnel, StreamConn, device_manager_tunnel}
use mini_shellhub.Devices.{YamuxOpen}
use mini_shellhub.Devices.Handlers.{World, Reach}
use mini_shellhub.Devices.Handlers.Reconnect.{connected}
use mini_shellhub.Session.Types.{Context, Session, state_finished}
use mini_shellhub.Session.Operations.{Handshake, set_client, set_conn, fresh_session}
use mini_shellhub.Session.Seats.{Seated, occupied}
use mini_shellhub.Server.{no_banner, banner_handler, password_handler}
use mini_shellhub.Server.Banners.{opened as context_of, bridged}
use mini_shellhub.Server.Logins.{offer, password-reuses}
use mini_shellhub.Server.Reaching.{tenant_device_reached}
use mini_shellhub.Channels.Opening.{opened, open_session_channel}
use mini_shellhub.Channels.Opening.Laws.{opening-opens}

module _ (user addr id : Text) (h : Host) (t : Target) (conn : StreamConn) (link : ℕ × ℕ) where
  -- The session that the banner bridges, and the session once it is logged in.
  abbrev pub session_of : Session
  session_of = set_conn (some conn) (fresh_session (context_of user addr id) h t)

  abbrev pub logged_in : Session
  logged_in = set_client link session_of

  pub logged_in-Seated : Seated logged_in
  unfolding set_client set_conn fresh_session lookup
  logged_in-Seated = record {
    client_seats = λ k n. absurd (n refl);
    agent_seats = λ k n. absurd (n refl);
    left = omega arith;
  }

  seats_left : logged_in.next_seat + 2 < 2 ^ 64
  unfolding set_client set_conn fresh_session
  seats_left = omega arith

  abbrev pub finished : Context
  finished = record (context_of user addr id) {
    snap = some (record { session = some 0; state = state_finished });
    store = logged_in ∷ [];
  }

  pub password_then :
      (tunnel : Tunnel) (handshake : Handshake) (pwd : Text)
      → handshake conn (offer session_of pwd) ≡ some link
      → password_handler tunnel handshake pwd (bridged user addr id h t conn) ≡ (finished, ok true)
  unfolding set_conn
  password_then tunnel handshake pwd k =
      password-reuses tunnel handshake pwd (bridged user addr id h t conn) 0 session_of
        (record { snapped = refl; stored = refl }) conn link refl k

  pub opening_then :
      (opens : ℕ → Option ℕ) (channel agent : ℕ)
      → opens link.0 ≡ some agent
      → let (c, result) = open_session_channel (some channel) opens finished in
        (result ≡ ok (opened 0 channel agent))
        × (get_elem? c.store 0 ≡ some (occupied logged_in channel agent))
  unfolding set_client set_conn fresh_session
  opening_then opens channel agent o =
      let (r, g, f, q) =
        opening-opens opens finished 0 logged_in state_finished channel
          (record { snapped = refl; stored = refl }) logged_in-Seated link.0 agent refl o
          seats_left in
      (r, g)

-- In a reachable world, a device connects under an identifier with a tenant, and the library opens
-- a stream on its new session. Then a client that logs in with that identifier and a user without
-- '@', from an address that parses, and with a password that the agent takes over that stream, sees
-- an empty banner, has its password accepted over that one stream, whatever the tunnel does by then,
-- and its first session channel opens on seat 0, if the client's side is accepted and the agent opens its own.
client_arrives :
    (yo : YamuxOpen) (w : World) (device username addr id pwd : Text) (h : Host) (stream : ℕ)
    (tunnel : Tunnel) (handshake : Handshake) (link : ℕ × ℕ) (opens : ℕ → Option ℕ)
    (channel agent : ℕ)
    → Reach w
    → contains device b':' ≡ true
    → contains username b'@' ≡ false
    → new_host addr ≡ ok h
    → yo w.next false ≡ some stream
    → handshake
        (record { stream = stream; target = device })
        (record { user = username; auth = pwd ∷ [] })
      ≡ some link
    → opens link.0 ≡ some agent
    → let (c1, shown) =
        banner_handler
          (device_manager_tunnel yo (connected device w).dm)
          (context_of (username ++ b'@' ∷ device) addr id) in
      let (c2, login) = password_handler tunnel handshake pwd c1 in
      let (c3, result) = open_session_channel (some channel) opens c2 in
      (shown ≡ ok no_banner)
      × (login ≡ ok true)
      × (result ≡ ok (opened 0 channel agent))
      × (get_elem? c3.store 0
          ≡ some (
              occupied
                (logged_in
                  (username ++ b'@' ∷ device)
                  addr
                  id
                  h
                  (record { username = username; target_data = device })
                  (record { stream = stream; target = device })
                  link)
                channel
                agent))
unfolding set_conn fresh_session
client_arrives yo w device username addr id pwd h stream tunnel handshake link opens channel agent r
      d u p y k o =
    let user = username ++ b'@' ∷ device in
    let t : Target = record { username = username; target_data = device } in
    let conn : StreamConn = record { stream = stream; target = device } in
    let (opening, store) = opening_then user addr id h t conn link opens channel agent o in
    rw
      (
        tenant_device_reached yo w device username addr id h stream r d u p y,
        password_then user addr id h t conn link tunnel handshake pwd k,
      )
      (refl, refl, opening, store)
