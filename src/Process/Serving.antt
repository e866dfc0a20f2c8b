-- ===== src/Process/Serving.antt =====
-- ssh/main.go, main: while the process runs, a device can connect, and a client be served.
use mini_shellhub.Prelude
use mini_shellhub.Prelude.{
  here, next, Reach-before, lookup, text_key, ℕ, Text, List, [], ◌∷◌, ◌++◌, ◌≡◌, ◌≢◌, ◌∙◌, ap, refl,
  sym, Option, none, some, Bool, true, false, Result, ok, err, panic, length, get_elem?, set,
  get_elem?-append_last, get_elem?-set_self, contains,
}
use mini_shellhub.Host.{Host, new_host}
use mini_shellhub.Target.{Target}
use mini_shellhub.Devices.{YamuxOpen}
use mini_shellhub.Devices.Handlers.Reconnect.{connected as device_connected, connected-lookup}
use mini_shellhub.Tunnel.{StreamConn}
use mini_shellhub.Session.Types.{Context}
use mini_shellhub.Session.Operations.{Handshake, set_conn, fresh_session}
use mini_shellhub.Session.Seats.{occupied}
use mini_shellhub.Server.{no_banner, banner_handler}
use mini_shellhub.Server.Banners.{opened as context_of, bridged}
use mini_shellhub.Server.Logins.{offer}
use mini_shellhub.Process.Worlds.{world-reached}
use mini_shellhub.Process.Calls.{connect_client-ok, login_client-ok, serve_channel-ok}
use mini_shellhub.Server.Reaching.{named, tenant_device_reached}
use mini_shellhub.Channels.Opening.{open_session_channel}
use mini_shellhub.Channels.Opening.Arriving.{
  session_of, logged_in, finished, password_then, opening_then,
}
use mini_shellhub.Channels.Forwarding.{DialTcp}
use mini_shellhub.Process.{
  serving, Client, Process, begin, tunnel_of, Step, device_connects, connects, tries_password,
  opens_session,
}

module _ (yo : YamuxOpen) (dial : DialTcp) (Arrives : Text → Text → Type 0)
    (Forwards : Context → Type 0) where
  module _ (user addr id pwd : Text) (h : Host) (t : Target) (conn : StreamConn) (link : ℕ × ℕ)
      (handshake : Handshake) (opens : ℕ → Option ℕ) (channel agent : ℕ) where
    -- A client that is bridged logs in and opens a session channel.
    bridged_served :
        (p : Process)
        → p.exit ≡ none
        → p.ssh ≡ serving
        → Arrives user addr
        → banner_handler (tunnel_of yo p) (context_of user addr id)
          ≡ (bridged user addr id h t conn, ok no_banner)
        → handshake conn (offer (session_of user addr id h t conn link) pwd) ≡ some link
        → opens link.0 ≡ some agent
        → (q : Process) × (c : Context) × Prelude.Reach (Step yo dial Arrives Forwards) p q
          × (q.exit ≡ none)
          × (q.world ≡ p.world)
          × (get_elem? q.clients (length p.clients)
              ≡ some (record { context = c; accepted = true }))
          × (get_elem? c.store 0
              ≡ some (occupied (logged_in user addr id h t conn link) channel agent))
    bridged_served p e s a b k o =
        let n = length p.clients in
        let c : Context = finished user addr id h t conn link in
        let k1 : Client = record { context = bridged user addr id h t conn; accepted = false } in
        let k2 : Client = record { context = c; accepted = true } in
        let p1 : Process = record p { clients = p.clients ++ k1 ∷ [] } in
        let p2 : Process = record p { clients = set p1.clients n k2 } in
        let at1 = get_elem?-append_last p.clients k1 in
        let at2 = get_elem?-set_self p1.clients n k2 k1 at1 in
        let r = open_session_channel (some channel) opens c in
        let (opening, stored) = opening_then user addr id h t conn link opens channel agent o in
        let k3 : Client = record { context = r.0; accepted = true } in
        let p3 : Process = record p { clients = set p2.clients n k3 } in
        let logs_in = password_then user addr id h t conn link (tunnel_of yo p1) handshake pwd k in
        let s1 : Step yo dial Arrives Forwards p p1 =
          rw (sym (connect_client-ok yo user addr id p _ no_banner b))
            (connects user addr id e s a) in
        let s2 : Step yo dial Arrives Forwards p1 p2 =
          rw (sym (login_client-ok n _ p1 c true logs_in))
            (tries_password n (bridged user addr id h t conn) handshake pwd e (at1, refl)) in
        let s3 : Step yo dial Arrives Forwards p2 p3 =
          rw (sym (serve_channel-ok n r p2 _ opening))
            (opens_session n c (some channel) opens e (at2, refl)) in
        (
          p3,
          r.0,
          next (next (next here s1) s2) s3,
          e,
          refl,
          get_elem?-set_self p2.clients n k3 k2 at2,
          stored,
        )

-- Whatever has happened before, while the process runs and both servers serve, a device connects under an
-- identifier with a tenant, and the library opens a stream on its new session. Then a client with that
-- identifier and a user without '@', from an address that parses, can connect, log in with a password that
-- the agent takes over that stream, and open a session channel, if the client's side is accepted and the
-- agent opens its own; then the process still runs, the device is registered, and the client's session
-- holds both channels on its first seat.
pub client_served :
    (yo : YamuxOpen) (dial : DialTcp) (Arrives : Text → Text → Type 0) (Forwards : Context → Type 0)
    (p : Process) (device username addr id pwd : Text) (h : Host) (stream : ℕ)
    (handshake : Handshake) (link : ℕ × ℕ) (opens : ℕ → Option ℕ) (channel agent : ℕ)
    → Prelude.Reach (Step yo dial Arrives Forwards) begin p
    → p.exit ≡ none
    → p.http ≡ serving
    → p.ssh ≡ serving
    → contains device b':' ≡ true
    → contains username b'@' ≡ false
    → new_host addr ≡ ok h
    → Arrives (username ++ b'@' ∷ device) addr
    → yo p.world.next false ≡ some stream
    → handshake
        (record { stream = stream; target = device })
        (record { user = username; auth = pwd ∷ [] })
      ≡ some link
    → opens link.0 ≡ some agent
    → (q : Process) × (c : Context) × Prelude.Reach (Step yo dial Arrives Forwards) p q
      × (q.exit ≡ none)
      × (lookup device q.world.dm.sessions ≡ some p.world.next)
      × (get_elem? q.clients (length p.clients) ≡ some (record { context = c; accepted = true }))
      × (get_elem? c.store 0
          ≡ some (
              occupied
                (logged_in
                  (username ++ b'@' ∷ device)
                  addr
                  id
                  h
                  (record { username = username; target_data = device })
                  (record { stream = stream; target = device })
                  link)
                channel
                agent))
unfolding set_conn fresh_session
client_served yo dial Arrives Forwards p device username addr id pwd h stream handshake link opens
      channel agent r e hs s d u ph a y k o =
    let user = username ++ b'@' ∷ device in
    let t : Target = record { username = username; target_data = device } in
    let conn : StreamConn = record { stream = stream; target = device } in
    let p1 : Process = record p { world = device_connected device p.world } in
    let s1 : Step yo dial Arrives Forwards p p1 = device_connects device [] true true e hs in
    let bridges =
      tenant_device_reached yo p.world device username addr id h stream
        (world-reached yo dial Arrives Forwards r) d u ph y in
    let (q, c, run, f, w, at, stored) =
      bridged_served yo dial Arrives Forwards user addr id pwd h t conn link handshake opens channel
        agent p1 e s a bridges k o in
    (
      q,
      c,
      Reach-before s1 run,
      f,
      ap (λ v. lookup device v.dm.sessions) w ∙ connected-lookup device p.world (named device d),
      at,
      stored,
    )
